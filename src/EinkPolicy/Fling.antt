-- ===== src/EinkPolicy/Fling.antt =====
-- A whole fling: the start, the updates while it moves, the end.
use inkbridge.Prelude.{◌≡◌, List, [], ◌∷◌, ◌++◌, map, true, false, arith, if◌then◌else◌}
use inkbridge.DeviceEink.Geometry.{Rect}
use inkbridge.DeviceEink.Command.{
  full, fast, partial, RefreshCommand, update, enter_fast_mode, leave_fast_mode,
}
use inkbridge.EinkPolicy.{
  EinkRefreshPolicy, Interaction, scroll_start, scroll_update, scroll_end, step, run,
}

abbrev pub fling : List Rect → Rect → List Interaction
fling dirty settle = scroll_start ∷ (map scroll_update dirty ++ scroll_end settle ∷ [])

-- One update while the page moves.
abbrev pub moving : EinkRefreshPolicy → Rect → RefreshCommand
moving p dirty =
    if p.caps.fast_mode
    then update (if p.caps.regional_update then dirty else p.screen) fast false
    else update (if p.caps.regional_update then dirty else p.screen) partial p.dither

fling_moves :
    (p : EinkRefreshPolicy) (dirty : List Rect) (settle : Rect)
    → p.caps.eink_full ≡ true
    → run p (map scroll_update dirty ++ scroll_end settle ∷ []) ≡ (
      record p { currently_scrolling = false },
      map (moving p) dirty
          ++ ((if p.caps.fast_mode then leave_fast_mode ∷ [] else [])
              ++ update settle partial p.dither ∷ []),
    )
unfolding run step
fling_moves p [] settle e = ground arith
fling_moves p (d ∷ ds) settle e = ground (arith, fling_moves p ds settle e)

-- A fling on a full-control panel emits one update for each movement and one settling partial
-- update, between entering and leaving the fast region if there is one, and no flash. It leaves
-- the policy as it was, but for the scrolling flag, which is off, and the day counter, which is 0;
-- the night counter is kept, in night mode too.
pub run-fling :
    (p : EinkRefreshPolicy) (dirty : List Rect) (settle : Rect)
    → p.caps.eink_full ≡ true
    → run p (fling dirty settle) ≡ (
      record p { currently_scrolling = false; partial_count = 0 },
      (if p.caps.fast_mode then enter_fast_mode ∷ [] else [])
          ++ (map (moving p) dirty
              ++ ((if p.caps.fast_mode then leave_fast_mode ∷ [] else [])
                  ++ update settle partial p.dither ∷ [])),
    )
unfolding run step
run-fling p dirty settle e =
    ground (
      arith,
      fling_moves (record p { currently_scrolling = true; partial_count = 0 }) dirty settle e,
    )

basic_moves :
    (p : EinkRefreshPolicy) (dirty : List Rect) (settle : Rect)
    → p.caps.eink_full ≡ false
    → (run p (map scroll_update dirty ++ scroll_end settle ∷ [])).1
      ≡ update p.screen full p.dither ∷ []
unfolding run step
basic_moves p [] settle e = ground arith
basic_moves p (d ∷ ds) settle e = ground (arith, basic_moves p ds settle e)

-- On a basic panel that advertises a fast mode, a fling enters the fast region and never leaves it.
pub basic_fling_stays_fast :
    (p : EinkRefreshPolicy) (dirty : List Rect) (settle : Rect)
    → p.caps.eink_full ≡ false
    → p.caps.fast_mode ≡ true
    → (run p (fling dirty settle)).1 ≡ enter_fast_mode ∷ update p.screen full p.dither ∷ []
unfolding run step
basic_fling_stays_fast p dirty settle e f =
    ground (
      arith,
      basic_moves (record p { currently_scrolling = true; partial_count = 0 }) dirty settle e,
    )
