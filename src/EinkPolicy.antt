-- ===== src/EinkPolicy.antt =====
-- reader-core/src/policy/eink_policy.rs: the refresh state machine, and the trait of
-- device-eink/src/policy.rs that it implements. A method returns the new policy and the commands.
pub mod Invariant
pub mod Cadence
pub mod Emitted
pub mod Fling
use inkbridge.Prelude.{
  ℕ, ◌+◌, ◌%◌, ◌^◌, max, Bool, true, false, not, ◌&&◌, List, [], ◌∷◌, ◌++◌, leb, if◌then◌else◌,
}
use inkbridge.DeviceEink.Geometry.{Rect}
use inkbridge.DeviceEink.Command.{
  RefreshIntent, full, partial, ui, fast, flash_ui, RefreshCommand, update, wait_for_last,
  enter_fast_mode, leave_fast_mode,
}
use inkbridge.DeviceEink.Capabilities.{DeviceCapabilities}

abbrev pub default_ghost_clear_interval : ℕ
default_ghost_clear_interval = 6

pub record EinkRefreshPolicy : Type 0 where
  pub caps : DeviceCapabilities
  pub screen : Rect
  pub partial_count : ℕ
  pub ghost_clear_interval : ℕ
  pub dither : Bool
  pub currently_scrolling : Bool
  pub night_mode : Bool
  pub night_partial_count : ℕ
  pub night_ghost_clear_interval : ℕ
  pub avoid_flashing : Bool

unfoldable pub with_interval : DeviceCapabilities → Rect → ℕ → EinkRefreshPolicy
with_interval caps screen ghost_clear_interval = record {
  caps = caps;
  screen = screen;
  partial_count = 0;
  ghost_clear_interval = max ghost_clear_interval 1;
  dither = false;
  currently_scrolling = false;
  night_mode = false;
  night_partial_count = 0;
  night_ghost_clear_interval = max ghost_clear_interval 1;
  avoid_flashing = false;
}

unfoldable pub new : DeviceCapabilities → Rect → EinkRefreshPolicy
unfolding with_interval
new caps screen = with_interval caps screen default_ghost_clear_interval

unfoldable pub with_dither : EinkRefreshPolicy → Bool → EinkRefreshPolicy
with_dither p dither = record p { dither = dither }

unfoldable pub with_night_interval : EinkRefreshPolicy → ℕ → EinkRefreshPolicy
with_night_interval p n = record p { night_ghost_clear_interval = max n 1 }

unfoldable pub with_avoid_flashing : EinkRefreshPolicy → Bool → EinkRefreshPolicy
with_avoid_flashing p avoid = record p { avoid_flashing = avoid }

-- The counter and the interval of the active mode, and a write of the counter: the code's `count`
-- is a reference to one of two fields.
abbrev pub active_interval : EinkRefreshPolicy → ℕ
active_interval p = if p.night_mode then p.night_ghost_clear_interval else p.ghost_clear_interval

abbrev pub active_count : EinkRefreshPolicy → ℕ
active_count p = if p.night_mode then p.night_partial_count else p.partial_count

abbrev pub set_active_count : EinkRefreshPolicy → ℕ → EinkRefreshPolicy
set_active_count p n =
    if p.night_mode then record p { night_partial_count = n } else record p { partial_count = n }

-- `*count += 1` on a u32 wraps here, as in a release build; a debug build panics there.
unfoldable pub on_page_turn : EinkRefreshPolicy → Rect → EinkRefreshPolicy × List RefreshCommand
on_page_turn p page_rect =
    if not p.caps.eink_full
    then (p, update p.screen full p.dither ∷ [])
    else (let count = (active_count p + 1) % 2 ^ 32 in
        let promote = leb (active_interval p) count in
        (
          set_active_count (record p { currently_scrolling = false })
              (if promote then 0 else count),
          if promote && not p.avoid_flashing
              then wait_for_last ∷ update page_rect full p.dither ∷ []
              else update page_rect partial p.dither ∷ [],
        ))

unfoldable pub on_scroll_start : EinkRefreshPolicy → EinkRefreshPolicy × List RefreshCommand
on_scroll_start p = (
  record p { currently_scrolling = true; partial_count = 0 },
  if p.caps.fast_mode then enter_fast_mode ∷ [] else [],
)

abbrev pub is_partial : RefreshIntent → Bool
is_partial partial = true
is_partial _ = false

unfoldable pub on_scroll_update : EinkRefreshPolicy → Rect → EinkRefreshPolicy × List RefreshCommand
on_scroll_update p dirty =
    if not p.caps.eink_full
    then (p, [])
    else (let intent = if p.caps.fast_mode then fast else partial in
        let rect = if p.caps.regional_update then dirty else p.screen in
        let dither = is_partial intent && p.dither in (p, update rect intent dither ∷ []))

unfoldable pub on_scroll_end : EinkRefreshPolicy → Rect → EinkRefreshPolicy × List RefreshCommand
on_scroll_end p settle_rect =
    let p' = record p { currently_scrolling = false } in
    if not p.caps.eink_full then (p', update p.screen full p.dither ∷ []) else (
      p',
      (if p.caps.fast_mode then leave_fast_mode ∷ [] else [])
          ++ update settle_rect partial p.dither ∷ [],
    )

unfoldable pub on_menu : EinkRefreshPolicy → Bool → Rect → EinkRefreshPolicy × List RefreshCommand
on_menu p open_menu region =
    let close_intent = if p.avoid_flashing then ui else flash_ui in
    if p.caps.eink_full
    then (p, update region (if open_menu then ui else close_intent) p.dither ∷ [])
    else (p, update p.screen full p.dither ∷ [])

unfoldable pub on_night_mode : EinkRefreshPolicy → Bool → EinkRefreshPolicy × List RefreshCommand
on_night_mode p on = (
  if on
      then record p { night_mode = on; night_partial_count = 0 }
      else record p { night_mode = on; partial_count = 0 },
  update p.screen (if p.avoid_flashing && p.caps.eink_full then partial else full) p.dither ∷ [],
)

-- The methods of the trait `RefreshPolicy`, as one type of interactions.
pub data Interaction : Type 0 where
  page_turn : Rect → Interaction
  scroll_start : Interaction
  scroll_update : Rect → Interaction
  scroll_end : Rect → Interaction
  menu : Bool → Rect → Interaction
  night_mode : Bool → Interaction

unfoldable pub step : EinkRefreshPolicy → Interaction → EinkRefreshPolicy × List RefreshCommand
unfolding on_page_turn on_scroll_start on_scroll_update on_scroll_end on_menu on_night_mode
step p (page_turn r) = on_page_turn p r
step p scroll_start = on_scroll_start p
step p (scroll_update r) = on_scroll_update p r
step p (scroll_end r) = on_scroll_end p r
step p (menu o r) = on_menu p o r
step p (night_mode on) = on_night_mode p on

-- A session: the interactions in turn, and everything that they emitted.
unfoldable pub run : EinkRefreshPolicy → List Interaction → EinkRefreshPolicy × List RefreshCommand
run p [] = (p, [])
run p (i ∷ is) = let (q, out) = step p i in let (r, rest) = run q is in (r, out ++ rest)
