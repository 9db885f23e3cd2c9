-- ===== src/EinkPolicy/Emitted.antt =====
-- What a session emits on the panels that must not, or cannot, do everything.
use inkbridge.Prelude.{◌≡◌, refl, List, [], ◌∷◌, Bool, true, false, arith, All, All-append}
use inkbridge.DeviceEink.Command.{
  RefreshIntent, full, flash_ui, flash_partial, RefreshCommand, update,
}
use inkbridge.EinkPolicy.{
  EinkRefreshPolicy, Interaction, page_turn, scroll_start, scroll_update, scroll_end, menu,
  night_mode, step, run,
}

abbrev pub is_flashing : RefreshIntent → Bool
is_flashing full = true
is_flashing flash_ui = true
is_flashing flash_partial = true
is_flashing _ = false

abbrev pub IsQuiet : RefreshCommand → Type 0
IsQuiet (update r i d) = is_flashing i ≡ false
IsQuiet _ = Unit {0}

-- What no interaction changes.
pub record SameSetup (p q : EinkRefreshPolicy) : Type 0 where
  pub caps : q.caps ≡ p.caps
  pub screen : q.screen ≡ p.screen
  pub dither : q.dither ≡ p.dither
  pub avoid : q.avoid_flashing ≡ p.avoid_flashing

pub step-SameSetup : (p : EinkRefreshPolicy) (i : Interaction) → SameSetup p (step p i).0
unfolding step
step-SameSetup p (page_turn r) = record {
  caps = ground arith;
  screen = ground arith;
  dither = ground arith;
  avoid = ground arith;
}
step-SameSetup p scroll_start = record { caps = refl; screen = refl; dither = refl; avoid = refl }
step-SameSetup p (scroll_update r) = record {
  caps = ground arith;
  screen = ground arith;
  dither = ground arith;
  avoid = ground arith;
}
step-SameSetup p (scroll_end r) = record {
  caps = ground arith;
  screen = ground arith;
  dither = ground arith;
  avoid = ground arith;
}
step-SameSetup p (menu o r) = record {
  caps = ground arith;
  screen = ground arith;
  dither = ground arith;
  avoid = ground arith;
}
step-SameSetup p (night_mode on) = record {
  caps = ground arith;
  screen = ground arith;
  dither = ground arith;
  avoid = ground arith;
}

step-IsQuiet :
    (p : EinkRefreshPolicy) (i : Interaction)
    → p.caps.eink_full ≡ true
    → p.avoid_flashing ≡ true
    → All IsQuiet (step p i).1
unfolding step
step-IsQuiet p (page_turn r) e a = ground arith
step-IsQuiet p scroll_start e a = ground arith
step-IsQuiet p (scroll_update r) e a = ground arith
step-IsQuiet p (scroll_end r) e a = ground arith
step-IsQuiet p (menu o r) e a = ground arith
step-IsQuiet p (night_mode on) e a = ground arith

-- With `avoid_flashing` set, a session on a full-control panel emits no flashing refresh.
pub run-IsQuiet :
    (p : EinkRefreshPolicy) (is : List Interaction)
    → p.caps.eink_full ≡ true
    → p.avoid_flashing ≡ true
    → All IsQuiet (run p is).1
unfolding run
run-IsQuiet p [] e a = tt
run-IsQuiet p (i ∷ is) e a =
    let s = step-SameSetup p i in
    All-append _ (step p i).1 (run (step p i).0 is).1 (step-IsQuiet p i e a)
      (run-IsQuiet (step p i).0 is (ground arith) (ground arith))

step_basic :
    (p : EinkRefreshPolicy) (i : Interaction)
    → p.caps.eink_full ≡ false
    → p.caps.fast_mode ≡ false
    → All (λ c. c ≡ update p.screen full p.dither) (step p i).1
unfolding step
step_basic p (page_turn r) e a = ground arith
step_basic p scroll_start e a = ground arith
step_basic p (scroll_update r) e a = ground arith
step_basic p (scroll_end r) e a = ground arith
step_basic p (menu o r) e a = ground arith
step_basic p (night_mode on) e a = ground arith

-- On a basic panel with no fast mode, every command of a session is a full-screen `full` update.
pub run_basic :
    (p : EinkRefreshPolicy) (is : List Interaction)
    → p.caps.eink_full ≡ false
    → p.caps.fast_mode ≡ false
    → All (λ c. c ≡ update p.screen full p.dither) (run p is).1
unfolding run
run_basic p [] e a = tt
run_basic p (i ∷ is) e a =
    let s = step-SameSetup p i in
    let q = (step p i).0 in
    let same : update q.screen full q.dither ≡ update p.screen full p.dither = ground arith in
    All-append _ (step p i).1 (run q is).1 (step_basic p i e a)
      (rw same at (run_basic q is (ground arith) (ground arith)))
