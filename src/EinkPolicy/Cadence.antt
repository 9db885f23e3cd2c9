-- ===== src/EinkPolicy/Cadence.antt =====
-- The cadence of flashing refreshes over a series of page turns on a full-control panel.
use inkbridge.Prelude.{ℕ, suc, ◌+◌, ◌*◌, ◌<◌, ◌≡◌, ap, List, [], ◌∷◌, ◌++◌, true, false, arith}
use inkbridge.DeviceEink.Geometry.{Rect}
use inkbridge.DeviceEink.Command.{full, RefreshCommand, update}
use inkbridge.EinkPolicy.{
  EinkRefreshPolicy, on_page_turn, Interaction, page_turn, step, run, active_count, active_interval,
}
use inkbridge.EinkPolicy.Invariant.{IsValid, step-IsValid}

-- The number of flashing page refreshes in a stream.
abbrev pub flash : RefreshCommand → ℕ
flash (update r full d) = 1
flash _ = 0

abbrev pub flashes : List RefreshCommand → ℕ
flashes [] = 0
flashes (c ∷ cs) = flash c + flashes cs

flashes-append : (xs ys : List RefreshCommand) → flashes (xs ++ ys) ≡ flashes xs + flashes ys
flashes-append [] ys = omega arith
flashes-append (x ∷ xs) ys = omega (arith, flashes-append xs ys)

abbrev pub turns : List Rect → List Interaction
turns [] = []
turns (r ∷ rs) = page_turn r ∷ turns rs

abbrev pub count_turns : List Rect → ℕ
count_turns [] = 0
count_turns (r ∷ rs) = suc (count_turns rs)

-- What the cadence of a policy depends on besides its counters.
pub record SamePace (p q : EinkRefreshPolicy) : Type 0 where
  pub caps : q.caps ≡ p.caps
  pub night_mode : q.night_mode ≡ p.night_mode
  pub day : q.ghost_clear_interval ≡ p.ghost_clear_interval
  pub night : q.night_ghost_clear_interval ≡ p.night_ghost_clear_interval
  pub avoid : q.avoid_flashing ≡ p.avoid_flashing

on_page_turn-SamePace : (p : EinkRefreshPolicy) (r : Rect) → SamePace p (on_page_turn p r).0
unfolding on_page_turn
on_page_turn-SamePace p r = record {
  caps = ground arith;
  night_mode = ground arith;
  day = ground arith;
  night = ground arith;
  avoid = ground arith;
}

active_interval-SamePace :
    {p q : EinkRefreshPolicy} → SamePace p q → active_interval q ≡ active_interval p
active_interval-SamePace s = ground arith

-- One turn counts one, or clears the counter with a flash.
turn_counts :
    (p : EinkRefreshPolicy) (r : Rect)
    → IsValid p
    → p.caps.eink_full ≡ true
    → p.avoid_flashing ≡ false
    → flashes (on_page_turn p r).1 * active_interval p + active_count (on_page_turn p r).0
      ≡ active_count p + 1
unfolding on_page_turn
turn_counts p r v e a = ground arith

-- Through any number of page turns on a full-control panel that may flash, every flash stands for
-- `active_interval` turns, and the active counter holds the turns since the last flash: the flashes
-- times the interval and the new counter add up to the old counter and the turns, and the counter
-- is below the interval.
pub flashes-turns :
    (p : EinkRefreshPolicy) (rs : List Rect)
    → IsValid p
    → p.caps.eink_full ≡ true
    → p.avoid_flashing ≡ false
    → (flashes (run p (turns rs)).1 * active_interval p + active_count (run p (turns rs)).0
        ≡ active_count p + count_turns rs)
      × (active_count (run p (turns rs)).0 < active_interval p)
unfolding run step
flashes-turns p [] v e a = (ground arith, ground arith)
flashes-turns p (r ∷ rs) v e a =
    let s = on_page_turn-SamePace p r in
    let q = (on_page_turn p r).0 in
    let (total, below) =
      flashes-turns q rs (step-IsValid p (page_turn r) v) (ground arith) (ground arith) in
    let k = active_interval-SamePace s in
    (
      omega (
        arith,
        ap (λ (n : ℕ). n * active_interval p)
            (flashes-append (on_page_turn p r).1 (run q (turns rs)).1),
        turn_counts p r v e a,
        rw k at total,
      ),
      rw k at below,
    )
