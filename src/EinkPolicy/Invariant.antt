-- ===== src/EinkPolicy/Invariant.antt =====
-- The flash counters stay below their intervals, so that no u32 overflows.
use inkbridge.Prelude.{ℕ, ◌^◌, ◌<◌, List, [], ◌∷◌, arith}
use inkbridge.DeviceEink.Geometry.{Rect}
use inkbridge.DeviceEink.Capabilities.{DeviceCapabilities}
use inkbridge.EinkPolicy.{
  EinkRefreshPolicy, with_interval, Interaction, page_turn, scroll_start, scroll_update, scroll_end,
  menu, night_mode, step, run,
}

pub record IsValid (p : EinkRefreshPolicy) : Type 0 where
  pub day : p.partial_count < p.ghost_clear_interval
  pub night : p.night_partial_count < p.night_ghost_clear_interval
  pub day_u32 : p.ghost_clear_interval < 2 ^ 32
  pub night_u32 : p.night_ghost_clear_interval < 2 ^ 32

-- A new policy is valid for any interval of the type u32, zero included.
with_interval-IsValid :
    (caps : DeviceCapabilities) (screen : Rect) (n : ℕ)
    → n < 2 ^ 32
    → IsValid (with_interval caps screen n)
unfolding with_interval
with_interval-IsValid caps screen n h = record {
  day = omega arith;
  night = omega arith;
  day_u32 = omega arith;
  night_u32 = omega arith;
}

-- Every interaction keeps both flash counters below their intervals, and the intervals in a u32.
pub step-IsValid : (p : EinkRefreshPolicy) (i : Interaction) → IsValid p → IsValid (step p i).0
unfolding step
step-IsValid p (page_turn r) v = ground arith
step-IsValid p scroll_start v = ground arith
step-IsValid p (scroll_update r) v = ground arith
step-IsValid p (scroll_end r) v = ground arith
step-IsValid p (menu o r) v = ground arith
step-IsValid p (night_mode on) v = ground arith

-- Any session keeps both flash counters below their intervals, and the intervals in a u32.
pub run-IsValid : (p : EinkRefreshPolicy) (is : List Interaction) → IsValid p → IsValid (run p is).0
unfolding run
run-IsValid p [] v = v
run-IsValid p (i ∷ is) v = run-IsValid (step p i).0 is (step-IsValid p i v)
