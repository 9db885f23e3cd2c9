-- ===== src/Tests/Eink.antt =====
-- The refresh policy on a full panel and on a basic one.
use inkbridge.Prelude.{◌≡◌, refl, ◌<◌, ◌*◌, ◌+◌, true, false, [], ◌∷◌, List, All, arith}
use inkbridge.Prelude.Int.{pos}
use inkbridge.DeviceEink.Geometry.{Rect}
use inkbridge.DeviceEink.Command.{full, fast, partial, update, enter_fast_mode, leave_fast_mode}
use inkbridge.DeviceEink.Capabilities.{supernote_full, supernote_baseline}
use inkbridge.EinkPolicy.{
  EinkRefreshPolicy, Interaction, page_turn, menu, night_mode, active_count, run,
}
use inkbridge.EinkPolicy.Invariant.{IsValid, run-IsValid}
use inkbridge.EinkPolicy.Cadence.{flashes, turns, flashes-turns}
use inkbridge.EinkPolicy.Emitted.{IsQuiet, run-IsQuiet, run_basic}
use inkbridge.EinkPolicy.Fling.{fling, run-fling, basic_fling_stays_fast}

abbrev screen : Rect
screen = record { x = pos 0; y = pos 0; w = 1404; h = 1872 }

-- One turn before a flash.
abbrev about_to_flash : EinkRefreshPolicy
about_to_flash = record {
  caps = supernote_full;
  screen = screen;
  partial_count = 5;
  ghost_clear_interval = 6;
  dither = true;
  currently_scrolling = false;
  night_mode = false;
  night_partial_count = 2;
  night_ghost_clear_interval = 3;
  avoid_flashing = false;
}

about_to_flash-IsValid : IsValid about_to_flash
about_to_flash-IsValid = record {
  day = omega arith;
  night = omega arith;
  day_u32 = omega arith;
  night_u32 = omega arith;
}

abbrev session : List Interaction
session = page_turn screen ∷ night_mode true ∷ page_turn screen ∷ menu true screen ∷ []

run-IsValid_example : IsValid (run about_to_flash session).0
run-IsValid_example = run-IsValid about_to_flash session about_to_flash-IsValid

abbrev two_turns : List Interaction
two_turns = turns (screen ∷ screen ∷ [])

flashes-turns_example :
    (flashes (run about_to_flash two_turns).1 * 6 + active_count (run about_to_flash two_turns).0
      ≡ 5 + 2)
    × (active_count (run about_to_flash two_turns).0 < 6)
flashes-turns_example =
    flashes-turns about_to_flash (screen ∷ screen ∷ []) about_to_flash-IsValid refl refl

abbrev quiet : EinkRefreshPolicy
quiet = record about_to_flash { avoid_flashing = true }

run-IsQuiet_example : All IsQuiet (run quiet session).1
run-IsQuiet_example = run-IsQuiet quiet session refl refl

abbrev basic : EinkRefreshPolicy
basic = record about_to_flash { caps = supernote_baseline }

run_basic_example : All (λ c. c ≡ update screen full true) (run basic session).1
run_basic_example = run_basic basic session refl refl

run-fling_example : run about_to_flash (fling (screen ∷ []) screen) ≡ (
  record about_to_flash { currently_scrolling = false; partial_count = 0 },
  enter_fast_mode ∷ update screen fast false ∷ leave_fast_mode ∷ update screen partial true ∷ [],
)
run-fling_example = run-fling about_to_flash (screen ∷ []) screen refl

-- A basic panel that has a fast mode.
abbrev basic_fast : EinkRefreshPolicy
basic_fast = record about_to_flash { caps = record supernote_baseline { fast_mode = true } }

basic_fling_stays_fast_example :
    (run basic_fast (fling (screen ∷ []) screen)).1 ≡ enter_fast_mode ∷ update screen full true ∷ []
basic_fling_stays_fast_example = basic_fling_stays_fast basic_fast (screen ∷ []) screen refl refl
