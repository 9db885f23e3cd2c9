-- ===== src/Tests/Wire.antt =====
-- The codecs of the refresh pipeline's messages.
use inkbridge.Prelude.{
  get_or, ℕ, ◌≡◌, ◌≤◌, ◌*◌, refl, true, false, List, [], ◌∷◌, ◌++◌, All, length, arith,
}
use inkbridge.Prelude.Int.{pos, negsuc}
use inkbridge.Prelude.Fallible.{ok}
use inkbridge.DeviceEink.Geometry.{Rect}
use inkbridge.DeviceEink.Command.{RefreshCommand, update, partial, enter_fast_mode}
use inkbridge.DeviceEink.Capabilities.{flags, from_flags, supernote_baseline}
use inkbridge.DeviceEink.Wire.{
  encode_commands, decode_commands, encode_capabilities, decode_capabilities, decode_records,
  decode_record, wire_version,
}
use inkbridge.DeviceEink.Wire.CommandRoundTrip.{Encodable, decode-encode_commands}
use inkbridge.DeviceEink.Wire.CapsRoundTrip.{decode-encode_capabilities, decode_capabilities-ok}
use inkbridge.DeviceEink.Wire.Framing.{decode_commands-ok}

abbrev off_screen : Rect
off_screen = record { x = negsuc 4; y = pos 7; w = 300; h = 70000 }

abbrev two_commands : List RefreshCommand
two_commands = update off_screen partial true ∷ enter_fast_mode ∷ []

two_commands-Encodable : All Encodable two_commands
two_commands-Encodable = (
  record {
    x_low = omega arith;
    x_high = omega arith;
    y_low = omega arith;
    y_high = omega arith;
    w_high = omega arith;
    h_high = omega arith;
  },
  (tt, tt),
)

decode-encode_commands_example :
    decode_commands (encode_commands two_commands ++ 9 ∷ []) ≡ ok two_commands
decode-encode_commands_example = decode-encode_commands two_commands (9 ∷ []) two_commands-Encodable

decode-encode_capabilities_example :
    decode_capabilities (encode_capabilities supernote_baseline ++ 5 ∷ []) ≡ ok supernote_baseline
decode-encode_capabilities_example = decode-encode_capabilities supernote_baseline (5 ∷ [])

two_flags : decode_capabilities (1 ∷ 2 ∷ 3 ∷ 0 ∷ []) ≡ ok (from_flags (true ∷ false ∷ []))
unfolding decode_capabilities
two_flags = refl

decode_capabilities-ok_example :
    (wire_version ≡ wire_version)
    × (2 ≤ 2)
    × (get_or (flags (from_flags (true ∷ false ∷ []))) 1 false ≡ false)
decode_capabilities-ok_example =
    decode_capabilities-ok 1 2 (3 ∷ 0 ∷ []) (from_flags (true ∷ false ∷ [])) 1 two_flags refl

-- One record, of the barrier or a fast mode command.
abbrev body : List ℕ
body = 2 ∷ 0 ∷ 0 ∷ 0 ∷ 0 ∷ 0 ∷ 0 ∷ 0 ∷ 0 ∷ 0 ∷ 0 ∷ 0 ∷ 0 ∷ 0 ∷ 0 ∷ 0 ∷ 0 ∷ 0 ∷ 0 ∷ 0 ∷ []

one_record : decode_commands (1 ∷ 1 ∷ 0 ∷ 0 ∷ body) ≡ ok (enter_fast_mode ∷ [])
unfolding decode_commands decode_records decode_record
one_record = refl

decode_commands-ok_example :
    (wire_version ≡ wire_version) × (1 * 20 ≤ 20) × (length (enter_fast_mode ∷ []) ≡ 1)
decode_commands-ok_example = decode_commands-ok 1 1 0 0 body (enter_fast_mode ∷ []) one_record
