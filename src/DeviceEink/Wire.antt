-- ===== src/DeviceEink/Wire.antt =====
-- device-eink/src/wire.rs: the byte codecs of the capabilities and of the command stream. A byte is
-- a number below 256, and a buffer a list of them.
pub mod Words
pub mod CapsRoundTrip
pub mod CommandRoundTrip
pub mod Framing
use inkbridge.Prelude.{
  ℕ, zero, suc, ◌+◌, ◌*◌, ◌%◌, ◌^◌, min, Bool, true, false, not, List, [], ◌∷◌, ◌++◌, map, Option,
  none, some, length, get_or, take, drop, ltb, eqb, if◌then◌else◌,
}
use inkbridge.Prelude.Fallible.{Result, ok, err, ◌>>=◌, ok_or}
use inkbridge.DeviceEink.Geometry.{Rect}
use inkbridge.DeviceEink.Command.{
  RefreshIntent, full, partial, ui, fast, flash_ui, flash_partial, RefreshCommand, update,
  wait_for_last, enter_fast_mode, leave_fast_mode,
}
use inkbridge.DeviceEink.Capabilities.{DeviceCapabilities, flags, from_flags}
use Words.{to_u32, from_u32, le_bytes, from_le_bytes}

abbrev pub wire_version : ℕ
wire_version = 1

abbrev pub command_record_len : ℕ
command_record_len = 20

abbrev pub command_header_len : ℕ
command_header_len = 4

pub data WireError : Type 0 where
  truncated : WireError
  bad_version : ℕ → WireError
  bad_discriminant : ℕ → WireError

-- `u8::from(b)`
abbrev pub bit : Bool → ℕ
bit true = 1
bit false = 0

unfoldable pub intent_code : RefreshIntent → ℕ
intent_code full = 0
intent_code partial = 1
intent_code ui = 2
intent_code fast = 3
intent_code flash_ui = 4
intent_code flash_partial = 5

unfoldable pub intent_from_code : ℕ → Option RefreshIntent
intent_from_code c =
    if eqb c 0
    then some full
    else if eqb c 1
    then some partial
    else if eqb c 2
    then some ui
    else if eqb c 3
    then some fast
    else if eqb c 4
    then some flash_ui
    else if eqb c 5
    then some flash_partial
    else none

unfoldable pub encode_capabilities : DeviceCapabilities → List ℕ
unfolding flags
encode_capabilities caps = wire_version ∷ (length (flags caps) % 256) ∷ map bit (flags caps)

-- `bytes[2..flags_end]` is `take nflags` of what follows the two header bytes. The sum 2 + nflags
-- is at most 257, so `checked_add` does not fail.
unfoldable pub decode_capabilities : List ℕ → Result WireError DeviceCapabilities
unfolding from_flags
decode_capabilities bytes =
    let nflags = get_or bytes 1 0 in
    if ltb (length bytes) 2
    then err truncated
    else if not (eqb (get_or bytes 0 0) wire_version)
    then err (bad_version (get_or bytes 0 0))
    else if ltb (length bytes) (2 + nflags)
    then err truncated
    else ok (from_flags (map (λ b. not (eqb b 0)) (take nflags (drop 2 bytes))))

unfoldable pub encode_record : RefreshCommand → List ℕ
unfolding le_bytes
encode_record (update rect intent dither) =
    0
    ∷ intent_code intent
    ∷ bit dither
    ∷ 0
    ∷ (le_bytes (to_u32 rect.x)
        ++ (le_bytes (to_u32 rect.y) ++ (le_bytes rect.w ++ le_bytes rect.h)))
encode_record wait_for_last = 1 ∷ Words.zeros 19
encode_record enter_fast_mode = 2 ∷ Words.zeros 19
encode_record leave_fast_mode = 3 ∷ Words.zeros 19

unfoldable pub encode_records : List RefreshCommand → List ℕ
unfolding encode_record
encode_records [] = []
encode_records (c ∷ cs) = encode_record c ++ encode_records cs

unfoldable pub encode_commands : List RefreshCommand → List ℕ
unfolding encode_records
encode_commands commands =
    let n = min (length commands) 255 in
    wire_version ∷ (n % 256) ∷ 0 ∷ 0 ∷ encode_records (take n commands)

-- The `match r[0]` of one record, `r` the 20 bytes from its offset.
unfoldable pub decode_record : List ℕ → Result WireError RefreshCommand
decode_record r =
    let b = λ (i : ℕ). get_or r i 0 in
    if eqb (b 0) 0
    then (do
      intent ← ok_or (intent_from_code (b 1)) (bad_discriminant (b 1))
      ok (
          update
            (record {
              x = from_u32 (from_le_bytes (b 4) (b 5) (b 6) (b 7));
              y = from_u32 (from_le_bytes (b 8) (b 9) (b 10) (b 11));
              w = from_le_bytes (b 12) (b 13) (b 14) (b 15);
              h = from_le_bytes (b 16) (b 17) (b 18) (b 19);
            })
            intent (not (eqb (b 2) 0))))
    else if eqb (b 0) 1
    then ok wait_for_last
    else if eqb (b 0) 2
    then ok enter_fast_mode
    else if eqb (b 0) 3
    then ok leave_fast_mode
    else err (bad_discriminant (b 0))

-- The loop over the records: `rest` is the buffer from the offset of the next record.
unfoldable pub decode_records : ℕ → List ℕ → Result WireError (List RefreshCommand)
decode_records zero rest = ok []
decode_records (suc n) rest = do
  cmd ← decode_record (take command_record_len rest)
  out ← decode_records n (drop command_record_len rest)
  ok (cmd ∷ out)

unfoldable pub decode_commands : List ℕ → Result WireError (List RefreshCommand)
decode_commands bytes =
    let n = get_or bytes 1 0 in
    if ltb (length bytes) command_header_len
    then err truncated
    else if not (eqb (get_or bytes 0 0) wire_version)
    then err (bad_version (get_or bytes 0 0))
    else if ltb (length bytes) (command_header_len + n * command_record_len)
    then err truncated
    else decode_records n (drop command_header_len bytes)
