-- ===== src/DeviceEink/Wire/Framing.antt =====
-- What the decoders of device-eink/src/wire.rs accept: the framing of a command stream.
use inkbridge.Prelude.{ℕ, zero, suc, ◌*◌, ◌≤◌, ◌≡◌, List, [], ◌∷◌, arith, length, drop}
use inkbridge.DeviceEink.Command.{RefreshCommand}
use inkbridge.Prelude.Fallible.{ok}
use inkbridge.DeviceEink.Wire.{wire_version, decode_records, decode_commands}

-- A decoded stream has one command for each record that it announces.
length-decode_records :
    (n : ℕ) (rest : List ℕ) (cs : List RefreshCommand)
    → decode_records n rest ≡ ok cs
    → length cs ≡ n
unfolding decode_records
length-decode_records zero rest cs h = ground arith
length-decode_records (suc n) rest [] h = ground arith
length-decode_records (suc n) rest (c ∷ cs) h =
    ground (arith, length-decode_records n (drop 20 rest) cs)

-- A stream is accepted only if its version is the current one and it is long enough for the
-- records it announces, and then it yields exactly that many commands.
pub decode_commands-ok :
    (version count r0 r1 : ℕ) (rest : List ℕ) (cs : List RefreshCommand)
    → decode_commands (version ∷ count ∷ r0 ∷ r1 ∷ rest) ≡ ok cs
    → (version ≡ wire_version) × (count * 20 ≤ length rest) × (length cs ≡ count)
unfolding decode_commands
decode_commands-ok version count r0 r1 rest cs h =
    ground (arith, length-decode_records count rest cs)
