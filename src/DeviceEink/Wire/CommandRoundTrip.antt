-- ===== src/DeviceEink/Wire/CommandRoundTrip.antt =====
-- The command codec of device-eink/src/wire.rs: record by record, and the stream.
use inkbridge.Prelude.{
  ℕ, zero, suc, ◌+◌, ◌*◌, ◌%◌, ◌≤◌, min, ◌≡◌, refl, ap, ◌∙◌, Bool, List, [], ◌∷◌, ◌++◌, arith,
  length, take, drop, length-append, take-append, drop-append, All, some,
}
use mathlib.Core.List.{append_assoc}
use inkbridge.DeviceEink.Geometry.{Rect, InRange}
use inkbridge.DeviceEink.Command.{
  RefreshIntent, full, partial, ui, fast, flash_ui, flash_partial, RefreshCommand, update,
  wait_for_last, enter_fast_mode, leave_fast_mode,
}
use inkbridge.Prelude.Fallible.{ok}
use inkbridge.DeviceEink.Wire.{
  wire_version, intent_code, intent_from_code, encode_record, encode_records, encode_commands,
  decode_record, decode_records, decode_commands,
}
use inkbridge.DeviceEink.Wire.CapsRoundTrip.{flag_of_byte-bit}
use inkbridge.DeviceEink.Wire.Words.{to_u32, from_le_bytes-le_bytes, to_u32-lt, from_u32-to_u32}

-- The rectangle of an update fits its field types.
abbrev pub Encodable : RefreshCommand → Type 0
Encodable (update rect intent dither) = InRange rect
Encodable _ = Unit {0}

length-encode_record : (c : RefreshCommand) → length (encode_record c) ≡ 20
unfolding encode_record
length-encode_record (update rect intent dither) = refl
length-encode_record wait_for_last = refl
length-encode_record enter_fast_mode = refl
length-encode_record leave_fast_mode = refl

intent_from_code-intent_code : (i : RefreshIntent) → intent_from_code (intent_code i) ≡ some i
unfolding intent_from_code intent_code
intent_from_code-intent_code full = refl
intent_from_code-intent_code partial = refl
intent_from_code-intent_code ui = refl
intent_from_code-intent_code fast = refl
intent_from_code-intent_code flash_ui = refl
intent_from_code-intent_code flash_partial = refl

decode_update :
    (r : Rect) (intent : RefreshIntent) (dither : Bool)
    → InRange r
    → decode_record (encode_record (update r intent dither)) ≡ ok (update r intent dither)
unfolding decode_record encode_record
decode_update r intent dither v = simp (
  intent_from_code-intent_code,
  flag_of_byte-bit,
  from_le_bytes-le_bytes (to_u32 r.x) (to_u32-lt r.x),
  from_le_bytes-le_bytes (to_u32 r.y) (to_u32-lt r.y),
  from_le_bytes-le_bytes r.w v.w_high,
  from_le_bytes-le_bytes r.h v.h_high,
  from_u32-to_u32 r.x v.x_low v.x_high,
  from_u32-to_u32 r.y v.y_low v.y_high,
)

-- One record reads back as the command that it encodes.
decode-encode_record : (c : RefreshCommand) → Encodable c → decode_record (encode_record c) ≡ ok c
decode-encode_record (update rect intent dither) v = decode_update rect intent dither v
decode-encode_record wait_for_last v = unfold decode_record encode_record in refl
decode-encode_record enter_fast_mode v = unfold decode_record encode_record in refl
decode-encode_record leave_fast_mode v = unfold decode_record encode_record in refl

take_record :
    (c : RefreshCommand) (rest : List ℕ) → take 20 (encode_record c ++ rest) ≡ encode_record c
take_record c rest = rw (← length-encode_record c) (take-append (encode_record c) rest)

drop_record : (c : RefreshCommand) (rest : List ℕ) → drop 20 (encode_record c ++ rest) ≡ rest
drop_record c rest = rw (← length-encode_record c) (drop-append (encode_record c) rest)

decode-encode_records :
    (cs : List RefreshCommand) (extra : List ℕ)
    → All Encodable cs
    → decode_records (length cs) (encode_records cs ++ extra) ≡ ok cs
unfolding decode_records encode_records
decode-encode_records [] extra v = refl
decode-encode_records (c ∷ cs) extra v = simp (
  append_assoc,
  take_record,
  drop_record,
  decode-encode_record c v.0,
  decode-encode_records cs extra v.1,
)

length-encode_records : (cs : List RefreshCommand) → length (encode_records cs) ≡ length cs * 20
unfolding encode_records
length-encode_records [] = refl
length-encode_records (c ∷ cs) =
    length-append (encode_record c) (encode_records cs)
    ∙ omega (arith, length-encode_record c, length-encode_records cs)

length-take : (n : ℕ) (cs : List RefreshCommand) → length (take n cs) ≡ min (length cs) n
length-take zero xs = omega arith
length-take (suc n) [] = omega arith
length-take (suc n) (x ∷ xs) = omega (arith, length-take n xs)

-- The encoded stream has four bytes of header and twenty for each command, of at most 255 commands.
pub length-encode_commands :
    (cs : List RefreshCommand) → length (encode_commands cs) ≡ 4 + 20 * min (length cs) 255
unfolding encode_commands
length-encode_commands cs = omega (
  arith,
  length-encode_records (take (min (length cs) 255) cs),
  length-take (min (length cs) 255) cs,
)

All-take : (n : ℕ) (cs : List RefreshCommand) → All Encodable cs → All Encodable (take n cs)
All-take zero cs v = tt
All-take (suc n) [] v = tt
All-take (suc n) (c ∷ cs) v = (v.0, All-take n cs v.1)

take-min : (n : ℕ) (cs : List RefreshCommand) → take (min (length cs) n) cs ≡ take n cs
take-min zero cs = let e : min (length cs) 0 ≡ 0 = omega arith in rw e
take-min (suc n) [] = let e : min 0 (suc n) ≡ 0 = omega arith in rw e
take-min (suc n) (c ∷ cs) =
    let e : min (suc (length cs)) (suc n) ≡ suc (min (length cs) n) = omega arith in
    rw e (ap (◌∷◌ c) (take-min n cs))

-- The count byte does not wrap, and the loop reads as many records as were written.
decode_count :
    (cs : List RefreshCommand) (extra : List ℕ)
    → All Encodable cs
    → decode_records
        (min (length cs) 255 % 256)
        (encode_records (take (min (length cs) 255) cs) ++ extra)
      ≡ ok (take 255 cs)
decode_count cs extra v =
    let n = min (length cs) 255 in
    let e : n % 256 ≡ length (take n cs) = omega (arith, length-take n cs) in
    rw e (decode-encode_records (take n cs) extra (All-take n cs v) ∙ ap ok (take-min 255 cs))

decode_framed :
    (count : ℕ) (body : List ℕ)
    → count * 20 ≤ length body
    → decode_commands (wire_version ∷ count ∷ 0 ∷ 0 ∷ body) ≡ decode_records count body
unfolding decode_commands
decode_framed count body h = ground arith

framed_fits :
    (cs : List RefreshCommand) (extra : List ℕ)
    → min (length cs) 255 % 256 * 20
      ≤ length (encode_records (take (min (length cs) 255) cs) ++ extra)
framed_fits cs extra =
    let n = min (length cs) 255 in
    omega (
      arith,
      length-take n cs,
      length-encode_records (take n cs),
      length-append (encode_records (take n cs)) extra,
    )

-- Commands whose rectangles fit their field types decode to what was encoded, the first 255 of
-- them, whatever bytes follow the stream.
pub decode-encode_commands :
    (cs : List RefreshCommand) (extra : List ℕ)
    → All Encodable cs
    → decode_commands (encode_commands cs ++ extra) ≡ ok (take 255 cs)
unfolding encode_commands
decode-encode_commands cs extra v =
    decode_framed _ _ (framed_fits cs extra) ∙ decode_count cs extra v
