-- ===== src/DeviceEink/Wire/CapsRoundTrip.antt =====
-- The capabilities codec of device-eink/src/wire.rs reads back what it wrote, also from a shell that
-- knows fewer or more flags.
use inkbridge.Prelude.{
  ℕ, zero, suc, ◌≤◌, ◌≡◌, refl, ap, ◌∙◌, Bool, true, false, not, List, [], ◌∷◌, ◌++◌, map, arith,
  length, take, length-append, length-map, eqb, ltb, get_or, if◌then◌else◌,
}
use inkbridge.DeviceEink.Capabilities.{DeviceCapabilities, flag_count, flags, from_flags}
use inkbridge.Prelude.Fallible.{ok}
use inkbridge.DeviceEink.Wire.{bit, wire_version, encode_capabilities, decode_capabilities}

abbrev pub flag_of_byte : ℕ → Bool
flag_of_byte b = not (eqb b 0)

pub flag_of_byte-bit : (b : Bool) → flag_of_byte (bit b) ≡ b
flag_of_byte-bit true = refl
flag_of_byte-bit false = refl

read_flags :
    (fs : List Bool) (extra : List ℕ)
    → map flag_of_byte (take (length fs) (map bit fs ++ extra)) ≡ fs
read_flags [] extra = refl
read_flags (f ∷ fs) extra = rw (flag_of_byte-bit f, read_flags fs extra)

-- A message of the current version that announces n flags and carries them, each as 0 or 1, decodes
-- to the capabilities built from those flags, whatever bytes follow.
pub decode_capabilities-message :
    (fs : List Bool) (extra : List ℕ)
    → decode_capabilities (wire_version ∷ length fs ∷ (map bit fs ++ extra)) ≡ ok (from_flags fs)
unfolding decode_capabilities
decode_capabilities-message fs extra =
    ground (arith, read_flags fs extra, length-append (map bit fs) extra, length-map fs bit)

from_flags-flags : (c : DeviceCapabilities) → from_flags (flags c) ≡ c
unfolding from_flags flags
from_flags-flags c = refl

-- What `encode_capabilities` writes decodes to the same capabilities, whatever bytes follow.
pub decode-encode_capabilities :
    (c : DeviceCapabilities) (extra : List ℕ)
    → decode_capabilities (encode_capabilities c ++ extra) ≡ ok c
unfolding encode_capabilities
decode-encode_capabilities c extra =
    decode_capabilities-message (unfold flags in flags c) extra ∙ ap ok (from_flags-flags c)

decoded_parts :
    (version nflags : ℕ) (rest : List ℕ) (c : DeviceCapabilities)
    → decode_capabilities (version ∷ nflags ∷ rest) ≡ ok c
    → (version ≡ wire_version)
      × (nflags ≤ length rest)
      × (c ≡ from_flags (map flag_of_byte (take nflags rest)))
unfolding decode_capabilities
decoded_parts version nflags rest c h = ground arith

from_flags-get :
    (fs : List Bool) (i : ℕ)
    → ltb i flag_count ≡ true
    → get_or (flags (from_flags fs)) i false ≡ get_or fs i false
unfolding flags from_flags
from_flags-get fs zero h = refl
from_flags-get fs (suc zero) h = refl
from_flags-get fs (suc (suc zero)) h = refl
from_flags-get fs (suc (suc (suc zero))) h = refl
from_flags-get fs (suc (suc (suc (suc zero)))) h = refl
from_flags-get fs (suc (suc (suc (suc (suc zero))))) h = refl
from_flags-get fs (suc (suc (suc (suc (suc (suc zero)))))) h = refl
from_flags-get fs (suc (suc (suc (suc (suc (suc (suc zero))))))) h = refl
from_flags-get fs (suc (suc (suc (suc (suc (suc (suc (suc zero)))))))) h = refl
from_flags-get fs (suc (suc (suc (suc (suc (suc (suc (suc (suc zero))))))))) h = refl
from_flags-get fs (suc (suc (suc (suc (suc (suc (suc (suc (suc (suc zero)))))))))) h = refl
from_flags-get fs (suc (suc (suc (suc (suc (suc (suc (suc (suc (suc (suc zero))))))))))) h = refl
from_flags-get fs (suc (suc (suc (suc (suc (suc (suc (suc (suc (suc (suc (suc i)))))))))))) h =
    absurd (ground arith)

get_announced :
    (n : ℕ) (rest : List ℕ) (i : ℕ)
    → get_or (map flag_of_byte (take n rest)) i false
      ≡ (if ltb i n then flag_of_byte (get_or rest i 0) else false)
get_announced zero rest i = ground arith
get_announced (suc n) [] i = ground arith
get_announced (suc n) (b ∷ rest) zero = ground arith
get_announced (suc n) (b ∷ rest) (suc i) = get_announced n rest i ∙ ground arith

-- A successful decoding is of a message of the current version that is long enough for the flags it
-- announces. The i-th flag of the result, in the order in which the encoder writes them, is whether the
-- i-th byte after the header is not 0, and false if the message does not announce it.
pub decode_capabilities-ok :
    (version nflags : ℕ) (rest : List ℕ) (c : DeviceCapabilities) (i : ℕ)
    → decode_capabilities (version ∷ nflags ∷ rest) ≡ ok c
    → ltb i flag_count ≡ true
    → (version ≡ wire_version)
      × (nflags ≤ length rest)
      × (get_or (flags c) i false ≡ (if ltb i nflags then not (eqb (get_or rest i 0) 0) else false))
decode_capabilities-ok version nflags rest c i h known =
    let (current, enough, made) = decoded_parts version nflags rest c h in
    (
      current,
      enough,
      ap (λ d. get_or (flags d) i false) made
          ∙ from_flags-get (map flag_of_byte (take nflags rest)) i known
          ∙ get_announced nflags rest i,
    )
