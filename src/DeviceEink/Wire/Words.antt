-- ===== src/DeviceEink/Wire/Words.antt =====
-- `to_le_bytes` and `from_le_bytes` of Rust's u32 and i32, as device-eink/src/wire.rs uses them.
use inkbridge.Prelude.{
  ℕ, ◌+◌, ◌-◌, ◌*◌, ◌/◌, ◌%◌, ◌^◌, ◌<◌, ◌≡◌, List, [], ◌∷◌, arith, ltb, replicate, if◌then◌else◌,
}
use inkbridge.Prelude.Int.{ℤ, pos, negsuc, ◌≤ℤ◌}

-- An i32 as its bit pattern, and back.
unfoldable pub to_u32 : ℤ → ℕ
to_u32 (pos n) = n % 2 ^ 32
to_u32 (negsuc n) = 2 ^ 32 - 1 - n % 2 ^ 32

unfoldable pub from_u32 : ℕ → ℤ
from_u32 v = if ltb v (2 ^ 31) then pos v else negsuc (2 ^ 32 - 1 - v)

unfoldable pub le_bytes : ℕ → List ℕ
le_bytes v = (v % 256) ∷ (v / 256 % 256) ∷ (v / 65536 % 256) ∷ (v / 16777216 % 256) ∷ []

unfoldable pub from_le_bytes : ℕ → ℕ → ℕ → ℕ → ℕ
from_le_bytes a b c d = a + b * 256 + c * 65536 + d * 16777216

-- The bytes that `[0u8; n]` leaves untouched.
abbrev pub zeros : ℕ → List ℕ
zeros n = replicate n 0

pub from_le_bytes-le_bytes :
    (v : ℕ)
    → v < 2 ^ 32
    → from_le_bytes (v % 256) (v / 256 % 256) (v / 65536 % 256) (v / 16777216 % 256) ≡ v
unfolding from_le_bytes
from_le_bytes-le_bytes v h = omega arith

pub to_u32-lt : (x : ℤ) → to_u32 x < 2 ^ 32
unfolding to_u32
to_u32-lt (pos n) = omega arith
to_u32-lt (negsuc n) = omega arith

pub from_u32-to_u32 :
    (x : ℤ) → negsuc (2 ^ 31 - 1) ≤ℤ x → x ≤ℤ pos (2 ^ 31 - 1) → from_u32 (to_u32 x) ≡ x
unfolding from_u32 to_u32
from_u32-to_u32 (pos n) lo hi = ground arith
from_u32-to_u32 (negsuc n) lo hi = ground arith
