-- ===== src/DeviceEink/Geometry.antt =====
-- device-eink/src/geometry.rs: rectangles with signed origins and unsigned extents. `x` and `y` are
-- the integers that an i32 stands for, `w` and `h` the values of a u32; the ranges are `InRange`.
pub mod Cover
use inkbridge.Prelude.{ℕ, ◌-◌, ◌%◌, ◌^◌, ◌<◌, Bool, ◌||◌, eqb, if◌then◌else◌}
use inkbridge.Prelude.Int.{ℤ, pos, negsuc, pos_part, ◌+ℤ◌, ◌-ℤ◌, ◌≤ℤ◌, min_ℤ, max_ℤ}

pub record Rect : Type 0 where
  pub x : ℤ
  pub y : ℤ
  pub w : ℕ
  pub h : ℕ

-- What the field types of the struct admit.
pub record InRange (r : Rect) : Type 0 where
  pub x_low : negsuc (2 ^ 31 - 1) ≤ℤ r.x
  pub x_high : r.x ≤ℤ pos (2 ^ 31 - 1)
  pub y_low : negsuc (2 ^ 31 - 1) ≤ℤ r.y
  pub y_high : r.y ≤ℤ pos (2 ^ 31 - 1)
  pub w_high : r.w < 2 ^ 32
  pub h_high : r.h < 2 ^ 32

unfoldable pub full : ℕ → ℕ → Rect
full width height = record { x = pos 0; y = pos 0; w = width; h = height }

unfoldable pub is_empty : Rect → Bool
is_empty r = eqb r.w 0 || eqb r.h 0

-- `(v).max(0) as u32` of an i64.
abbrev pub to_extent : ℤ → ℕ
to_extent v = pos_part (max_ℤ v (pos 0)) % 2 ^ 32

-- The i64 sums stay far below 2 ^ 63, so they are sums of integers.
unfoldable pub union : Rect → Rect → Rect
unfolding is_empty ◌+ℤ◌ ◌-ℤ◌
union a b =
    if is_empty a
    then b
    else if is_empty b
    then a
    else (let left = min_ℤ a.x b.x in
        let top = min_ℤ a.y b.y in
        let right = max_ℤ (a.x +ℤ pos a.w) (b.x +ℤ pos b.w) in
        let bottom = max_ℤ (a.y +ℤ pos a.h) (b.y +ℤ pos b.h) in
        record { x = left; y = top; w = to_extent (right -ℤ left); h = to_extent (bottom -ℤ top) })
