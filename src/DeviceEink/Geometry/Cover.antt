-- ===== src/DeviceEink/Geometry/Cover.antt =====
-- `Rect::union` of device-eink/src/geometry.rs is the smallest rectangle that covers both.
use inkbridge.Prelude.{refl, ℕ, ◌^◌, ◌≡◌, false, arith}
use inkbridge.Prelude.Int.{
  ℤ, pos, negsuc, pos_part, neg_part, ◌+ℤ◌, ◌-ℤ◌, ◌≤ℤ◌, ◌<ℤ◌, min_ℤ, max_ℤ, +ℤ_parts, -ℤ_parts,
  eq_of_parts,
}
use inkbridge.DeviceEink.Geometry.{Rect, to_extent, union, is_empty}

pub record Covers (r s : Rect) : Type 0 where
  pub left : r.x ≤ℤ s.x
  pub right : s.x +ℤ pos s.w ≤ℤ r.x +ℤ pos r.w
  pub top : r.y ≤ℤ s.y
  pub bottom : s.y +ℤ pos s.h ≤ℤ r.y +ℤ pos r.h

-- One axis: from the smaller start to the larger end.
abbrev pub span : ℤ → ℕ → ℤ → ℕ → ℤ
span x w x' w' = max_ℤ (x +ℤ pos w) (x' +ℤ pos w') -ℤ min_ℤ x x'

neg_of_nonneg : (d : ℤ) → pos 0 ≤ℤ d → neg_part d ≡ 0
neg_of_nonneg (pos n) h = refl
neg_of_nonneg (negsuc n) h = omega arith

extent_of_nonneg : (d : ℤ) → pos 0 ≤ℤ d → d <ℤ pos (2 ^ 32) → to_extent d ≡ pos_part d
extent_of_nonneg (pos n) h b = ground arith
extent_of_nonneg (negsuc n) h b = omega arith

nonneg_difference : (l r : ℤ) → l ≤ℤ r → pos 0 ≤ℤ (r -ℤ l)
nonneg_difference l r h = omega (arith, -ℤ_parts r l)

extent_end : (l r : ℤ) → l ≤ℤ r → (r -ℤ l) <ℤ pos (2 ^ 32) → l +ℤ pos (to_extent (r -ℤ l)) ≡ r
extent_end l r h b =
    let d = nonneg_difference l r h in
    rw (extent_of_nonneg (r -ℤ l) d b) (
      eq_of_parts (l +ℤ pos (pos_part (r -ℤ l))) r (
        omega
          (arith, +ℤ_parts l (pos (pos_part (r -ℤ l))), -ℤ_parts r l, neg_of_nonneg (r -ℤ l) d)))

min_le : (a b : ℤ) → (min_ℤ a b ≤ℤ a) × (min_ℤ a b ≤ℤ b)
min_le a b = (ground arith, ground arith)

le_max : (a b : ℤ) → (a ≤ℤ max_ℤ a b) × (b ≤ℤ max_ℤ a b)
le_max a b = (ground arith, ground arith)

le_trans : (a b c : ℤ) → a ≤ℤ b → b ≤ℤ c → a ≤ℤ c
le_trans a b c h k = omega arith

le_plus : (a : ℤ) (n : ℕ) → a ≤ℤ (a +ℤ pos n)
le_plus a n = omega (arith, +ℤ_parts a (pos n))

span_end :
    (x x' : ℤ) (w w' : ℕ)
    → span x w x' w' <ℤ pos (2 ^ 32)
    → min_ℤ x x' +ℤ pos (to_extent (span x w x' w')) ≡ max_ℤ (x +ℤ pos w) (x' +ℤ pos w')
span_end x x' w w' b =
    extent_end (min_ℤ x x') (max_ℤ (x +ℤ pos w) (x' +ℤ pos w'))
      (le_trans (min_ℤ x x') x _ ((min_le x x').0)
        (le_trans x (x +ℤ pos w) _ (le_plus x w) ((le_max (x +ℤ pos w) (x' +ℤ pos w')).0)))
      b

-- The union of two rectangles that are not empty, whose common width and height fit a u32, is the
-- rectangle of their least origin that ends at their largest ends.
union_box :
    (a b : Rect)
    → is_empty a ≡ false
    → is_empty b ≡ false
    → union a b ≡ record {
      x = min_ℤ a.x b.x;
      y = min_ℤ a.y b.y;
      w = to_extent (span a.x a.w b.x b.w);
      h = to_extent (span a.y a.h b.y b.h);
    }
unfolding union
union_box a b ea eb = rw (ea, eb) refl

module _ (a b : Rect) (ea : is_empty a ≡ false) (eb : is_empty b ≡ false)
    (wide : span a.x a.w b.x b.w <ℤ pos (2 ^ 32))
    (high : span a.y a.h b.y b.h <ℤ pos (2 ^ 32)) where
  -- The union of two rectangles that are not empty, and whose common width and height are less than
  -- 2 ^ 32, covers both.
  pub union-Covers : Covers (union a b) a × Covers (union a b) b
  union-Covers =
      let ends_x = le_max (a.x +ℤ pos a.w) (b.x +ℤ pos b.w) in
      let ends_y = le_max (a.y +ℤ pos a.h) (b.y +ℤ pos b.h) in
      rw (union_box a b ea eb) (
        record {
          left = (min_le a.x b.x).0;
          right = rw (span_end a.x b.x a.w b.w wide) ends_x.0;
          top = (min_le a.y b.y).0;
          bottom = rw (span_end a.y b.y a.h b.h high) ends_y.0;
        },
        record {
          left = (min_le a.x b.x).1;
          right = rw (span_end a.x b.x a.w b.w wide) ends_x.1;
          top = (min_le a.y b.y).1;
          bottom = rw (span_end a.y b.y a.h b.h high) ends_y.1;
        },
      )

  -- Every rectangle that covers two rectangles covers their union, if neither is empty and their
  -- common width and height are less than 2 ^ 32.
  pub union_least : (r : Rect) → Covers r a → Covers r b → Covers r (union a b)
  union_least r ra rb = rw (union_box a b ea eb) (record {
    left = ground (arith, ra.left, rb.left);
    right = rw (span_end a.x b.x a.w b.w wide) (ground (arith, ra.right, rb.right));
    top = ground (arith, ra.top, rb.top);
    bottom = rw (span_end a.y b.y a.h b.h high) (ground (arith, ra.bottom, rb.bottom));
  })
