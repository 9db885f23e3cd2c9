-- ===== src/Tests/Geometry.antt =====
-- The union of two rectangles.
use inkbridge.Prelude.{refl, arith}
use inkbridge.Prelude.Int.{pos, negsuc, ◌+ℤ◌, ◌-ℤ◌}
use inkbridge.DeviceEink.Geometry.{Rect, union, is_empty}
use inkbridge.DeviceEink.Geometry.Cover.{Covers, union-Covers, union_least}

abbrev left_box : Rect
left_box = record { x = negsuc 9; y = pos 0; w = 20; h = 10 }

abbrev right_box : Rect
right_box = record { x = pos 50; y = pos 5; w = 30; h = 40 }

abbrev both : Rect
both = record { x = negsuc 99; y = negsuc 0; w = 1000; h = 1000 }

union-Covers_example :
    Covers (union left_box right_box) left_box × Covers (union left_box right_box) right_box
unfolding is_empty ◌+ℤ◌ ◌-ℤ◌
union-Covers_example = union-Covers left_box right_box refl refl (omega arith) (omega arith)

union_least_example : Covers both (union left_box right_box)
unfolding is_empty ◌+ℤ◌ ◌-ℤ◌
union_least_example =
    union_least left_box right_box refl refl (omega arith) (omega arith) both
      (record { left = omega arith; right = omega arith; top = omega arith; bottom = omega arith })
      (record { left = omega arith; right = omega arith; top = omega arith; bottom = omega arith })
