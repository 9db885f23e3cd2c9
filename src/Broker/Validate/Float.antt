-- ===== src/Broker/Validate/Float.antt =====
-- What inkbridge-broker/src/broker.rs asks of floats, on their 64 bits: finiteness, ranges, and the
-- derived equality of snapshots, under which a NaN is no snapshot's equal and the zeros are one.
use inkbridge.Prelude.{
  ◌*◌, ◌/◌, ◌%◌, ◌^◌, Bool, true, false, not, ◌&&◌, ◌||◌, List, [], ◌∷◌, leb, ltb, eqb, ◌==◌,
  string_key,
}
use inkbridge.Prelude.Int.{ℤ, pos, negsuc}
use inkbridge.Broker.Model.{F64, NativeStyle, Sample, StrokeSnapshot}

abbrev pub is_finite : F64 → Bool
is_finite b = not (eqb (b / 2 ^ 52 % 2048) 2047)

abbrev pub is_nan : F64 → Bool
is_nan b = ltb (2047 * 2 ^ 52) (b % 2 ^ 63)

-- `(0.0..=hi).contains(x)` for the bits of a positive `hi`: the positive floats are ordered as
-- their bits are, and -0.0 is in the range.
abbrev pub in_range_to : F64 → F64 → Bool
in_range_to hi b = leb b hi || eqb b (2 ^ 63)

-- 1.0
abbrev pub in_unit : F64 → Bool
in_unit = in_range_to 0x3ff0000000000000

-- 4096.0
abbrev pub in_pressure_range : F64 → Bool
in_pressure_range = in_range_to 0x40b0000000000000

abbrev pub f64_eq : F64 → F64 → Bool
f64_eq a b =
    not (is_nan a) && (not (is_nan b) && (eqb a b || (eqb (a % 2 ^ 63) 0 && eqb (b % 2 ^ 63) 0)))

abbrev pub int_eq : ℤ → ℤ → Bool
int_eq (pos m) (pos n) = eqb m n
int_eq (negsuc m) (negsuc n) = eqb m n
int_eq _ _ = false

abbrev pub style_eq : NativeStyle → NativeStyle → Bool
style_eq a b =
    int_eq a.layer_num b.layer_num
    && (int_eq a.thickness b.thickness
        && (int_eq a.pen_color b.pen_color && int_eq a.pen_type b.pen_type))

abbrev pub samples_eq : List Sample → List Sample → Bool
samples_eq [] [] = true
samples_eq (s ∷ ss) (t ∷ ts) =
    f64_eq s.x t.x && (f64_eq s.y t.y && (f64_eq s.pressure t.pressure && samples_eq ss ts))
samples_eq _ _ = false

unfoldable pub snapshot_eq : StrokeSnapshot → StrokeSnapshot → Bool
snapshot_eq a b =
    a.source_uuid == b.source_uuid
    && (a.origin == b.origin
        && (eqb a.page_index b.page_index
            && (style_eq a.native_style b.native_style
                && (samples_eq a.samples b.samples
                    && a.geometry_fingerprint == b.geometry_fingerprint))))
