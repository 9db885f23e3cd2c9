-- ===== src/Broker/Validate/Snapshots.antt =====
-- The checks of `validate_boox_manifest` on one operation, and the pen colours that it persists.
use inkbridge.Prelude.{
  ℕ, ◌≤◌, ◌<◌, ◌≡◌, refl, ap, ◌∙◌, Bool, true, false, not, ◌||◌, ◌&&◌, any, map, Option, none, some,
  String, List, [], ◌∷◌, arith, All, length, leb, ltb, eqb, eqb_iff, Bool-cases, inl, inr, ==_iff,
  ◌==◌, string_key, if◌then◌else◌,
}
use inkbridge.Prelude.Int.{ℤ, pos, negsuc}
use inkbridge.Prelude.Text.{is_blank}
use inkbridge.Broker.Model.{
  NativeStyle, Sample, StrokeSnapshot, Operation, upsert_stroke, delete_stroke,
}
use inkbridge.Broker.External.{External}
use inkbridge.Broker.Validate.{
  in_native_range, bad_sample, normal_color, bad_snapshot, bad_operation,
  normalize_supernote_pen_color, normalize_operation, valid_supernote_native_style,
}
use inkbridge.Broker.Validate.Float.{is_finite, in_unit, in_pressure_range, int_eq}

or_false : (a b : Bool) → (a || b) ≡ false → (a ≡ false) × (b ≡ false)
or_false a b h = ground arith

and_true : (a b : Bool) → (a && b) ≡ true → (a ≡ true) × (b ≡ true)
and_true a b h = ground arith

unnegated : (b : Bool) → not b ≡ false → b ≡ true
unnegated b h = ground arith

equal_of : (a b : ℕ) → not (eqb a b) ≡ false → a ≡ b
equal_of a b h = ground arith

less_of : (a b : ℕ) → leb a b ≡ false → b < a
less_of a b h = ground arith

two_of : (n : ℕ) → ltb n 2 ≡ false → 2 ≤ n
two_of n h = ground arith

int_same : (a b : ℤ) → int_eq a b ≡ true → a ≡ b
int_same (pos m) (pos n) h = ap pos ((eqb_iff m n).0 h)
int_same (negsuc m) (negsuc n) h = ap negsuc ((eqb_iff m n).0 h)
int_same (pos m) (negsuc n) h = cc
int_same (negsuc m) (pos n) h = cc

-- A sample is finite and in the page, its pressure in the range of the pen.
pub record GoodSample (s : Sample) : Type 0 where
  pub finite : (is_finite s.x ≡ true) × (is_finite s.y ≡ true) × (is_finite s.pressure ≡ true)
  pub inside : (in_unit s.x ≡ true) × (in_unit s.y ≡ true)
  pub pressed : in_pressure_range s.pressure ≡ true

bad_sample-GoodSample : (s : Sample) → bad_sample s ≡ false → GoodSample s
bad_sample-GoodSample s h =
    let (a, h₁) = or_false (not (is_finite s.x)) _ h in
    let (b, h₂) = or_false (not (is_finite s.y)) _ h₁ in
    let (c, h₃) = or_false (not (is_finite s.pressure)) _ h₂ in
    let (d, h₄) = or_false (not (in_unit s.x)) _ h₃ in
    let (e, f) = or_false (not (in_unit s.y)) _ h₄ in
    record {
      finite = (
        unnegated (is_finite s.x) a,
        unnegated (is_finite s.y) b,
        unnegated (is_finite s.pressure) c,
      );
      inside = (unnegated (in_unit s.x) d, unnegated (in_unit s.y) e);
      pressed = unnegated (in_pressure_range s.pressure) f;
    }

every_sample : (ss : List Sample) → any bad_sample ss ≡ false → All GoodSample ss
every_sample [] h = tt
every_sample (s ∷ ss) h =
    let (first, others) = or_false (bad_sample s) (any bad_sample ss) h in
    (bad_sample-GoodSample s first, every_sample ss others)

module _ (ext : External) where
  -- The style that a Supernote persists: black stays black, every other pen is grey. The fingerprint is
  -- that of the style.
  abbrev pub persisted : StrokeSnapshot → StrokeSnapshot
  persisted s =
      let style : NativeStyle = record s.native_style {
        pen_color = if int_eq s.native_style.pen_color (pos 0) then pos 0 else pos 0x9d;
      } in
      record s {
        native_style = style;
        geometry_fingerprint = ext.geometry_fingerprint style s.samples;
      }

  abbrev pub persisted_before : Option StrokeSnapshot → Option StrokeSnapshot
  persisted_before none = none
  persisted_before (some s) = some (persisted s)

  abbrev pub persisted_operation : Operation → Operation
  persisted_operation (upsert_stroke uuid page before after) =
      upsert_stroke uuid page (persisted_before before) (persisted after)
  persisted_operation (delete_stroke uuid page before) = delete_stroke uuid page (persisted before)

module _ (ext : External) (page_count : ℕ) where
  -- The snapshot of an operation on the stroke and the page.
  pub record GoodSnapshot (uuid : String) (page : ℕ) (s : StrokeSnapshot) : Type 0 where
    pub named : is_blank uuid ≡ false
    pub stroke : uuid ≡ s.source_uuid
    pub on_page : page ≡ s.page_index
    pub in_document : page < page_count
    pub enough : 2 ≤ length s.samples
    pub layer : in_native_range 0 s.native_style.layer_num ≡ true
    pub thickness : in_native_range 1 s.native_style.thickness ≡ true
    pub pen_type : in_native_range 0 s.native_style.pen_type ≡ true
    pub samples : All GoodSample s.samples
    pub fingerprint : s.geometry_fingerprint ≡ ext.geometry_fingerprint s.native_style s.samples

  bad_snapshot-GoodSnapshot :
      (uuid : String) (page : ℕ) (s : StrokeSnapshot)
      → bad_snapshot ext page_count uuid page s ≡ false
      → GoodSnapshot uuid page s
  unfolding bad_snapshot valid_supernote_native_style
  bad_snapshot-GoodSnapshot uuid page s h =
      let style = s.native_style in
      let (a, h₁) = or_false (is_blank uuid) _ h in
      let (b, h₂) = or_false (not (uuid == s.source_uuid)) _ h₁ in
      let (c, h₃) = or_false (not (eqb page s.page_index)) _ h₂ in
      let (d, h₄) = or_false (leb page_count page) _ h₃ in
      let (e, h₅) = or_false (ltb (length s.samples) 2) _ h₄ in
      let (f, h₆) = or_false (not (valid_supernote_native_style style)) _ h₅ in
      let (g, k) = or_false (any bad_sample s.samples) _ h₆ in
      let (layer, rest) =
        and_true (in_native_range 0 style.layer_num) _
          (unnegated (valid_supernote_native_style style) f) in
      let (thickness, pen_type) = and_true (in_native_range 1 style.thickness) _ rest in
      record {
        named = a;
        stroke = (==_iff uuid s.source_uuid).0 (unnegated (uuid == s.source_uuid) b);
        on_page = equal_of page s.page_index c;
        in_document = less_of page_count page d;
        enough = two_of (length s.samples) e;
        layer = layer;
        thickness = thickness;
        pen_type = pen_type;
        samples = every_sample s.samples g;
        fingerprint =
            (==_iff s.geometry_fingerprint (ext.geometry_fingerprint style s.samples)).0
              (unnegated (s.geometry_fingerprint == ext.geometry_fingerprint style s.samples) k);
      }

  abbrev pub GoodOperation : Operation → Type 0
  GoodOperation (upsert_stroke uuid page none after) = GoodSnapshot uuid page after
  GoodOperation (upsert_stroke uuid page (some before) after) =
      GoodSnapshot uuid page before × GoodSnapshot uuid page after
  GoodOperation (delete_stroke uuid page before) = GoodSnapshot uuid page before

  bad_operation-GoodOperation :
      (op : Operation) → bad_operation ext page_count op ≡ false → GoodOperation op
  unfolding bad_operation
  bad_operation-GoodOperation (upsert_stroke uuid page none after) h =
      bad_snapshot-GoodSnapshot uuid page after h
  bad_operation-GoodOperation (upsert_stroke uuid page (some before) after) h =
      let (b, a) =
        or_false (bad_snapshot ext page_count uuid page before)
          (bad_snapshot ext page_count uuid page after) h in
      (bad_snapshot-GoodSnapshot uuid page before b, bad_snapshot-GoodSnapshot uuid page after a)
  bad_operation-GoodOperation (delete_stroke uuid page before) h =
      bad_snapshot-GoodSnapshot uuid page before h

  pub every_operation :
      (ops : List Operation)
      → any (bad_operation ext page_count) ops ≡ false
      → All GoodOperation ops
  every_operation [] h = tt
  every_operation (op ∷ ops) h =
      let (first, others) =
        or_false (bad_operation ext page_count op) (any (bad_operation ext page_count) ops) h in
      (bad_operation-GoodOperation op first, every_operation ops others)

  normalize-persisted :
      (uuid : String) (page : ℕ) (s : StrokeSnapshot)
      → GoodSnapshot uuid page s
      → normalize_supernote_pen_color ext s ≡ persisted ext s
  unfolding normalize_supernote_pen_color
  normalize-persisted uuid page s good =
      elim (Bool-cases (int_eq s.native_style.pen_color (normal_color s.native_style.pen_color))) [
        | inr changed ↦ rw (normalize_supernote_pen_color, changed) refl
        | inl same ↦
            let color =
              int_same s.native_style.pen_color (normal_color s.native_style.pen_color) same in
            let style : NativeStyle = record s.native_style {
              pen_color = normal_color s.native_style.pen_color;
            } in
            let style_same : s.native_style ≡ style =
              ap (λ c. record s.native_style { pen_color = c }) color in
            rw (normalize_supernote_pen_color, same)
              (λ i. record s {
                native_style = style_same i;
                geometry_fingerprint =
                    (good.fingerprint ∙ ap (λ st. ext.geometry_fingerprint st s.samples) style_same)
                      i;
              })
      ]

  normalize_operation-persisted :
      (op : Operation) → GoodOperation op → normalize_operation ext op ≡ persisted_operation ext op
  unfolding normalize_operation
  normalize_operation-persisted (upsert_stroke uuid page none after) good =
      ap (upsert_stroke uuid page none) (normalize-persisted uuid page after good)
  normalize_operation-persisted (upsert_stroke uuid page (some before) after) (good, ready) = λ i.
      upsert_stroke uuid page (some (normalize-persisted uuid page before good i))
        (normalize-persisted uuid page after ready i)
  normalize_operation-persisted (delete_stroke uuid page before) good =
      ap (delete_stroke uuid page) (normalize-persisted uuid page before good)

  pub normalized-persisted :
      (ops : List Operation)
      → All GoodOperation ops
      → map (normalize_operation ext) ops ≡ map (persisted_operation ext) ops
  normalized-persisted [] good = refl
  normalized-persisted (op ∷ ops) (good, others) =
      λ i. normalize_operation-persisted op good i ∷ normalized-persisted ops others i
