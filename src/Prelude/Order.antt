-- ===== src/Prelude/Order.antt =====
-- The order of keys: what Rust asks of `Ord`, and that the order of texts has it.
use Prim.Native.Nat.{compare as compare_nat, Ordering}
use Prim.Native.Char.{Char, code}
use Prim.Native.String.{String, compare, then}
use mathlib.Core.Path.{◌≡◌, refl, ap, ◌∙◌}
use mathlib.Core.Bool.{Bool, true, false, ◌&&◌, ◌||◌}
use native.Mathlib.Omega.{arith}
use Prim.Native.String.compare
use inkbridge.Prelude.Tests.{ltb, eqb, Key, ◌==◌, string_key, text_lt}

pub record OrderLaws {ℓ} {A : Type ℓ} (e : Key A) : Type ℓ where
  pub irreflexive : (a : A) → e.lt a a ≡ false
  pub transitive : (a b c : A) → e.lt a b ≡ true → e.lt b c ≡ true → e.lt a c ≡ true
  pub total : (a b : A) → e.beq a b ≡ false → e.lt a b ≡ false → e.lt b a ≡ true

abbrev is_lt : Ordering → Bool
is_lt Ordering.lt = true
is_lt _ = false

abbrev eq_of : Ordering → Bool
eq_of Ordering.eq = true
eq_of _ = false

lt_then : (o p : Ordering) → is_lt (then o p) ≡ (is_lt o || (eq_of o && is_lt p))
lt_then Ordering.lt p = refl
lt_then Ordering.eq p = refl
lt_then Ordering.gt p = refl

eq_then : (o p : Ordering) → eq_of (then o p) ≡ (eq_of o && eq_of p)
eq_then Ordering.lt p = refl
eq_then Ordering.eq p = refl
eq_then Ordering.gt p = refl

nothing_below_empty : (s : String) → text_lt s "" ≡ false
nothing_below_empty String.[] = refl
nothing_below_empty (String.◌∷◌ c s) = ap is_lt (compare.cons-nil c s)

empty_below : (c : Char) (s : String) → text_lt "" (String.◌∷◌ c s) ≡ true
empty_below c s = ap is_lt (compare.nil-cons c s)

text_lt-cons :
    (c d : Char) (s t : String)
    → text_lt (String.◌∷◌ c s) (String.◌∷◌ d t)
      ≡ (ltb (code c) (code d) || (eqb (code c) (code d) && text_lt s t))
text_lt-cons c d s t =
    ap is_lt (compare.cons-cons c d s t) ∙ lt_then (compare_nat (code c) (code d)) (compare s t)

text_eq-cons :
    (c d : Char) (s t : String)
    → (String.◌∷◌ c s == String.◌∷◌ d t) ≡ (eqb (code c) (code d) && s == t)
text_eq-cons c d s t =
    ap eq_of (compare.cons-cons c d s t) ∙ eq_then (compare_nat (code c) (code d)) (compare s t)

text_irreflexive : (a : String) → text_lt a a ≡ false
text_irreflexive String.[] = refl
text_irreflexive (String.◌∷◌ c s) = ground (arith, text_lt-cons c c s s, text_irreflexive s)

text_transitive : (a b c : String) → text_lt a b ≡ true → text_lt b c ≡ true → text_lt a c ≡ true
text_transitive a b String.[] g h = absurd (ground (arith, nothing_below_empty b))
text_transitive a String.[] (String.◌∷◌ z c) g h = absurd (ground (arith, nothing_below_empty a))
text_transitive String.[] (String.◌∷◌ y b) (String.◌∷◌ z c) g h = empty_below z c
text_transitive (String.◌∷◌ x a) (String.◌∷◌ y b) (String.◌∷◌ z c) g h =
    ground (
      arith,
      text_lt-cons x y a b,
      text_lt-cons y z b c,
      text_lt-cons x z a c,
      text_transitive a b c,
    )

text_total : (a b : String) → (a == b) ≡ false → text_lt a b ≡ false → text_lt b a ≡ true
text_total String.[] String.[] g h = absurd (ground (arith, g))
text_total String.[] (String.◌∷◌ d t) g h = absurd (ground (arith, empty_below d t))
text_total (String.◌∷◌ c s) String.[] g h = empty_below c s
text_total (String.◌∷◌ c s) (String.◌∷◌ d t) g h =
    ground (arith, text_lt-cons c d s t, text_lt-cons d c t s, text_eq-cons c d s t, text_total s t)

pub text_order : OrderLaws string_key
text_order = record {
  irreflexive = text_irreflexive;
  transitive = text_transitive;
  total = text_total;
}
