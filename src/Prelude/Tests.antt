-- ===== src/Prelude/Tests.antt =====
-- Boolean tests on the native numbers, the conditional, and comparable types: an instance of `Key`
-- stands for Rust's derived `PartialEq` and `Ord` of a key type.
use Prim.Native.Nat.{ℕ, ◌≤◌, ◌<◌, compare, Ordering}
use Prim.Native.String.{String, compare as compare_text}
use mathlib.Core.Path.{◌≡◌, refl}
use mathlib.Core.Logic.{◌↔◌, ◌⊎◌, inl, inr}
use mathlib.Core.Bool.{Bool, true, false, ◌&&◌, ◌||◌}
use mathlib.Core.Option.{Option, none, some}
use mathlib.Core.List.{List, [], ◌∷◌}
use native.Mathlib.Omega.{arith}
use text.Mathlib.Text.{◌==◌ as text_eq}
use text.Mathlib.TextEquality.{eq_iff}

abbrev pub ltb : ℕ → ℕ → Bool
ltb a b = elim (compare a b) [ Ordering.lt ↦ true | _ ↦ false ]

abbrev pub leb : ℕ → ℕ → Bool
leb a b = elim (compare a b) [ Ordering.gt ↦ false | _ ↦ true ]

abbrev pub eqb : ℕ → ℕ → Bool
eqb a b = elim (compare a b) [ Ordering.eq ↦ true | _ ↦ false ]

infix 1 if◌then◌else◌
abbrev pub if◌then◌else◌ {ℓ} : {A : Type ℓ} → Bool → A → A → A
if true then x else y = x
if false then x else y = y

pub ltb→lt : (a b : ℕ) → ltb a b ≡ true → a < b
ltb→lt a b h = ground arith

pub lt→ltb : (a b : ℕ) → a < b → ltb a b ≡ true
lt→ltb a b h = ground arith

pub leb→le : (a b : ℕ) → leb a b ≡ true → a ≤ b
leb→le a b h = ground arith

pub eqb_iff : (a b : ℕ) → (eqb a b ≡ true) ↔ (a ≡ b)
eqb_iff a b = ground arith

-- To split on a computed value and keep the equation.
abbrev pub Bool-cases : (b : Bool) → (b ≡ true) ⊎ (b ≡ false)
Bool-cases true = inl refl
Bool-cases false = inr refl

pub Option-cases {ℓ} : {A : Type ℓ} (o : Option A) → (o ≡ none) ⊎ ((a : A) × (o ≡ some a))
Option-cases none = inl refl
Option-cases (some a) = inr (a, refl)

abbrev pub is_some {ℓ} : {A : Type ℓ} → Option A → Bool
is_some none = false
is_some (some a) = true

pub record Key {ℓ} (A : Type ℓ) : Type ℓ where
  pub beq : A → A → Bool
  pub beq_iff : (a b : A) → (beq a b ≡ true) ↔ (a ≡ b)
  pub lt : A → A → Bool

infix 50 ◌==◌
abbrev pub ◌==◌ {ℓ} : {A : Type ℓ} ⦃e : Key A⦄ → A → A → Bool
◌==◌ ⦃e⦄ = e.beq

pub ==_iff {ℓ} : {A : Type ℓ} ⦃e : Key A⦄ (a b : A) → ((a == b) ≡ true) ↔ (a ≡ b)
==_iff ⦃e⦄ = e.beq_iff

instance abbrev pub nat_key : Key ℕ
nat_key = record { beq = eqb; beq_iff = eqb_iff; lt = ltb }

abbrev pub text_lt : String → String → Bool
text_lt a b = elim (compare_text a b) [ Ordering.lt ↦ true | _ ↦ false ]

instance abbrev pub string_key : Key String
string_key = record { beq = text_eq; beq_iff = eq_iff; lt = text_lt }

pub pair_iff {ℓ} :
    {A B : Type ℓ} ⦃e : Key A⦄ ⦃f : Key B⦄ (p q : A × B)
    → ((e.beq p.0 q.0 && f.beq p.1 q.1) ≡ true) ↔ (p ≡ q)
pair_iff ⦃e⦄ ⦃f⦄ (a, b) (c, d) = ground (arith, e.beq_iff a c, f.beq_iff b d)

-- Pairs compare lexicographically.
instance abbrev pub pair_key {ℓ} : {A B : Type ℓ} ⦃e : Key A⦄ ⦃f : Key B⦄ → Key (A × B)
pair_key ⦃e⦄ ⦃f⦄ = record {
  beq = λ p q. e.beq p.0 q.0 && f.beq p.1 q.1;
  beq_iff = pair_iff;
  lt = λ p q. e.lt p.0 q.0 || (e.beq p.0 q.0 && f.lt p.1 q.1);
}

abbrev pub list_eq {ℓ} : {A : Type ℓ} ⦃e : Key A⦄ → List A → List A → Bool
list_eq [] [] = true
list_eq ⦃e⦄ (x ∷ xs) (y ∷ ys) = e.beq x y && list_eq xs ys
list_eq _ _ = false

pub list_iff {ℓ} : {A : Type ℓ} ⦃e : Key A⦄ (xs ys : List A) → (list_eq xs ys ≡ true) ↔ (xs ≡ ys)
list_iff [] [] = ground arith
list_iff [] (y ∷ ys) = ground arith
list_iff (x ∷ xs) [] = ground arith
list_iff ⦃e⦄ (x ∷ xs) (y ∷ ys) = ground (arith, e.beq_iff x y, list_iff xs ys)

-- Of the order on lists nothing is used.
instance abbrev pub list_key {ℓ} : {A : Type ℓ} ⦃e : Key A⦄ → Key (List A)
list_key ⦃e⦄ = record { beq = list_eq; beq_iff = list_iff; lt = λ a b. false }
