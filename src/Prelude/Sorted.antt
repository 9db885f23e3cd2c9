-- ===== src/Prelude/Sorted.antt =====
-- The lists that stand for Rust's `BTreeMap` are in key order, each key once.
use mathlib.Core.Path.{◌≡◌, refl, subst}
use mathlib.Core.Bool.{true}
use mathlib.Core.List.{List, [], ◌∷◌}
use mathlib.Core.Option.{none}
use mathlib.Core.Logic.{inl, inr}
use native.Mathlib.Omega.{arith}
use inkbridge.Prelude.Tests.{Key, ◌==◌, Bool-cases}
use inkbridge.Prelude.Lists.{All}
use inkbridge.Prelude.Map.{lookup, insert}
use inkbridge.Prelude.Order.{OrderLaws}

module _ {ℓ} {K V : Type ℓ} ⦃e : Key K⦄ where
  abbrev pub Above : K → List (K × V) → Type 0
  Above k m = All (λ entry. e.lt k entry.0 ≡ true) m

  abbrev pub Sorted : List (K × V) → Type 0
  Sorted [] = Unit
  Sorted ((k, v) ∷ m) = Above k m × Sorted m

  module _ (laws : OrderLaws e) where
    pub lookup-Above : (k : K) (m : List (K × V)) → Above k m → lookup k m ≡ none
    unfolding lookup
    lookup-Above k [] h = refl
    lookup-Above k ((j, v) ∷ m) (below, rest) =
        ground (arith, laws.irreflexive k, e.beq_iff j k, lookup-Above k m rest)

    insert-Above :
        (k new : K) (v : V) (m : List (K × V))
        → e.lt k new ≡ true
        → Above k m
        → Above k (insert new v m)
    unfolding insert
    insert-Above k new v [] h above = (h, tt)
    insert-Above k new v ((j, w) ∷ m) h (below, rest) = elim (Bool-cases (j == new)) [
      | inl same ↦ rw same (h, rest)
      | inr differs ↦ rw differs (elim (Bool-cases (e.lt new j)) [
        | inl before ↦ rw before (h, (below, rest))
        | inr after ↦ rw after (below, insert-Above k new v m h rest)
      ])
    ]

    widen : (j k : K) (m : List (K × V)) → e.lt j k ≡ true → Above k m → Above j m
    widen j k [] h above = tt
    widen j k ((i, v) ∷ m) h (below, rest) = (laws.transitive j k i h below, widen j k m h rest)

    -- An insertion keeps the keys in order.
    pub insert-Sorted : (new : K) (v : V) (m : List (K × V)) → Sorted m → Sorted (insert new v m)
    unfolding insert
    insert-Sorted new v [] h = (tt, tt)
    insert-Sorted new v ((k, w) ∷ m) (above, sorted) = elim (Bool-cases (k == new)) [
      | inl same ↦ rw same (subst (λ j. Above j m) ((e.beq_iff k new).0 same) above, sorted)
      | inr differs ↦ rw differs (elim (Bool-cases (e.lt new k)) [
        | inl before ↦ rw before ((before, widen new k m before above), (above, sorted))
        | inr after ↦ rw after (
          insert-Above k new v m
              (laws.total new k (ground (arith, differs, e.beq_iff k new, e.beq_iff new k)) after)
              above,
          insert-Sorted new v m sorted,
        )
      ])
    ]
