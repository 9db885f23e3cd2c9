-- ===== src/Prelude/Set.antt =====
-- Rust's `BTreeSet`: a list in key order.
use mathlib.Core.Path.{◌≡◌, refl}
use mathlib.Core.Bool.{Bool, true, false, ◌||◌}
use mathlib.Core.List.{List, [], ◌∷◌}
use native.Mathlib.Omega.{arith}
use inkbridge.Prelude.Tests.{Key, ◌==◌, if◌then◌else◌}

module _ {ℓ} {K : Type ℓ} ⦃e : Key K⦄ where
  unfoldable pub contains : K → List K → Bool
  contains k [] = false
  contains k (j ∷ s) = j == k || contains k s

  unfoldable pub insert : K → List K → List K
  insert k [] = k ∷ []
  insert k (j ∷ s) = if j == k then j ∷ s else if e.lt k j then k ∷ j ∷ s else j ∷ insert k s

  unfoldable pub from_list : List K → List K
  from_list [] = []
  from_list (k ∷ ks) = insert k (from_list ks)

  pub contains-insert : (k j : K) (s : List K) → contains j (insert k s) ≡ (k == j || contains j s)
  unfolding contains insert
  contains-insert k j [] = refl
  contains-insert k j (i ∷ s) =
      ground (arith, e.beq_iff k j, e.beq_iff i k, e.beq_iff i j, contains-insert k j s)

  pub contains-from_list : (j : K) (ks : List K) → contains j (from_list ks) ≡ contains j ks
  unfolding from_list contains
  contains-from_list j [] = refl
  contains-from_list j (k ∷ ks) =
      ground (arith, contains-insert k j (from_list ks), contains-from_list j ks)

  pub contains-insert_self : (k : K) (s : List K) → contains k (insert k s) ≡ true
  contains-insert_self k s = ground (arith, contains-insert k k s, e.beq_iff k k)
