-- ===== src/Prelude/Map.antt =====
-- Rust's `BTreeMap`: an association list in key order. `HashMap` is modelled by it too, where the
-- code does not depend on the order of iteration.
use mathlib.Core.Path.{◌≡◌, refl}
use mathlib.Core.List.{List, [], ◌∷◌}
use mathlib.Core.Option.{Option, none, some}
use native.Mathlib.Omega.{arith}
use inkbridge.Prelude.Tests.{Key, ◌==◌, if◌then◌else◌}

module _ {ℓ} {K V : Type ℓ} ⦃e : Key K⦄ where
  unfoldable pub lookup : K → List (K × V) → Option V
  lookup wanted [] = none
  lookup wanted ((key, value) ∷ others) = if key == wanted then some value else lookup wanted others

  unfoldable pub insert : K → V → List (K × V) → List (K × V)
  insert new value [] = (new, value) ∷ []
  insert new value ((key, old) ∷ others) =
      if key == new
      then (new, value) ∷ others
      else if e.lt new key
      then (new, value) ∷ (key, old) ∷ others
      else (key, old) ∷ insert new value others

  unfoldable pub remove : K → List (K × V) → List (K × V)
  remove k [] = []
  remove k ((j, v) ∷ m) = if j == k then remove k m else (j, v) ∷ remove k m

  pub lookup-insert :
      (new wanted : K) (value : V) (entries : List (K × V))
      → lookup wanted (insert new value entries)
        ≡ (if new == wanted then some value else lookup wanted entries)
  unfolding lookup insert
  lookup-insert new wanted value [] = refl
  lookup-insert new wanted value ((key, old) ∷ others) = ground (
    arith,
    lookup-insert new wanted value others,
    e.beq_iff new wanted,
    e.beq_iff key wanted,
    e.beq_iff key new,
  )

  pub lookup-insert_self : (k : K) (v : V) (m : List (K × V)) → lookup k (insert k v m) ≡ some v
  lookup-insert_self k v m = ground (arith, lookup-insert k k v m, e.beq_iff k k)

  pub lookup-remove :
      (k j : K) (m : List (K × V)) → lookup j (remove k m) ≡ (if k == j then none else lookup j m)
  unfolding lookup remove
  lookup-remove k j [] = ground arith
  lookup-remove k j ((i, w) ∷ m) =
      ground (arith, e.beq_iff k j, e.beq_iff i k, e.beq_iff i j, lookup-remove k j m)
