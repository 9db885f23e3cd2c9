-- ===== src/Cache/Accounts.antt =====
-- The bytes of the entries of a cache, whose keys are distinct.
use inkbridge.Prelude.{
  ℕ, ◌+◌, ◌≡◌, ◌≤◌, refl, Option, none, some, List, [], ◌∷◌, arith, length, Bool-cases, inl, inr,
  Key, if◌then◌else◌, ◌==◌, leb,
}
use inkbridge.Prelude.{Option-cases, is_some}
use inkbridge.Prelude.Map
use inkbridge.Prelude.Map.{lookup-insert, lookup-remove}
use inkbridge.Cache.{Entry, oldest, touch}

abbrev pub total : {K : Type 0} → List (K × Entry) → ℕ
total [] = 0
total ((k, e) ∷ m) = length e.bytes + total m

abbrev pub size_of : Option Entry → ℕ
size_of none = 0
size_of (some e) = length e.bytes

module _ {K : Type 0} ⦃key_order : Key K⦄ where
  abbrev pub Distinct : List (K × Entry) → Type 0
  Distinct [] = Unit {0}
  Distinct ((k, e) ∷ m) = (Map.lookup k m ≡ none) × Distinct m

  absent_removed : (k : K) (m : List (K × Entry)) → Map.lookup k m ≡ none → Map.remove k m ≡ m
  unfolding Map.lookup Map.remove
  absent_removed k [] h = refl
  absent_removed k ((j, e) ∷ m) h = ground (arith, absent_removed k m)

  pub total-remove :
      (k : K) (m : List (K × Entry))
      → Distinct m
      → total (Map.remove k m) + size_of (Map.lookup k m) ≡ total m
  unfolding Map.lookup Map.remove
  total-remove k [] d = refl
  total-remove k ((j, e) ∷ m) d = elim (Bool-cases (j == k)) [
    | inl same ↦
        ground (arith, absent_removed k m, total-remove k m d.1, d.0, key_order.beq_iff j k)
    | inr other ↦ ground (arith, total-remove k m d.1)
  ]

  pub remove-Distinct : (k : K) (m : List (K × Entry)) → Distinct m → Distinct (Map.remove k m)
  unfolding Map.remove
  remove-Distinct k [] d = tt
  remove-Distinct k ((j, e) ∷ m) d = elim (Bool-cases (j == k)) [
    | inl same ↦ rw same (remove-Distinct k m d.1)
    | inr other ↦ rw other (ground (arith, lookup-remove k j m, d.0), remove-Distinct k m d.1)
  ]

  pub total-insert :
      (k : K) (e : Entry) (m : List (K × Entry))
      → Map.lookup k m ≡ none
      → total (Map.insert k e m) ≡ total m + length e.bytes
  unfolding Map.lookup Map.insert
  total-insert k e [] h = omega arith
  total-insert k e ((j, f) ∷ m) h = ground (arith, total-insert k e m)

  pub insert-Distinct :
      (k : K) (e : Entry) (m : List (K × Entry))
      → Map.lookup k m ≡ none
      → Distinct m
      → Distinct (Map.insert k e m)
  unfolding Map.lookup Map.insert
  insert-Distinct k e [] h d = (refl, tt)
  insert-Distinct k e ((j, f) ∷ m) h d = elim (Bool-cases (j == k)) [
    | inl same ↦ absurd (ground arith)
    | inr other ↦
        let absent : Map.lookup k m ≡ none = rw other at h in
        elim (Bool-cases (key_order.lt k j)) [
          | inl before ↦ rw (other, before) (h, d)
          | inr after ↦
              rw (other, after)
                (
                  ground (
                    arith,
                    lookup-insert k j e m,
                    key_order.beq_iff k j,
                    key_order.beq_iff j k,
                    d.0,
                  ),
                  insert-Distinct k e m absent d.1,
                )
        ]
  ]

  pub lookup-touch :
      (k j : K) (t : ℕ) (m : List (K × Entry))
      → is_some (Map.lookup j (touch k t m)) ≡ is_some (Map.lookup j m)
  unfolding Map.lookup touch
  lookup-touch k j t [] = refl
  lookup-touch k j t ((i, e) ∷ m) = ground (arith, lookup-touch k j t m)

  pub total-touch : (k : K) (t : ℕ) (m : List (K × Entry)) → total (touch k t m) ≡ total m
  unfolding touch
  total-touch k t [] = refl
  total-touch k t ((i, e) ∷ m) = ground (arith, total-touch k t m)

  pub touch-Distinct : (k : K) (t : ℕ) (m : List (K × Entry)) → Distinct m → Distinct (touch k t m)
  unfolding touch
  touch-Distinct k t [] d = tt
  touch-Distinct k t ((i, e) ∷ m) d =
      (ground (arith, lookup-touch k i t m, d.0), touch-Distinct k t m d.1)

  pub length-remove :
      (k : K) (m : List (K × Entry))
      → length (Map.remove k m) + (if is_some (Map.lookup k m) then 1 else 0) ≤ length m
  unfolding Map.lookup Map.remove
  length-remove k [] = omega arith
  length-remove k ((j, e) ∷ m) = ground (arith, length-remove k m)

  -- The oldest entry is in the map, under its key, with its tick.
  pub oldest_there :
      (m : List (K × Entry)) (v : K) (t : ℕ)
      → Distinct m
      → oldest m ≡ some (v, t)
      → (e : Entry) × (Map.lookup v m ≡ some e) × (e.last_used ≡ t)
  unfolding oldest Map.lookup
  oldest_there [] v t d h = cc
  oldest_there ((k, e) ∷ m) v t d h = elim (Option-cases (oldest m)) [
    | inl alone ↦ (e, ground (arith, key_order.beq_iff k v), ground arith)
    | inr (x, later) ↦ elim (Bool-cases (leb e.last_used x.1)) [
      | inl first ↦ (e, ground (arith, key_order.beq_iff k v), ground arith)
      | inr second ↦
          let (f, found, same) = oldest_there m v t d.1 (ground arith) in
          (f, ground (arith, found, d.0, key_order.beq_iff k v), same)
    ]
  ]

  oldest-none : (m : List (K × Entry)) (j : K) → oldest m ≡ none → Map.lookup j m ≡ none
  unfolding oldest Map.lookup
  oldest-none [] j h = refl
  oldest-none ((k, e) ∷ m) j h = elim (Option-cases (oldest m)) [
    | inl alone ↦ absurd (ground arith)
    | inr (x, later) ↦ absurd (ground arith)
  ]

  -- No entry has a tick before that of the oldest.
  pub oldest_least :
      (m : List (K × Entry)) (v j : K) (t : ℕ) (e : Entry)
      → oldest m ≡ some (v, t)
      → Map.lookup j m ≡ some e
      → t ≤ e.last_used
  unfolding oldest Map.lookup
  oldest_least [] v j t e h found = cc
  oldest_least ((k, f) ∷ m) v j t e h found = elim (Option-cases (oldest m)) [
    | inl alone ↦ ground (arith, oldest-none m j alone)
    | inr (x, later) ↦ ground (arith, oldest_least m x.0 j x.1 e later)
  ]
