-- ===== src/Cache/Inserted.antt =====
-- `insert`, `get` and `clear` of the LRU cache: the loop makes room, and the budget is kept.
use inkbridge.Prelude.{
  ℕ, zero, suc, ◌+◌, ◌≡◌, ◌∙◌, ◌≤◌, refl, none, some, List, [], ◌∷◌, arith, length, Bool-cases,
  Option-cases, inl, inr, Key,
}
use inkbridge.Prelude.Map
use inkbridge.Prelude.Map.{lookup-insert, lookup-remove}
use inkbridge.Cache.{Entry, ByteLru, oldest, evict_key, evict}
use inkbridge.Cache.Accounts.{total, oldest_there}
use inkbridge.Cache.Bounded.{
  IsValid, evict_key-IsValid, evict_key-max, evict_key-length, evict_key-absent, evict_key-found,
  over_budget, evict-fits, evict-empty, evict-next,
}

module _ {K : Type 0} ⦃key_order : Key K⦄ where
  pub evict-IsValid : (n size : ℕ) (c : ByteLru K) → IsValid c → IsValid (evict n size c)
  evict-IsValid zero size c v = unfold evict in v
  evict-IsValid (suc n) size c v = elim (Bool-cases (over_budget size c)) [
    | inr fits ↦ rw (evict-fits n size c fits) v
    | inl over ↦ elim (Option-cases (oldest c.entries)) [
      | inl empty ↦ rw (evict-empty n size c empty) v
      | inr (x, there) ↦
          rw (evict-next n size c x over there)
            (evict-IsValid n size (evict_key x.0 c) (evict_key-IsValid x.0 c v))
    ]
  ]

  pub evict-max : (n size : ℕ) (c : ByteLru K) → (evict n size c).max_bytes ≡ c.max_bytes
  evict-max zero size c = unfold evict in refl
  evict-max (suc n) size c = elim (Bool-cases (over_budget size c)) [
    | inr fits ↦ rw (evict-fits n size c fits) refl
    | inl over ↦ elim (Option-cases (oldest c.entries)) [
      | inl empty ↦ rw (evict-empty n size c empty) refl
      | inr (x, there) ↦
          rw (evict-next n size c x over there)
            (evict-max n size (evict_key x.0 c) ∙ evict_key-max x.0 c)
    ]
  ]

  empty_total : (m : List (K × Entry)) → oldest m ≡ none → total m ≡ 0
  unfolding oldest
  empty_total [] h = refl
  empty_total ((k, e) ∷ m) h = elim (Option-cases (oldest m)) [
    | inl alone ↦ absurd (ground arith)
    | inr (x, later) ↦ absurd (ground arith)
  ]

  no_entries : (m : List (K × Entry)) → length m ≤ 0 → total m ≡ 0
  no_entries [] h = refl
  no_entries (x ∷ m) h = omega arith

  -- With as many turns as there are entries, the loop ends with room for the new entry.
  pub evict_fits :
      (n size : ℕ) (c : ByteLru K)
      → IsValid c
      → size ≤ c.max_bytes
      → length c.entries ≤ n
      → (evict n size c).cur_bytes + size ≤ c.max_bytes
  evict_fits zero size c v small few =
      unfold evict in omega (arith, v.accounted, no_entries c.entries few)
  evict_fits (suc n) size c v small few = elim (Bool-cases (over_budget size c)) [
    | inr fits ↦ rw (evict-fits n size c fits) (ground (arith, fits, v.bounded, v.sensible))
    | inl over ↦ elim (Option-cases (oldest c.entries)) [
      | inl empty ↦
          rw (evict-empty n size c empty) (omega (arith, v.accounted, empty_total c.entries empty))
      | inr (x, there) ↦
          let (e, found, same) = oldest_there c.entries x.0 x.1 v.distinct there in
          let smaller : size ≤ (evict_key x.0 c).max_bytes = omega (arith, evict_key-max x.0 c) in
          rw (evict-next n size c x over there) (
            omega (
              arith,
              evict_key-max x.0 c,
              evict_fits n size (evict_key x.0 c) (evict_key-IsValid x.0 c v) smaller
                  (omega (arith, evict_key-length x.0 c e found)),
            ))
    ]
  ]

  pub evict_key_keeps :
      (k : K) (c : ByteLru K) (j : K) (e : Entry)
      → Map.lookup j (evict_key k c).entries ≡ some e
      → Map.lookup j c.entries ≡ some e
  evict_key_keeps k c j e h = elim (Option-cases (Map.lookup k c.entries)) [
    | inl absent ↦ (rw (evict_key-absent k c absent) at h)
    | inr (f, found) ↦
        let removed = rw (evict_key-found k c f found) at h in
        ground (arith, removed, lookup-remove k j c.entries)
  ]

  -- The eviction brings no entry back and changes none.
  pub evict_keeps :
      (n size : ℕ) (c : ByteLru K) (j : K) (e : Entry)
      → Map.lookup j (evict n size c).entries ≡ some e
      → Map.lookup j c.entries ≡ some e
  evict_keeps zero size c j e h = unfold evict in h
  evict_keeps (suc n) size c j e h = elim (Bool-cases (over_budget size c)) [
    | inr fits ↦ (rw (evict-fits n size c fits) at h)
    | inl over ↦ elim (Option-cases (oldest c.entries)) [
      | inl empty ↦ (rw (evict-empty n size c empty) at h)
      | inr (x, there) ↦
          evict_key_keeps x.0 c j e
            (evict_keeps n size (evict_key x.0 c) j e (rw (evict-next n size c x over there) at h))
    ]
  ]
