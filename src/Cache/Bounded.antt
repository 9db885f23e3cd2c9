-- ===== src/Cache/Bounded.antt =====
-- The bytes of a cache are accounted for, and stay within its budget.
use inkbridge.Prelude.{
  ℕ, suc, ◌+◌, ◌^◌, ◌≡◌, ◌≤◌, ◌<◌, refl, none, some, arith, length, Option-cases, inl, inr, Key,
  ltb, true, false, Bool,
}
use inkbridge.Prelude.Map
use inkbridge.Prelude.Map.{lookup-remove}
use inkbridge.Cache.{Entry, ByteLru, wrap64, oldest, reclaim, evict_key, evict, forget}
use inkbridge.Cache.Accounts.{total, Distinct, total-remove, remove-Distinct, length-remove}

module _ {K : Type 0} ⦃key_order : Key K⦄ where
  -- A map has one entry for a key, the counter holds their bytes, and the budget is kept. A Vec,
  -- and so a sensible budget, has less than 2 ^ 63 bytes.
  pub record IsValid (c : ByteLru K) : Type 0 where
    pub distinct : Distinct c.entries
    pub accounted : c.cur_bytes ≡ total c.entries
    pub bounded : c.cur_bytes ≤ c.max_bytes
    pub sensible : c.max_bytes < 2 ^ 63

  -- What is reclaimed is what the removed entry held.
  reclaimed :
      (k : K) (c : ByteLru K)
      → IsValid c
      → reclaim c.cur_bytes (Map.lookup k c.entries) ≡ total (Map.remove k c.entries)
  reclaimed k c v =
      let sum = total-remove k c.entries v.distinct in
      elim (Option-cases (Map.lookup k c.entries)) [
        | inl absent ↦ rw absent (omega (arith, v.accounted, rw absent at sum))
        | inr (e, found) ↦
            rw found (omega (arith, v.accounted, v.bounded, v.sensible, rw found at sum))
      ]

  removed_less : (k : K) (c : ByteLru K) → IsValid c → total (Map.remove k c.entries) ≤ c.cur_bytes
  removed_less k c v = omega (arith, v.accounted, total-remove k c.entries v.distinct)

  pub forget-IsValid : (k : K) (c : ByteLru K) → IsValid c → IsValid (forget k c)
  unfolding forget
  forget-IsValid k c v = record {
    distinct = remove-Distinct k c.entries v.distinct;
    accounted = reclaimed k c v;
    bounded = omega (arith, reclaimed k c v, removed_less k c v, v.bounded);
    sensible = v.sensible;
  }

  pub evict_key-found :
      (k : K) (c : ByteLru K) (e : Entry)
      → Map.lookup k c.entries ≡ some e
      → evict_key k c ≡ record c {
        entries = Map.remove k c.entries;
        cur_bytes = reclaim c.cur_bytes (Map.lookup k c.entries);
        evicted = wrap64 (c.evicted + 1);
      }
  unfolding evict_key
  evict_key-found k c e found = rw (evict_key, found) refl

  pub evict_key-absent : (k : K) (c : ByteLru K) → Map.lookup k c.entries ≡ none → evict_key k c ≡ c
  unfolding evict_key
  evict_key-absent k c absent = rw (evict_key, absent) refl

  pub evict_key-IsValid : (k : K) (c : ByteLru K) → IsValid c → IsValid (evict_key k c)
  evict_key-IsValid k c v = elim (Option-cases (Map.lookup k c.entries)) [
    | inl absent ↦ rw (evict_key-absent k c absent) v
    | inr (e, found) ↦ rw (evict_key-found k c e found) (record {
      distinct = remove-Distinct k c.entries v.distinct;
      accounted = reclaimed k c v;
      bounded = omega (arith, reclaimed k c v, removed_less k c v, v.bounded);
      sensible = v.sensible;
    })
  ]

  pub evict_key-max : (k : K) (c : ByteLru K) → (evict_key k c).max_bytes ≡ c.max_bytes
  evict_key-max k c = elim (Option-cases (Map.lookup k c.entries)) [
    | inl absent ↦ rw (evict_key-absent k c absent) refl
    | inr (e, found) ↦ rw (evict_key-found k c e found) refl
  ]

  pub evict_key-length :
      (k : K) (c : ByteLru K) (e : Entry)
      → Map.lookup k c.entries ≡ some e
      → length (evict_key k c).entries < length c.entries
  evict_key-length k c e found =
      let shorter = length-remove k c.entries in
      rw (evict_key-found k c e found) (omega (arith, rw found at shorter))

  -- Whether one more entry of `size` bytes is too much.
  abbrev pub over_budget : ℕ → ByteLru K → Bool
  over_budget size c = ltb c.max_bytes (wrap64 (c.cur_bytes + size))

  pub evict-fits :
      (n size : ℕ) (c : ByteLru K) → over_budget size c ≡ false → evict (suc n) size c ≡ c
  unfolding evict
  evict-fits n size c fits = ground (arith, fits)

  pub evict-empty :
      (n size : ℕ) (c : ByteLru K) → oldest c.entries ≡ none → evict (suc n) size c ≡ c
  unfolding evict
  evict-empty n size c empty = ground (arith, empty)

  pub evict-next :
      (n size : ℕ) (c : ByteLru K) (x : K × ℕ)
      → over_budget size c ≡ true
      → oldest c.entries ≡ some x
      → evict (suc n) size c ≡ evict n size (evict_key x.0 c)
  unfolding evict
  evict-next n size c x over there = ground (arith, over, there)
