-- ===== src/Cache/Evicted.antt =====
-- What `insert` and `get` of the LRU cache promise: the bytes inserted are there, the budget is kept,
-- and only the least recently used entries go.
use inkbridge.Prelude.{
  ℕ, ◌+◌, ◌≡◌, ◌≤◌, ◌≢◌, refl, none, some, List, arith, length, Bool-cases, Option-cases, inl, inr,
  Key, ltb, true, false,
}
use inkbridge.Prelude.Map
use inkbridge.Prelude.Map.{lookup-insert, lookup-insert_self, lookup-remove}
use inkbridge.Cache.{Entry, ByteLru, wrap64, touch, get, evict, forget, insert}
use inkbridge.Cache.Accounts.{total-insert, insert-Distinct, total-touch, touch-Distinct}
use inkbridge.Cache.Bounded.{IsValid, forget-IsValid}
use inkbridge.Cache.Inserted.{evict-IsValid, evict-max, evict_fits, evict_keeps}

module _ {K : Type 0} ⦃key_order : Key K⦄ where
  -- The cache after the loop of `insert`.
  abbrev pub made_room : K → List ℕ → ByteLru K → ByteLru K
  made_room k bytes c = evict (length (forget k c).entries) (length bytes) (forget k c)

  pub insert-big :
      (k : K) (bytes : List ℕ) (c : ByteLru K)
      → ltb c.max_bytes (length bytes) ≡ true
      → insert k bytes c ≡ forget k c
  unfolding insert
  insert-big k bytes c big = rw (insert, big) refl

  pub insert-small :
      (k : K) (bytes : List ℕ) (c : ByteLru K)
      → ltb c.max_bytes (length bytes) ≡ false
      → insert k bytes c ≡ record (made_room k bytes c) {
        cur_bytes = wrap64 ((made_room k bytes c).cur_bytes + length bytes);
        entries =
            Map.insert k
              (record { bytes = bytes; last_used = (made_room k bytes c).tick })
              (made_room k bytes c).entries;
      }
  unfolding insert
  insert-small k bytes c small = rw (insert, small) refl

  forgotten : (k : K) (c : ByteLru K) → Map.lookup k (forget k c).entries ≡ none
  unfolding forget
  forgotten k c = ground (arith, lookup-remove k k c.entries, key_order.beq_iff k k)

  pub forget_others :
      (k j : K) (c : ByteLru K) → k ≢ j → Map.lookup j (forget k c).entries ≡ Map.lookup j c.entries
  unfolding forget
  forget_others k j c other = ground (arith, lookup-remove k j c.entries, key_order.beq_iff k j)

  room_absent :
      (k : K) (bytes : List ℕ) (c : ByteLru K) → Map.lookup k (made_room k bytes c).entries ≡ none
  room_absent k bytes c = elim (Option-cases (Map.lookup k (made_room k bytes c).entries)) [
    | inl absent ↦ absent
    | inr (e, found) ↦ absurd (
        cc (
          evict_keeps (length (forget k c).entries) (length bytes) (forget k c) k e found,
          forgotten k c,
        ))
  ]

  -- An insertion keeps a cache valid: its keys are distinct, its counter is the sum of its entries'
  -- bytes, and that is within the budget.
  pub insert-IsValid :
      (k : K) (bytes : List ℕ) (c : ByteLru K) → IsValid c → IsValid (insert k bytes c)
  unfolding forget
  insert-IsValid k bytes c v = elim (Bool-cases (ltb c.max_bytes (length bytes))) [
    | inl big ↦ rw (insert-big k bytes c big) (forget-IsValid k c v)
    | inr small ↦
        let n = length (forget k c).entries in
        let v₁ = forget-IsValid k c v in
        let v₂ = evict-IsValid n (length bytes) (forget k c) v₁ in
        let m = evict-max n (length bytes) (forget k c) in
        let room = evict_fits n (length bytes) (forget k c) v₁ (ground arith) (omega arith) in
        let e : Entry = record { bytes = bytes; last_used = (made_room k bytes c).tick } in
        let absent = room_absent k bytes c in
        rw (insert-small k bytes c small) (record {
          distinct = insert-Distinct k e (made_room k bytes c).entries absent v₂.distinct;
          accounted = omega (
            arith,
            v₂.accounted,
            v₂.sensible,
            m,
            room,
            total-insert k e (made_room k bytes c).entries absent,
          );
          bounded = omega (arith, m, room);
          sensible = v₂.sensible;
        })
  ]

  get-found :
      (k : K) (c : ByteLru K) (e : Entry)
      → Map.lookup k c.entries ≡ some e
      → get k c ≡ (
        some e.bytes,
        record c { tick = wrap64 (c.tick + 1); entries = touch k (wrap64 (c.tick + 1)) c.entries },
      )
  unfolding get
  get-found k c e found = rw (get, found) refl

  get-absent :
      (k : K) (c : ByteLru K)
      → Map.lookup k c.entries ≡ none
      → get k c ≡ (none, record c { tick = wrap64 (c.tick + 1) })
  unfolding get
  get-absent k c absent = rw (get, absent) refl

  -- A lookup keeps a cache valid.
  pub get-IsValid : (k : K) (c : ByteLru K) → IsValid c → IsValid (get k c).1
  get-IsValid k c v = elim (Option-cases (Map.lookup k c.entries)) [
    | inl absent ↦ rw (get-absent k c absent) (record {
      distinct = v.distinct;
      accounted = v.accounted;
      bounded = v.bounded;
      sensible = v.sensible;
    })
    | inr (e, found) ↦ rw (get-found k c e found) (record {
      distinct = touch-Distinct k (wrap64 (c.tick + 1)) c.entries v.distinct;
      accounted = omega (arith, v.accounted, total-touch k (wrap64 (c.tick + 1)) c.entries);
      bounded = v.bounded;
      sensible = v.sensible;
    })
  ]

  -- What was inserted is found, if it is not larger than the whole budget.
  pub get-insert :
      (k : K) (bytes : List ℕ) (c : ByteLru K)
      → length bytes ≤ c.max_bytes
      → (get k (insert k bytes c)).0 ≡ some bytes
  get-insert k bytes c fits =
      let small : ltb c.max_bytes (length bytes) ≡ false = ground arith in
      let e : Entry = record { bytes = bytes; last_used = (made_room k bytes c).tick } in
      let found : Map.lookup k (insert k bytes c).entries ≡ some e =
        rw (insert-small k bytes c small) (lookup-insert_self k e (made_room k bytes c).entries) in
      rw (get-found k (insert k bytes c) e found) refl
