-- ===== src/Cache/Order.antt =====
-- The cache evicts the least recently used entries.
use inkbridge.Prelude.{
  ℕ, zero, suc, ◌≡◌, ◌≢◌, ◌≤◌, ◌∙◌, ap, refl, none, some, List, arith, length, Bool-cases,
  Option-cases, inl, inr, Key, ltb,
}
use inkbridge.Prelude.Map
use inkbridge.Prelude.Map.{lookup-insert, lookup-remove}
use inkbridge.Cache.{Entry, ByteLru, oldest, evict_key, evict, forget, insert}
use inkbridge.Cache.Accounts.{oldest_there, oldest_least}
use inkbridge.Cache.Bounded.{
  IsValid, forget-IsValid, evict_key-IsValid, evict_key-found, over_budget, evict-fits, evict-empty,
  evict-next,
}
use inkbridge.Cache.Inserted.{evict_keeps, evict_key_keeps}
use inkbridge.Cache.Evicted.{made_room, insert-big, insert-small, forget_others}

module _ {K : Type 0} ⦃key_order : Key K⦄ where
  -- Only the victim goes.
  evict_key_others :
      (v j : K) (c : ByteLru K) (f e : Entry)
      → Map.lookup v c.entries ≡ some f
      → Map.lookup j c.entries ≡ some e
      → Map.lookup j (evict_key v c).entries ≡ none
      → v ≡ j
  evict_key_others v j c f e found there gone =
      let removed = rw (evict_key-found v c f found) at gone in
      ground (arith, removed, lookup-remove v j c.entries, key_order.beq_iff v j)

  same_entry :
      (v j : K) (c : ByteLru K) (o e : Entry)
      → v ≡ j
      → Map.lookup v c.entries ≡ some o
      → Map.lookup j c.entries ≡ some e
      → o ≡ e
  same_entry v j c o e same found there = cc (same, found, there)

  evict-none : (size : ℕ) (c : ByteLru K) → evict zero size c ≡ c
  unfolding evict
  evict-none size c = refl

  evict_oldest :
      (n size : ℕ) (c : ByteLru K) (i j : K) (e f : Entry)
      → IsValid c
      → Map.lookup j c.entries ≡ some e
      → Map.lookup j (evict n size c).entries ≡ none
      → Map.lookup i (evict n size c).entries ≡ some f
      → e.last_used ≤ f.last_used
  evict_oldest zero size c i j e f v there gone kept = absurd (cc (there, gone, evict-none size c))
  evict_oldest (suc n) size c i j e f v there gone kept = elim (Bool-cases (over_budget size c)) [
    | inr fits ↦ absurd (cc (there, gone, evict-fits n size c fits))
    | inl over ↦ elim (Option-cases (oldest c.entries)) [
      | inl empty ↦ absurd (cc (there, gone, evict-empty n size c empty))
      | inr (x, first) ↦
          let next = evict-next n size c x over first in
          let c' = evict_key x.0 c in
          let gone' : Map.lookup j (evict n size c').entries ≡ none = rw next at gone in
          let kept' : Map.lookup i (evict n size c').entries ≡ some f = rw next at kept in
          let (o, found, tick) = oldest_there c.entries x.0 x.1 v.distinct first in
          elim (Option-cases (Map.lookup j c'.entries)) [
            | inl victim ↦
                let same = evict_key_others x.0 j c o e found there victim in
                let least =
                  oldest_least c.entries x.0 i x.1 f first (evict_keeps (suc n) size c i f kept) in
                omega (
                  arith,
                  least,
                  tick,
                  ap (λ (a : Entry). a.last_used) (same_entry x.0 j c o e same found there),
                )
            | inr (e', still) ↦
                let same = evict_key_keeps x.0 c j e' still in
                let there' : Map.lookup j c'.entries ≡ some e = cc (still, same, there) in
                evict_oldest n size c' i j e f (evict_key-IsValid x.0 c v) there' gone' kept'
          ]
    ]
  ]

  -- If an insertion into a valid cache drops the entry of another key and keeps that of a third, the
  -- entry that it drops was not used later than the one that it keeps.
  pub insert_evicts_oldest :
      (k : K) (bytes : List ℕ) (c : ByteLru K) (i j : K) (e f : Entry)
      → IsValid c
      → k ≢ i
      → k ≢ j
      → Map.lookup j c.entries ≡ some e
      → Map.lookup j (insert k bytes c).entries ≡ none
      → Map.lookup i (insert k bytes c).entries ≡ some f
      → e.last_used ≤ f.last_used
  insert_evicts_oldest k bytes c i j e f v ki kj there gone kept =
      elim (Bool-cases (ltb c.max_bytes (length bytes))) [
        | inl big ↦ absurd (cc (there, gone, forget_others k j c kj, insert-big k bytes c big))
        | inr small ↦
            let stored : Entry = record { bytes = bytes; last_used = (made_room k bytes c).tick } in
            let gone' = rw (insert-small k bytes c small) at gone in
            let kept' = rw (insert-small k bytes c small) at kept in
            let m = (made_room k bytes c).entries in
            evict_oldest (length (forget k c).entries) (length bytes) (forget k c) i j e f
              (forget-IsValid k c v) (forget_others k j c kj ∙ there)
              (ground (arith, gone', lookup-insert k j stored m, key_order.beq_iff k j))
              (ground (arith, kept', lookup-insert k i stored m, key_order.beq_iff k i))
      ]
