-- ===== src/Cache.antt =====
-- The byte-bounded LRU cache of reader-core/src/render/cache.rs, and the session's caches with their
-- trimming of reader-core/src/budget/mod.rs. A usize and a u64 have 64 bits. An entry's bytes stand
-- for themselves, the HashMap is an association list, and `&mut self` returns the new cache.
pub mod Accounts
pub mod Bounded
pub mod Inserted
pub mod Evicted
pub mod Order
use inkbridge.Prelude.{
  ℕ, zero, suc, ◌+◌, ◌-◌, ◌%◌, ◌^◌, Option, none, some, List, [], ◌∷◌, Bool, true, false, length,
  leb, ltb, if◌then◌else◌, ◌==◌, Key,
}
use inkbridge.Prelude.Int.{ℤ, pos, negsuc}
use inkbridge.Prelude.Map

pub record Entry : Type 0 where
  pub bytes : List ℕ
  pub last_used : ℕ

pub record ByteLru (K : Type 0) : Type 0 where
  pub entries : List (K × Entry)
  pub max_bytes : ℕ
  pub cur_bytes : ℕ
  pub tick : ℕ
  pub evicted : ℕ

abbrev pub wrap64 : ℕ → ℕ
wrap64 n = n % 2 ^ 64

unfoldable pub with_capacity_bytes : {K : Type 0} → ℕ → ByteLru K
with_capacity_bytes max_bytes = record {
  entries = [];
  max_bytes = max_bytes;
  cur_bytes = 0;
  tick = 0;
  evicted = 0;
}

-- `iter().min_by_key(|(_, e)| e.last_used)`: the first key with the least tick, and that tick.
unfoldable pub oldest : {K : Type 0} → List (K × Entry) → Option (K × ℕ)
oldest [] = none
oldest ((k, e) ∷ entries) = elim (oldest entries) [
  | none ↦ some (k, e.last_used)
  | some (j, t) ↦ if leb e.last_used t then some (k, e.last_used) else some (j, t)
]

-- `self.cur_bytes -= old.bytes.len()` of what `remove` has returned; a usize wraps.
abbrev pub reclaim : ℕ → Option Entry → ℕ
reclaim cur none = cur
reclaim cur (some old) = wrap64 (cur + 2 ^ 64 - length old.bytes)

module _ {K : Type 0} ⦃key_order : Key K⦄ where
  -- `get_mut(key)` and the assignment to its `last_used`.
  unfoldable pub touch : K → ℕ → List (K × Entry) → List (K × Entry)
  touch key tick [] = []
  touch key tick ((k, e) ∷ entries) =
      (k, if k == key then record e { last_used = tick } else e) ∷ touch key tick entries

  unfoldable pub get : K → ByteLru K → Option (List ℕ) × ByteLru K
  unfolding Map.lookup touch
  get key c =
      let tick = wrap64 (c.tick + 1) in
      elim (Map.lookup key c.entries) [
        | none ↦ (none, record c { tick = tick })
        | some entry ↦
            (some entry.bytes, record c { tick = tick; entries = touch key tick c.entries })
      ]

  -- The removal of the victim in the body of the loop.
  unfoldable pub evict_key : K → ByteLru K → ByteLru K
  unfolding Map.lookup Map.remove
  evict_key v c = elim (Map.lookup v c.entries) [
    | none ↦ c
    | some e ↦ record c {
      entries = Map.remove v c.entries;
      cur_bytes = reclaim c.cur_bytes (some e);
      evicted = wrap64 (c.evicted + 1);
    }
  ]

  -- The loop of `insert`, which runs at most once for each entry.
  unfoldable pub evict : ℕ → (size : ℕ) → ByteLru K → ByteLru K
  unfolding oldest evict_key
  evict zero size c = c
  evict (suc fuel) size c = elim (ltb c.max_bytes (wrap64 (c.cur_bytes + size))) [
    | false ↦ c
    | true ↦ elim (oldest c.entries) [ none ↦ c | some (v, t) ↦ evict fuel size (evict_key v c) ]
  ]

  -- The cache without the key that is inserted, and its tick.
  unfoldable pub forget : K → ByteLru K → ByteLru K
  unfolding Map.lookup Map.remove
  forget key c = record c {
    tick = wrap64 (c.tick + 1);
    entries = Map.remove key c.entries;
    cur_bytes = reclaim c.cur_bytes (Map.lookup key c.entries);
  }

  unfoldable pub insert : K → List ℕ → ByteLru K → ByteLru K
  unfolding forget evict Map.insert
  insert key bytes c =
      let size = length bytes in
      let c₁ = forget key c in
      let c₂ = evict (length c₁.entries) size c₁ in
      if ltb c.max_bytes size then c₁ else record c₂ {
        cur_bytes = wrap64 (c₂.cur_bytes + size);
        entries = Map.insert key (record { bytes = bytes; last_used = c₂.tick }) c₂.entries;
      }

unfoldable pub clear : {K : Type 0} → ByteLru K → ByteLru K
clear c = record c { entries = []; cur_bytes = 0 }

pub data TrimLevel : Type 0 where
  moderate critical : TrimLevel

unfoldable pub from_code : ℤ → TrimLevel
from_code (pos n) = if leb 1 n then critical else moderate
from_code (negsuc n) = moderate

-- The render cache and the cover cache, each a thin wrapper over a `ByteLru`.
pub record Caches (P B : Type 0) : Type 0 where
  pub render : ByteLru P
  pub cover : ByteLru B

unfoldable pub trim : {P B : Type 0} → TrimLevel → Caches P B → Caches P B
unfolding clear
trim moderate c = record c { cover = clear c.cover }
trim critical c = record { render = clear c.render; cover = clear c.cover }
