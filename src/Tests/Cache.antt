-- ===== src/Tests/Cache.antt =====
-- A cache of at most ten bytes.
use inkbridge.Prelude.{ℕ, ◌≡◌, ◌≤◌, refl, none, some, List, [], ◌∷◌, arith, nat_key}
use inkbridge.Prelude.Map
use inkbridge.Cache.{Entry, ByteLru, get, insert}
use inkbridge.Cache.Bounded.{IsValid}
use inkbridge.Cache.Evicted.{insert-IsValid, get-insert}
use inkbridge.Cache.Order.{insert_evicts_oldest}

-- The page 2 was used before the page 1.
abbrev first : Entry
first = record { bytes = 7 ∷ 7 ∷ 7 ∷ 7 ∷ []; last_used = 4 }

abbrev second : Entry
second = record { bytes = 8 ∷ 8 ∷ 8 ∷ []; last_used = 2 }

abbrev full : ByteLru ℕ
full = record {
  entries = (1, first) ∷ (2, second) ∷ [];
  max_bytes = 10;
  cur_bytes = 7;
  tick = 4;
  evicted = 0;
}

abbrev five : List ℕ
five = 9 ∷ 9 ∷ 9 ∷ 9 ∷ 9 ∷ []

full-IsValid : IsValid full
unfolding Map.lookup
full-IsValid = record {
  distinct = (refl, (refl, tt));
  accounted = refl;
  bounded = omega arith;
  sensible = omega arith;
}

insert-IsValid_example : IsValid (insert 3 five full)
insert-IsValid_example = insert-IsValid 3 five full full-IsValid

get-insert_example : (get 3 (insert 3 five full)).0 ≡ some five
get-insert_example = get-insert 3 five full (omega arith)

second_there : Map.lookup 2 full.entries ≡ some second
unfolding Map.lookup
second_there = refl

second_goes : Map.lookup 2 (insert 3 five full).entries ≡ none
unfolding Map.lookup insert
second_goes = refl

first_stays : Map.lookup 1 (insert 3 five full).entries ≡ some first
unfolding Map.lookup insert
first_stays = refl

insert_evicts_oldest_example : 2 ≤ 4
insert_evicts_oldest_example =
    insert_evicts_oldest 3 five full 1 2 second first full-IsValid (omega arith) (omega arith)
      second_there second_goes first_stays
