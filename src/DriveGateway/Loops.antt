-- ===== src/DriveGateway/Loops.antt =====
-- The loops of `DriveGatewayCheckpoint::validate` of inkbridge-drive-gateway/src/model.rs over a map
-- that has an entry more or less.
use inkbridge.Prelude.{
  Bool, true, false, not, ◌||◌, ◌≡◌, refl, arith, some, String, List, [], ◌∷◌, is_some, ◌==◌,
  string_key, inl, inr, Bool-cases,
}
use inkbridge.Prelude.Fallible.{ok, refuse_if, for_each, >>=-eq-ok}
use inkbridge.Prelude.Map
use inkbridge.Broker.Model.{RevisionPair}
use inkbridge.DriveGateway.Model.{Outcome, Refusal, frontier_missing}
use inkbridge.DriveGateway.Checkpoint.{check_has_frontier}
use inkbridge.DriveGateway.Equality.{same}

module _ {V : Type 0} (body : String × V → Outcome (Unit {0})) where
  pub for_each-insert :
      (k : String) (v : V) (m : List (String × V))
      → body (k, v) ≡ ok tt
      → for_each body m ≡ ok tt
      → for_each body (Map.insert k v m) ≡ ok tt
  unfolding Map.insert
  for_each-insert k v [] one h = rw one refl
  for_each-insert k v ((j, w) ∷ m) one h =
      let (_, head, rest) = >>=-eq-ok (body (j, w)) _ h in
      let more = for_each-insert k v m one rest in ground (arith, one, head, rest, more)

  pub for_each-lookup :
      (k : String) (v : V) (m : List (String × V))
      → for_each body m ≡ ok tt
      → Map.lookup k m ≡ some v
      → body (k, v) ≡ ok tt
  unfolding Map.lookup
  for_each-lookup k v [] h found = cc
  for_each-lookup k v ((j, w) ∷ m) h found =
      let (_, head, rest) = >>=-eq-ok (body (j, w)) _ h in
      elim (Bool-cases (j == k)) [
        | inl here ↦
            let is_key = same j k here in
            let is_value : some w ≡ some v = rw here at found in cc (is_key, is_value, head)
        | inr there ↦ for_each-lookup k v m rest (rw there at found)
      ]

pub or_false : (a b : Bool) → (a || b) ≡ false → (a ≡ false) × (b ≡ false)
or_false a b h = ground arith

pub refused_not : (b : Bool) (e : Refusal) → refuse_if b e ≡ ok tt → b ≡ false
refused_not true e h = cc
refused_not false e h = refl

pub refused_unless : (b : Bool) (e : Refusal) → refuse_if (not b) e ≡ ok tt → b ≡ true
refused_unless true e h = refl
refused_unless false e h = cc

is_some-insert :
    (f id : String) (r : RevisionPair) (m : List (String × RevisionPair))
    → is_some (Map.lookup id m) ≡ true
    → is_some (Map.lookup id (Map.insert f r m)) ≡ true
is_some-insert f id r m h = elim (Bool-cases (f == id)) [
  | inl e ↦ rw (Map.lookup-insert f id r m, e) refl
  | inr e ↦ rw (Map.lookup-insert f id r m, e) h
]

pub has_frontiers-insert :
    (frontiers : List (String × RevisionPair)) (f : String) (r : RevisionPair) (ids : List String)
    → for_each (check_has_frontier frontiers) ids ≡ ok tt
    → for_each (check_has_frontier (Map.insert f r frontiers)) ids ≡ ok tt
unfolding check_has_frontier
has_frontiers-insert frontiers f r [] h = refl
has_frontiers-insert frontiers f r (id ∷ ids) h =
    let (_, head, rest) = >>=-eq-ok (check_has_frontier frontiers id) _ h in
    let more = has_frontiers-insert frontiers f r ids rest in
    let known =
      is_some-insert f id r frontiers
        (refused_unless (is_some (Map.lookup id frontiers)) frontier_missing head) in
    rw (check_has_frontier, known) more
