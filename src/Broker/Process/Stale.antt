-- ===== src/Broker/Process/Stale.antt =====
-- A broker that reads a snapshot of the storage and commits to what the storage has become since.
use inkbridge.Prelude.{ℕ, ◌≡◌, ◌≢◌, subst, some, String, [], ◌∷◌, ◌++◌, inl, inr}
use inkbridge.Prelude.Fallible.{ok, ◌>>=◌, >>=-eq-ok}
use inkbridge.Broker.Model.{StorageEvent, CanonicalDocumentState, ProcessOutcome, duplicate}
use inkbridge.Broker.Storage.{StoredObject, matches, BrokerStorage, CommitLaws}
use inkbridge.Broker.External.{External}
use inkbridge.Broker.Paths.{state_path}
use inkbridge.Broker.Codec.{state_write-Written}
use inkbridge.Broker.Process.{process}
use inkbridge.Broker.Process.Commits.{StateCommit}
use inkbridge.Broker.Process.Outcome.{process-Success}

-- Between the reads and the commit of one broker others may have committed: the pair of the snapshot
-- that is read and the live storage that is written.
abbrev pub behind : {S : Type 0} → BrokerStorage S → BrokerStorage (S × S)
behind st = record {
  read = λ s path. st.read s.0 path;
  read_generation = λ s path generation. st.read_generation s.0 path generation;
  commit = λ s writes. st.commit s.1 writes >>= λ r. ok (r.0, (s.0, r.1));
}

module _ {S : Type 0} (st : BrokerStorage S) (ext : External) (laws : CommitLaws st) where
  pub live_commit :
      (snapshot live : S) (t : S × S) (path : String) (generation : ℕ)
      (next : CanonicalDocumentState)
      → StateCommit (behind st) ext (snapshot, live) t path generation next
      → (o : StoredObject) × (st.read live path ≡ ok (some o)) × (o.generation ≡ generation)
  live_commit snapshot live t path generation next c =
      let w = state_write-Written ext path next (matches generation) c.write c.wrote in
      let (r, done, _) = >>=-eq-ok (st.commit live (c.others ++ c.write ∷ [])) _ c.committed in
      let (o, found, same) =
        laws.last_checked live r.1 c.others c.write r.0 generation done w.precondition_same in
      (o, subst (λ p. st.read live p ≡ ok (some o)) w.path_same found, same)

  -- If the document's state has been committed by another since it was read, so that its generation
  -- is no longer the one that was read, then processing an event changes nothing of the live storage:
  -- it fails, or finds in the snapshot that the event is a duplicate.
  pub process-behind :
      (snapshot live : S) (t : S × S) (event : StorageEvent) (o : ProcessOutcome)
      (old new : StoredObject)
      → st.read snapshot (state_path event.document_id) ≡ ok (some old)
      → st.read live (state_path event.document_id) ≡ ok (some new)
      → old.generation ≢ new.generation
      → process (behind st) ext (snapshot, live) event ≡ ok (o, t)
      → (o ≡ duplicate event.document_id event.event_id) × (t ≡ (snapshot, live))
  process-behind snapshot live t event o old new was now moved h =
      let r = process-Success (behind st) ext (snapshot, live) t event o h in
      elim r.how [
        | inl (seen, again, same) ↦ (again, same)
        | inr (unseen, p) ↦
            let (x, found, generation) =
              live_commit snapshot live t (state_path event.document_id) r.object.generation p.next
                p.commit in
            absurd (moved (cc (was, r.loaded.found, now, found, generation)))
      ]
