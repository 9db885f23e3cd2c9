-- ===== src/Broker/Process/Mark.antt =====
-- `mark_event_only` of inkbridge-broker/src/broker.rs.
use inkbridge.Prelude.{ℕ, ◌+◌, ◌%◌, ◌^◌, String, [], ◌∷◌, string_key}
use inkbridge.Prelude.Fallible.{ok, ◌>>=◌, map_err}
use inkbridge.Prelude.Map
use inkbridge.Prelude.Set
use inkbridge.Broker.Model.{StorageEvent, CanonicalDocumentState, ProcessOutcome}
use inkbridge.Broker.Storage.{matches, BrokerStorage}
use inkbridge.Broker.Errors.{Fallible, conditional_write}
use inkbridge.Broker.External.{External}
use inkbridge.Broker.Output.{state_write}

-- `+= 1` on a u64.
abbrev pub next_u64 : ℕ → ℕ
next_u64 n = (n + 1) % 2 ^ 64

unfoldable pub marked_state : CanonicalDocumentState → StorageEvent → CanonicalDocumentState
unfolding Set.insert Map.insert
marked_state state event = record state {
  processed_event_ids = Set.insert event.event_id state.processed_event_ids;
  source_generations =
      Map.insert event.object_path event.source_generation state.source_generations;
  state_revision = next_u64 state.state_revision;
}

module _ {S : Type 0} (st : BrokerStorage S) (ext : External) where
  unfoldable pub mark_event_only :
      S → CanonicalDocumentState → (path : String) → (generation : ℕ) → StorageEvent → Fallible S
  unfolding marked_state state_write
  mark_event_only s state path generation event = do
    write ← state_write ext path (marked_state state event) (matches generation)
    committed ← map_err conditional_write (st.commit s (write ∷ []))
    ok committed.1

-- `mark_event_only(..)?; return Ok(outcome);`
abbrev pub with_outcome : {S : Type 0} → Fallible S → ProcessOutcome → Fallible (ProcessOutcome × S)
with_outcome marked outcome = do s ← marked; ok (outcome, s)
