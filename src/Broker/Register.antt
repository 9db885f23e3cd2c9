-- ===== src/Broker/Register.antt =====
-- `Broker::register_document` and `validate_original_pdf` of inkbridge-broker/src/broker.rs.
pub mod Again
use inkbridge.Prelude.{
  ℕ, Option, none, some, String, [], ◌∷◌, not, eqb, if◌then◌else◌, ◌==◌, string_key, ◌++◌,
}
use inkbridge.Prelude.Fallible.{Result, ok, err, ◌>>=◌, ◌>>◌, map_err, refuse_if}
use inkbridge.Prelude.Text.{concat, is_blank}
use inkbridge.Broker.Model.{
  Bytes, DeviceRevision, CanonicalDocumentState, no_revisions, state_schema_version,
}
use inkbridge.Broker.Storage.{
  StoredObject, does_not_exist, matches, ConditionalWrite, BrokerStorage,
}
use inkbridge.Broker.Errors.{
  Fallible, invalid_event, storage, conditional_write, unreadable_original, empty_original,
  blank_file_name, document_id_collision,
}
use inkbridge.Broker.External.{External}
use inkbridge.Broker.Paths.{original_path, state_path}
use inkbridge.Broker.Output.{generated_document_key, from_pairs, state_write, decode_state}

-- `DeviceRevision::default()`
abbrev pub no_device_revision : DeviceRevision
no_device_revision = record {
  revision = 0;
  content_sha256 = "";
  source_generation = 0;
  source_object_path = "";
  accepted_object_path = "";
  source_file_name = none;
}

module _ (ext : External) where
  unfoldable pub validate_original_pdf : Bytes → Fallible ℕ
  validate_original_pdf original_pdf = do
    pages ← map_err (λ e. invalid_event unreadable_original) (ext.load_page_count original_pdf)
    refuse_if (eqb pages 0) (invalid_event empty_original)
    ok pages

  unfoldable pub stable_document_id : Bytes → String
  stable_document_id original_pdf = concat ("inkbridge-doc-v1-" ∷ ext.sha256_hex original_pdf ∷ [])

  abbrev pub new_state : (name : String) (pdf : Bytes) (pages : ℕ) → CanonicalDocumentState
  new_state name pdf pages = record {
    schema_version = state_schema_version;
    document_id = stable_document_id pdf;
    original_object_path = original_path (stable_document_id pdf);
    original_pdf_sha256 = ext.sha256_hex pdf;
    original_file_name = name;
    original_page_count = pages;
    state_revision = 0;
    boox_device = no_device_revision;
    supernote_device = no_device_revision;
    last_common_revisions = no_revisions;
    processed_event_ids = [];
    strokes = [];
    source_generations = [];
    generated_views = [];
    conflicts = [];
    resolved_conflicts = [];
  }

  unfoldable pub original_write : Bytes → ConditionalWrite
  unfolding from_pairs
  original_write pdf = record {
    path = original_path (stable_document_id pdf);
    bytes = pdf;
    metadata = from_pairs (
        ("inkbridge-kind", "immutable-original")
        ∷ (generated_document_key, stable_document_id pdf)
        ∷ []);
    precondition = does_not_exist;
  }

  module _ {S : Type 0} (st : BrokerStorage S) where
    -- A state that does not know its page count is written again with it.
    unfoldable pub register_existing :
        S → StoredObject → (pdf : Bytes) (pages : ℕ) → Fallible (CanonicalDocumentState × S)
    register_existing s existing pdf pages = do
      state ← decode_state ext existing.bytes
      refuse_if (not (state.original_pdf_sha256 == ext.sha256_hex pdf))
          (invalid_event document_id_collision)
      let counted = record state { original_page_count = pages }
      let rewritten =
          state_write ext (state_path (stable_document_id pdf)) counted
            (matches existing.generation)
          >>= λ write.
              map_err conditional_write (st.commit s (write ∷ [])) >>= λ done. ok (counted, done.1)
      if eqb state.original_page_count 0 then rewritten else ok (state, s)

    unfoldable pub register_new :
        S → (name : String) (pdf : Bytes) (pages : ℕ) → Fallible (CanonicalDocumentState × S)
    unfolding original_write
    register_new s name pdf pages = do
      write ←
          state_write ext (state_path (stable_document_id pdf)) (new_state name pdf pages)
            does_not_exist
      committed ← map_err conditional_write (st.commit s (original_write pdf ∷ write ∷ []))
      ok (new_state name pdf pages, committed.1)

    unfoldable pub register_document :
        S → (name : String) (pdf : Bytes) → Fallible (CanonicalDocumentState × S)
    unfolding validate_original_pdf register_existing register_new
    register_document s name pdf = do
      refuse_if (is_blank name) (invalid_event blank_file_name)
      pages ← validate_original_pdf pdf
      found ← map_err storage (st.read s (state_path (stable_document_id pdf)))
      elim found [
        | some existing ↦ register_existing s existing pdf pages
        | none ↦ register_new s name pdf pages
      ]
