-- ===== src/Broker/Register/Again.antt =====
-- A document that is registered again is found as it was registered.
use inkbridge.Prelude.{
  ℕ, ◌≡◌, refl, ◌∙◌, ap, subst, not, false, some, String, List, [], ◌∷◌, ◌++◌, arith, eqb, ◌==◌,
  Bool-cases, Option-cases, inl, inr, ==_iff, string_key,
}
use inkbridge.Prelude.Fallible.{ok, map_err, refuse_if, >>=-eq-ok, map_err-eq-ok}
use inkbridge.Prelude.Text.{is_blank}
use inkbridge.Broker.Model.{Bytes, CanonicalDocumentState}
use inkbridge.Broker.Storage.{
  StoredObject, does_not_exist, matches, GenerationPrecondition, ConditionalWrite, BrokerStorage,
  CommitLaws,
}
use inkbridge.Broker.Errors.{
  Fallible, invalid_event, storage, conditional_write, unreadable_original, blank_file_name,
  document_id_collision,
}
use inkbridge.Broker.External.{External}
use inkbridge.Broker.Paths.{state_path}
use inkbridge.Broker.Output.{state_write, decode_state}
use inkbridge.Broker.Codec.{
  JsonLaws, state_write-Written, decode_state-schema, decode_state-written,
}
use inkbridge.Broker.Register.{
  validate_original_pdf, stable_document_id, new_state, original_write, register_existing,
  register_new, register_document,
}

module _ {S : Type 0} (st : BrokerStorage S) (ext : External) where
  -- The storage holds the state of a registered document, with its page count.
  pub record Registered (s : S) (pdf : Bytes) (state : CanonicalDocumentState) : Type 0 where
    pub object : StoredObject
    pub found : st.read s (state_path (stable_document_id ext pdf)) ≡ ok (some object)
    pub decoded : decode_state ext object.bytes ≡ ok state
    pub original : state.original_pdf_sha256 ≡ ext.sha256_hex pdf
    pub counted : eqb state.original_page_count 0 ≡ false

  written_Registered :
      CommitLaws st
      → JsonLaws ext
      → (s s' : S) (pdf : Bytes) (state : CanonicalDocumentState) (p : GenerationPrecondition)
        (others : List ConditionalWrite) (w : ConditionalWrite) (objects : List StoredObject)
      → state_write ext (state_path (stable_document_id ext pdf)) state p ≡ ok w
      → st.commit s (others ++ w ∷ []) ≡ ok (objects, s')
      → state.schema_version ≡ 1
      → state.original_pdf_sha256 ≡ ext.sha256_hex pdf
      → eqb state.original_page_count 0 ≡ false
      → Registered s' pdf state
  written_Registered storage_laws json_laws s s' pdf state p others w objects wrote done schema same
        counted =
      let v = state_write-Written ext (state_path (stable_document_id ext pdf)) state p w wrote in
      let (object, found, bytes) = storage_laws.last_applied s s' others w objects done in
      record {
        object = object;
        found = subst (λ q. st.read s' q ≡ ok (some object)) v.path_same found;
        decoded =
            rw (bytes, v.bytes_same)
              (decode_state-written ext json_laws state v.json v.encoded schema);
        original = same;
        counted = counted;
      }

  same_result :
      (s s' : S) (old state : CanonicalDocumentState) (pdf : Bytes)
      → ◌≡◌ {A = Fallible (CanonicalDocumentState × S)} (ok (old, s)) (ok (state, s'))
      → Registered s pdf old
      → Registered s' pdf state
  same_result s s' old state pdf e r =
      let a : old ≡ state = cc e in
      let b : s ≡ s' = cc e in
      subst (λ x. Registered x pdf state) b (subst (λ x. Registered s pdf x) a r)

  existing_Registered :
      CommitLaws st
      → JsonLaws ext
      → (s s' : S) (pdf : Bytes) (pages : ℕ) (existing : StoredObject)
        (state : CanonicalDocumentState)
      → st.read s (state_path (stable_document_id ext pdf)) ≡ ok (some existing)
      → eqb pages 0 ≡ false
      → register_existing ext st s existing pdf pages ≡ ok (state, s')
      → Registered s' pdf state
  unfolding register_existing
  existing_Registered storage_laws json_laws s s' pdf pages existing state found nonzero h =
      let (old, decoded, h₁) = >>=-eq-ok (decode_state ext existing.bytes) _ h in
      let (_, matched, h₂) =
        >>=-eq-ok
          (refuse_if (not (old.original_pdf_sha256 == ext.sha256_hex pdf))
            (invalid_event document_id_collision))
          _ h₁ in
      let same : old.original_pdf_sha256 ≡ ext.sha256_hex pdf =
        ground (arith, ==_iff old.original_pdf_sha256 (ext.sha256_hex pdf)) in
      elim (Bool-cases (eqb old.original_page_count 0)) [
        | inr counted ↦
            let done : ok (old, s) ≡ ok (state, s') = rw counted at h₂ in
            same_result s s' old state pdf done (record {
              object = existing;
              found = found;
              decoded = decoded;
              original = same;
              counted = counted;
            })
        | inl uncounted ↦
            let counted = record old { original_page_count = pages } in
            let h₃ = rw uncounted at h₂ in
            let (w, wrote, h₄) =
              >>=-eq-ok
                (state_write ext (state_path (stable_document_id ext pdf)) counted
                  (matches existing.generation))
                _ h₃ in
            let (c, done, h₅) = >>=-eq-ok (map_err conditional_write (st.commit s (w ∷ []))) _ h₄ in
            same_result c.1 s' counted state pdf h₅ (
              written_Registered storage_laws json_laws s c.1 pdf counted
                (matches existing.generation) [] w c.0 wrote
                (map_err-eq-ok conditional_write (st.commit s (w ∷ [])) done)
                (decode_state-schema ext existing.bytes old decoded) same nonzero)
      ]

  new_Registered :
      CommitLaws st
      → JsonLaws ext
      → (s s' : S) (name : String) (pdf : Bytes) (pages : ℕ) (state : CanonicalDocumentState)
      → eqb pages 0 ≡ false
      → register_new ext st s name pdf pages ≡ ok (state, s')
      → Registered s' pdf state
  unfolding register_new
  new_Registered storage_laws json_laws s s' name pdf pages state nonzero h =
      let next = new_state ext name pdf pages in
      let (w, wrote, h₁) =
        >>=-eq-ok (state_write ext (state_path (stable_document_id ext pdf)) next does_not_exist) _
          h in
      let batch = original_write ext pdf ∷ w ∷ [] in
      let (c, done, h₂) = >>=-eq-ok (map_err conditional_write (st.commit s batch)) _ h₁ in
      same_result c.1 s' next state pdf h₂ (
        written_Registered storage_laws json_laws s c.1 pdf next does_not_exist
          (original_write ext pdf ∷ []) w c.0 wrote
          (map_err-eq-ok conditional_write (st.commit s batch) done) refl refl nonzero)

  pages_of :
      (pdf : Bytes) (pages : ℕ) → validate_original_pdf ext pdf ≡ ok pages → eqb pages 0 ≡ false
  unfolding validate_original_pdf
  pages_of pdf pages h =
      let (n, _, h₁) =
        >>=-eq-ok (map_err (λ e. invalid_event unreadable_original) (ext.load_page_count pdf)) _
          h in
      ground arith

  -- On a storage whose commits keep their contract, and with states that read back as they were
  -- written, a registration that succeeds leaves the storage with the state that it returns, for
  -- the hash of this original and with a page count.
  pub register_document-Registered :
      CommitLaws st
      → JsonLaws ext
      → (s s' : S) (name : String) (pdf : Bytes) (state : CanonicalDocumentState)
      → register_document ext st s name pdf ≡ ok (state, s')
      → Registered s' pdf state
  unfolding register_document
  register_document-Registered storage_laws json_laws s s' name pdf state h =
      let (_, named, h₁) =
        >>=-eq-ok (refuse_if (is_blank name) (invalid_event blank_file_name)) _ h in
      let (pages, valid, h₂) = >>=-eq-ok (validate_original_pdf ext pdf) _ h₁ in
      let (found, read_ok, h₃) =
        >>=-eq-ok (map_err storage (st.read s (state_path (stable_document_id ext pdf)))) _ h₂ in
      let read =
        map_err-eq-ok storage (st.read s (state_path (stable_document_id ext pdf))) read_ok in
      elim (Option-cases found) [
        | inl absent ↦
            new_Registered storage_laws json_laws s s' name pdf pages state
              (pages_of pdf pages valid) (rw absent at h₃)
        | inr (existing, there) ↦
            existing_Registered storage_laws json_laws s s' pdf pages existing state
              (read ∙ ap ok there) (pages_of pdf pages valid) (rw there at h₃)
      ]

  -- After such a registration, registering the same original again, under any name that is not
  -- blank, returns the same state and leaves the storage as it is.
  pub register_twice :
      CommitLaws st
      → JsonLaws ext
      → (s s' : S) (name again : String) (pdf : Bytes) (state : CanonicalDocumentState)
      → is_blank again ≡ false
      → register_document ext st s name pdf ≡ ok (state, s')
      → register_document ext st s' again pdf ≡ ok (state, s')
  unfolding register_document register_existing
  register_twice storage_laws json_laws s s' name again pdf state named h =
      let r = register_document-Registered storage_laws json_laws s s' name pdf state h in
      let (_, _, h₁) = >>=-eq-ok (refuse_if (is_blank name) (invalid_event blank_file_name)) _ h in
      let (pages, valid, _) = >>=-eq-ok (validate_original_pdf ext pdf) _ h₁ in
      rw (
        named,
        valid,
        r.found,
        r.decoded,
        (==_iff state.original_pdf_sha256 (ext.sha256_hex pdf)).1 r.original,
        r.counted,
      )
