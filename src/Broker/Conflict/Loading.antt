-- ===== src/Broker/Conflict/Loading.antt =====
-- What `load_context_from_state` of inkbridge-broker/src/conflict.rs reads.
use inkbridge.Prelude.{
  not, ◌≡◌, refl, subst, inl, inr, some, String, eqb, if◌then◌else◌, ◌==◌, Bool-cases, string_key,
}
use inkbridge.Prelude.Fallible.{ok, map_err, ok_or, refuse_if, >>=-eq-ok, ok_or-eq-ok}
use inkbridge.Broker.Model.{CanonicalDocumentState, revisions_key}
use inkbridge.Broker.Storage.{StoredObject, BrokerStorage}
use inkbridge.Broker.Errors.{
  corrupt_state, invalid_event, missing_object, storage, not_active, input_changed,
  original_unreadable, original_empty,
}
use inkbridge.Broker.External.{External}
use inkbridge.Broker.Process.Accept.{read_original, count_pages, ensure_original_page_count}
use inkbridge.Broker.Conflict.Types.{ConflictContext, strategy_key}
use inkbridge.Broker.Conflict.Context.{
  find_conflict, needs_page_count, load_input, load_context_from_state,
}

-- The context of a conflict that was loaded from a state: that state, but for the number of pages.
pub record LoadedFrom (object : StoredObject) (state : CanonicalDocumentState) (id : String)
    (context : ConflictContext) : Type 0 where
  pub object_same : context.state_object ≡ object
  pub state_same :
      context.state ≡ record state { original_page_count = context.state.original_page_count }
  pub active : find_conflict id state.conflicts ≡ some context.conflict

module _ {S : Type 0} (st : BrokerStorage S) (ext : External) where
  counted_same :
      (s : S) (state next : CanonicalDocumentState)
      → ensure_original_page_count st ext s state ≡ ok next
      → next ≡ record state { original_page_count = next.original_page_count }
  unfolding ensure_original_page_count count_pages
  counted_same s state next h = elim (Bool-cases (eqb state.original_page_count 0)) [
    | inr known ↦
        let same : ok state ≡ ok next = rw known at h in
        let e : state ≡ next = cc same in
        subst (λ n. n ≡ record state { original_page_count = n.original_page_count }) e refl
    | inl unknown ↦
        let (original, _, h₁) = >>=-eq-ok (read_original st ext s state) _ (rw unknown at h) in
        let (pages, _, h₂) =
          >>=-eq-ok
            (map_err (λ e. corrupt_state original_unreadable) (ext.load_page_count original.bytes))
            _ h₁ in
        let (_, _, h₃) = >>=-eq-ok (refuse_if (eqb pages 0) (corrupt_state original_empty)) _ h₂ in
        let e : record state { original_page_count = pages } ≡ next = cc h₃ in
        subst (λ n. n ≡ record state { original_page_count = n.original_page_count }) e refl
  ]

  pub load_context-LoadedFrom :
      (s : S) (object : StoredObject) (state : CanonicalDocumentState) (id : String)
      (context : ConflictContext)
      → load_context_from_state st ext s object state id ≡ ok context
      → LoadedFrom object state id context
  unfolding load_context_from_state load_input
  load_context-LoadedFrom s object state id context h =
      let (c, found, h₁) =
        >>=-eq-ok (ok_or (find_conflict id state.conflicts) (invalid_event not_active)) _ h in
      let (state', counted, h₂) =
        >>=-eq-ok
          (if needs_page_count c then ensure_original_page_count st ext s state else ok state) _
          h₁ in
      let (read, _, h₃) = >>=-eq-ok (map_err storage (st.read s c.preserved_path)) _ h₂ in
      let (input, _, h₄) = >>=-eq-ok (ok_or read (missing_object c.preserved_path)) _ h₃ in
      let (_, _, h₅) =
        >>=-eq-ok
          (refuse_if (not (ext.sha256_hex input.bytes == c.content_sha256))
            (corrupt_state input_changed))
          _ h₄ in
      let whole : record { state_object = object; state = state'; conflict = c; input = input }
          ≡ context =
        cc h₅ in
      let same : state' ≡ record state { original_page_count = state'.original_page_count } =
        elim (Bool-cases (needs_page_count c)) [
          | inl needed ↦ counted_same s state state' (rw needed at counted)
          | inr unneeded ↦
              let kept : ok state ≡ ok state' = rw unneeded at counted in
              let e : state ≡ state' = cc kept in
              subst (λ n. n ≡ record state { original_page_count = n.original_page_count }) e refl
        ] in
      subst (λ x. LoadedFrom object state id x) whole
        (record {
          object_same = refl;
          state_same = same;
          active =
              ok_or-eq-ok (find_conflict id state.conflicts) c (invalid_event not_active) found;
        })
