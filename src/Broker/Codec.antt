-- ===== src/Broker/Codec.antt =====
-- What inkbridge-broker relies on of serde_json: a state that it has written reads back as itself.
use inkbridge.Prelude.{◌≡◌, not, String, [], ◌∷◌, ◌++◌, eqb, arith}
use inkbridge.Prelude.Fallible.{ok, map_err, refuse_if, >>=-eq-ok, map_err-eq-ok}
use inkbridge.Broker.Model.{Bytes, CanonicalDocumentState, state_schema_version}
use inkbridge.Broker.Json.{Json, migrate_legacy_conflict_payload_kinds}
use inkbridge.Broker.Json.Migration.{IsMigrated, migrate_same}
use inkbridge.Broker.Storage.{GenerationPrecondition, ConditionalWrite}
use inkbridge.Broker.Errors.{corrupt_json, corrupt_state, state_schema}
use inkbridge.Broker.External.{External}
use inkbridge.Broker.Output.{state_write, decode_state, add_newline}

-- `value` is the JSON value of a state (`serde_json::to_value`). A written state parses to it, also
-- with a newline at the end; it deserialises to the state; and every field of a conflict is written.
pub record JsonLaws (ext : External) : Type 0 where
  pub value : CanonicalDocumentState → Json
  pub parses :
      (state : CanonicalDocumentState) (json : Bytes)
      → ext.state_to_json state ≡ ok json
      → ext.json_from_slice (json ++ 10 ∷ []) ≡ ok (value state)
  pub reads_back :
      (state : CanonicalDocumentState) (json : Bytes)
      → ext.state_to_json state ≡ ok json
      → ext.state_from_json (value state) ≡ ok state
  pub writes_kinds : (state : CanonicalDocumentState) → IsMigrated (value state)

-- What `state_write` puts into its write.
pub record Written (ext : External) (path : String) (state : CanonicalDocumentState)
    (p : GenerationPrecondition) (w : ConditionalWrite) : Type 0 where
  pub json : Bytes
  pub encoded : ext.state_to_json state ≡ ok json
  pub path_same : w.path ≡ path
  pub bytes_same : w.bytes ≡ json ++ 10 ∷ []
  pub precondition_same : w.precondition ≡ p

module _ (ext : External) where
  pub state_write-Written :
      (path : String) (state : CanonicalDocumentState) (p : GenerationPrecondition)
      (w : ConditionalWrite)
      → state_write ext path state p ≡ ok w
      → Written ext path state p w
  unfolding state_write add_newline
  state_write-Written path state p w h =
      let (json, encoded, h₁) = >>=-eq-ok (map_err corrupt_json (ext.state_to_json state)) _ h in
      record {
        json = json;
        encoded = map_err-eq-ok corrupt_json (ext.state_to_json state) encoded;
        path_same = ground arith;
        bytes_same = ground arith;
        precondition_same = ground arith;
      }

  -- A decoded state has the current schema version.
  pub decode_state-schema :
      (bytes : Bytes) (state : CanonicalDocumentState)
      → decode_state ext bytes ≡ ok state
      → state.schema_version ≡ state_schema_version
  unfolding decode_state
  decode_state-schema bytes state h =
      let (v, _, h₁) = >>=-eq-ok (map_err corrupt_json (ext.json_from_slice bytes)) _ h in
      let (decoded, _, h₂) =
        >>=-eq-ok
          (map_err corrupt_json (ext.state_from_json (migrate_legacy_conflict_payload_kinds v))) _
          h₁ in
      let (_, checked, h₃) =
        >>=-eq-ok
          (refuse_if (not (eqb decoded.schema_version state_schema_version))
            (corrupt_state state_schema))
          _ h₂ in
      ground arith

  -- A state of the current schema version that was written is decoded as itself.
  pub decode_state-written :
      (laws : JsonLaws ext) (state : CanonicalDocumentState) (json : Bytes)
      → ext.state_to_json state ≡ ok json
      → state.schema_version ≡ state_schema_version
      → decode_state ext (json ++ 10 ∷ []) ≡ ok state
  unfolding decode_state
  decode_state-written laws state json encoded current = rw (
    laws.parses state json encoded,
    migrate_same (laws.value state) (laws.writes_kinds state),
    laws.reads_back state json encoded,
    current,
  )
