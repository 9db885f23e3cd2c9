-- ===== src/Tests/Register.antt =====
-- `register_document` on an empty storage.
use inkbridge.Prelude.{◌≡◌, refl, sym, ap, false, [], ◌∷◌}
use inkbridge.Prelude.Fallible.{ok, err}
use inkbridge.Prelude.Text.{is_blank, concat, decimal}
use inkbridge.Broker.Model.{Bytes, CanonicalDocumentState}
use inkbridge.Broker.Json.{number}
use inkbridge.Broker.Storage.Memory.{MemoryStorage, memory_storage, new, read, commit}
use inkbridge.Broker.Storage.Atomic.{memory_storage-CommitLaws}
use inkbridge.Broker.External.{External}
use inkbridge.Broker.Output.{state_write}
use inkbridge.Broker.Paths.{original_path, state_path}
use inkbridge.Broker.Codec.{JsonLaws}
use inkbridge.Broker.Register.{stable_document_id, new_state, register_document}
use inkbridge.Broker.Register.Again.{Registered, register_document-Registered, register_twice}
use inkbridge.Tests.Fixtures.{outside, state_discrete, encode, encode_one}

abbrev pdf : Bytes
pdf = 1 ∷ 2 ∷ 3 ∷ []

abbrev fresh : CanonicalDocumentState
fresh = new_state outside "notes.pdf" pdf 2

-- The fixture's world, with a JSON for the fresh state.
abbrev registry : External
registry = record outside {
  state_to_json = λ state. encode (state_discrete state fresh);
  state_from_json = λ v. ok fresh;
}

registry-JsonLaws : JsonLaws registry
unfolding decimal
registry-JsonLaws = record {
  value = λ state. number "1";
  parses = λ state json h. rw ((encode_one (state_discrete state fresh) json h).0) refl;
  reads_back = λ state json h. ap ok (sym ((encode_one (state_discrete state fresh) json h).1));
  writes_kinds = λ state. tt;
}

unfoldable after : MemoryStorage
unfolding register_document stable_document_id original_path state_path concat decimal is_blank read
    commit state_discrete state_write
after = elim (register_document registry memory_storage new "notes.pdf" pdf) [
  | ok r ↦ r.1
  | err e ↦ new
]

registers : register_document registry memory_storage new "notes.pdf" pdf ≡ ok (fresh, after)
unfolding after register_document stable_document_id original_path state_path concat decimal
    is_blank read commit state_discrete state_write
registers = refl

register_document-Registered_example : Registered memory_storage registry after pdf fresh
register_document-Registered_example =
    register_document-Registered memory_storage registry memory_storage-CommitLaws registry-JsonLaws
      new after "notes.pdf" pdf fresh registers

named : is_blank "other.pdf" ≡ false
unfolding is_blank
named = refl

register_twice_example :
    register_document registry memory_storage after "other.pdf" pdf ≡ ok (fresh, after)
register_twice_example =
    register_twice memory_storage registry memory_storage-CommitLaws registry-JsonLaws new after
      "notes.pdf" "other.pdf" pdf fresh named registers
