-- ===== src/Broker/Paths.antt =====
-- The object paths of inkbridge-broker/src/broker.rs.
use Prim.Native.Char.{code}
use Prim.Native.String.{◌++◌ as text_append}
use inkbridge.Prelude.{◌||◌, none, some, String, [], ◌∷◌, eqb, if◌then◌else◌, ◌==◌, string_key}
use inkbridge.Prelude.Text
use inkbridge.Prelude.Text.{is_ascii_alphanumeric, concat, take_chars, strip_suffix}
use inkbridge.Broker.Model.{CanonicalDocumentState}
use inkbridge.Broker.External.{External}

readable_characters : String → String
readable_characters String.[] = ""
readable_characters (String.◌∷◌ c s) =
    if is_ascii_alphanumeric (code c) || (eqb (code c) b'-' || eqb (code c) b'_')
    then String.◌∷◌ c (readable_characters s)
    else text_append "_" (readable_characters s)

unfoldable pub readable_segment : String → String
unfolding readable_characters
readable_segment value =
    let segment = readable_characters value in if segment == "" then "item" else segment

-- The last of `rsplit(['/', '\\'])`.
base_name : String → String → String
base_name acc String.[] = acc
base_name acc (String.◌∷◌ c s) =
    base_name
      (if eqb (code c) b'/' || eqb (code c) 0x5c then "" else text_append acc (String.◌∷◌ c "")) s

unfoldable pub safe_pdf_file_name : String → String
unfolding base_name readable_segment
safe_pdf_file_name original_file_name =
    let base = base_name "" original_file_name in
    let stem : String = elim (strip_suffix ".pdf" base) [
      | some stem ↦ stem
      | none ↦ elim (strip_suffix ".PDF" base) [ some stem ↦ stem | none ↦ base ]
    ] in
    concat (readable_segment stem ∷ ".pdf" ∷ [])

unfoldable pub original_path : String → String
original_path document_id = concat ("Originals/" ∷ document_id ∷ "/original.pdf" ∷ [])

unfoldable pub state_path : String → String
state_path document_id = concat ("Canonical/" ∷ document_id ∷ "/state.json" ∷ [])

unfoldable pub boox_view_path : CanonicalDocumentState → String
unfolding safe_pdf_file_name
boox_view_path state =
    concat
      ("BOOX_Folder/" ∷ state.document_id ∷ "/" ∷ safe_pdf_file_name state.original_file_name ∷ [])

module _ (ext : External) where
  -- `sha256_hex(event_id.as_bytes())` of the text's UTF-8.
  unfoldable pub event_path_segment : String → String
  unfolding readable_segment
  event_path_segment event_id =
      let prefix = take_chars 48 (readable_segment event_id) in
      concat (prefix ∷ "-" ∷ ext.sha256_hex (Text.utf8 event_id) ∷ [])

  unfoldable pub supernote_manifest_path : String → String → String
  unfolding event_path_segment
  supernote_manifest_path document_id event_id = concat (
      "Supernote_Folder/"
      ∷ document_id
      ∷ "/incoming/"
      ∷ event_path_segment event_id
      ∷ ".operations.json"
      ∷ [])
