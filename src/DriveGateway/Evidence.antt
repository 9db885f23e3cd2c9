-- ===== src/DriveGateway/Evidence.antt =====
-- The path of an uploaded input is one that `DriveGatewayCheckpoint::validate` of
-- inkbridge-drive-gateway/src/model.rs takes as evidence.
use inkbridge.Prelude.{
  Bool, true, false, ◌||◌, ◌≡◌, refl, sym, ◌∙◌, ap, arith, inl, inr, Bool-cases, String, [], ◌∷◌,
}
use Prim.Native.String.{◌++◌}
use text.Mathlib.Text.{starts_with}
use text.Mathlib.TextLemmas.{nil-append, cons-append, append_assoc}
use Prim.Native.Char.{code}
use text.Mathlib.TextPositions.{starts_with-append}
use inkbridge.Prelude.Text.{concat, contains_text, is_blank, is_whitespace, utf8}
use inkbridge.Broker.Model.{Bytes, DeviceSide, boox, supernote, DevicePayloadKind}
use inkbridge.DriveGateway.Checkpoint.{folder_prefix, document_segment}
use inkbridge.DriveGateway.Events.{side_folder, payload_extension, input_path}

or_left : (a b : Bool) → a ≡ true → (a || b) ≡ true
or_left a b h = ground arith

or_right : (a b : Bool) → b ≡ true → (a || b) ≡ true
or_right a b h = ground arith

contains_text-here : (s part : String) → starts_with s part ≡ true → contains_text s part ≡ true
unfolding contains_text
contains_text-here String.[] part h = h
contains_text-here (String.◌∷◌ c s) part h =
    or_left (starts_with (String.◌∷◌ c s) part) (contains_text s part) h

contains_text-append :
    (before s part : String) → contains_text s part ≡ true → contains_text (before ++ s) part ≡ true
unfolding contains_text
contains_text-append String.[] s part h = rw (nil-append s) h
contains_text-append (String.◌∷◌ c before) s part h = rw (cons-append c before s) (
    or_right (starts_with (String.◌∷◌ c (before ++ s)) part) (contains_text (before ++ s) part)
      (contains_text-append before s part h))

is_blank-append : (a b : String) → is_blank a ≡ false → is_blank (a ++ b) ≡ false
unfolding is_blank
is_blank-append String.[] b h = cc
is_blank-append (String.◌∷◌ c a) b h =
    rw (cons-append c a b) (elim (Bool-cases (is_whitespace (code c))) [
      | inl space ↦ rw space (is_blank-append a b (rw space at h))
      | inr letter ↦ rw letter refl
    ])

-- A path of the folder, the document and the rest.
segment_inside :
    (document_id rest : String)
    → contains_text ("/" ++ (document_id ++ ("/drive/" ++ rest))) (document_segment document_id)
      ≡ true
unfolding document_segment concat contains_text
segment_inside document_id rest =
    let segment = "/" ++ (document_id ++ "/") in
    let inner : (segment ++ ("drive/" ++ rest)) ≡ ("/" ++ (document_id ++ ("/drive/" ++ rest))) =
      append_assoc "/" (document_id ++ "/") ("drive/" ++ rest)
      ∙ ap (λ s. "/" ++ s)
          (append_assoc document_id "/" ("drive/" ++ rest)
            ∙ ap (λ s. document_id ++ s) (sym (append_assoc "/" "drive/" rest))) in
    contains_text-here ("/" ++ (document_id ++ ("/drive/" ++ rest))) segment
      (ap (λ s. starts_with s segment) (sym inner) ∙ starts_with-append segment ("drive/" ++ rest))

in_folder :
    (folder slashed rest : String)
    → (folder ++ "/") ≡ slashed
    → starts_with (folder ++ ("/" ++ rest)) slashed ≡ true
in_folder folder slashed rest e =
    ap (λ s. starts_with s slashed) (sym (append_assoc folder "/" rest) ∙ ap (λ s. s ++ rest) e)
    ∙ starts_with-append slashed rest

module _ (sha256_hex : Bytes → String) where
  pub input_path-prefix :
      (source : DeviceSide) (kind : DevicePayloadKind) (document_id event_id : String)
      → starts_with (input_path sha256_hex source kind document_id event_id) (folder_prefix source)
        ≡ true
  unfolding input_path concat
  input_path-prefix boox kind document_id event_id = in_folder "BOOX_Folder" "BOOX_Folder/" _ refl
  input_path-prefix supernote kind document_id event_id =
      in_folder "Supernote_Folder" "Supernote_Folder/" _ refl

  pub input_path-segment :
      (source : DeviceSide) (kind : DevicePayloadKind) (document_id event_id : String)
      → contains_text
          (input_path sha256_hex source kind document_id event_id)
          (document_segment document_id)
        ≡ true
  unfolding input_path concat document_segment
  input_path-segment source kind document_id event_id =
      contains_text-append (side_folder source) _ (document_segment document_id)
        (segment_inside document_id _)

  pub input_path-not_blank :
      (source : DeviceSide) (kind : DevicePayloadKind) (document_id event_id : String)
      → is_blank (input_path sha256_hex source kind document_id event_id) ≡ false
  unfolding input_path concat is_blank
  input_path-not_blank boox kind document_id event_id =
      is_blank-append "BOOX_Folder"
        (concat (
          "/"
          ∷ document_id
          ∷ "/drive/"
          ∷ sha256_hex (utf8 event_id)
          ∷ "."
          ∷ payload_extension boox kind
          ∷ []))
        refl
  input_path-not_blank supernote kind document_id event_id =
      is_blank-append "Supernote_Folder"
        (concat (
          "/"
          ∷ document_id
          ∷ "/drive/"
          ∷ sha256_hex (utf8 event_id)
          ∷ "."
          ∷ payload_extension supernote kind
          ∷ []))
        refl
