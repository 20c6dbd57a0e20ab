-- ===== src/Fields/FormRow.antt =====
-- gui/web/src/components/layout/request-pane.tsx: what the rows of the form-data table and of the
-- table of pairs report. What `FileReader` makes of a file, the part of its data URL after the comma,
-- is a parameter.
use reqlet.Common.{◌≡◌, refl, String, Bool, Option, none, some}
use reqlet.Types.Request.{FormDataItem, ValueType, KeyValuePair, RequestBody, RequestState}
use reqlet.Fields.{Cell, PairField, kv_change, kv_delete}
use reqlet.Fields.Body.{FormPatch, changes_form, deletes_form, edit_body, patch_form}
use reqlet.Hooks.{Confirming, request_delete}

abbrev pub empty_form_patch : FormPatch
empty_form_patch = record {
  id = none;
  enabled = none;
  key = none;
  value_type = none;
  value = none;
  file_name = none;
  file_content = none;
  description = none;
}

pub data FormRowEdit : Type 0 where
  checks : Bool → FormRowEdit
  types_key types_value : String → FormRowEdit
  picks_value_type : ValueType → FormRowEdit
  reads : String → Option String → FormRowEdit

-- The updates that the controls of a row pass on.
abbrev pub row_updates : FormRowEdit → FormPatch
row_updates (checks v) = record empty_form_patch { enabled = some v }
row_updates (types_key s) = record empty_form_patch { key = some s }
row_updates (types_value s) = record empty_form_patch { value = some s }
row_updates (picks_value_type t) = record empty_form_patch {
  value_type = some t;
  value = some "";
  file_name = some none;
  file_content = some none;
}
row_updates (reads name base64) = record empty_form_patch {
  file_name = some (some name);
  file_content = some base64;
}

unfoldable pub form_row_edit : FormRowEdit → FormDataItem → RequestBody → RequestBody
unfolding edit_body
form_row_edit e item body = edit_body body (changes_form item.id (row_updates e))

-- The bin of a row asks before it deletes.
unfoldable pub form_row_delete : FormDataItem → Confirming RequestBody → Confirming RequestBody
unfolding request_delete edit_body
form_row_delete item c = request_delete item.key (λ body. edit_body body (deletes_form item.id)) c

unfoldable pub kv_row_edit : PairField → Cell → KeyValuePair → RequestState → RequestState
unfolding kv_change
kv_row_edit field cell kv r = kv_change field kv.id cell r

unfoldable pub kv_row_delete :
    PairField → KeyValuePair → Confirming RequestState → Confirming RequestState
unfolding request_delete kv_delete
kv_row_delete field kv c = request_delete kv.key (kv_delete field kv.id) c

-- After the kind of a row was picked and a file read, the row holds the file and no text, with its
-- key and its box as they were.
pub file_read :
    (item : FormDataItem) (t : ValueType) (name : String) (base64 : Option String)
    → patch_form
        (row_updates (reads name base64))
        (patch_form (row_updates (picks_value_type t)) item)
      ≡ record item { value_type = t; value = ""; file_name = some name; file_content = base64 }
file_read item t name base64 = refl
