-- ===== src/Api/Files.antt =====
-- gui/web/src/lib/api.ts: the import of a file and the export to one. `fetch` is a parameter, as is
-- what the file holds; a download is its name and content.
use reqlet.Common.{ℕ, String, ◌<>◌, not, Option, none, some, [], ◌∷◌, if◌then◌else◌, nat_eq}
use Prim.Native.Char.{code}
use Prim.Native.String.{[], ◌∷◌}
use mathlib.Core.Option
use reqlet.Backend.{
  Json, parsed, malformed, ErrorBody, Answer, unreachable, reply, other_error, Result, returns,
  throws, is_ok, default_to, value_of_json,
}

abbrev pub import_message : Json ErrorBody → String
import_message (parsed err) = default_to "Request failed" err.error
import_message (malformed reason) = "Request failed"

abbrev pub imported : {A : Type 0} → Answer A → Result A
imported (unreachable reason) = throws (other_error reason)
imported (reply status err value) =
    if not (is_ok status) then throws (other_error (import_message err)) else value_of_json value

-- `api.collections.import`, with the path of the call and the text that is sent
unfoldable pub import_collection : {A : Type 0} → (String → String → Answer A) → String → Result A
import_collection fetch text = imported (fetch "/api/collections/import" text)

unfoldable pub import_environment : {A : Type 0} → (String → String → Answer A) → String → Result A
import_environment fetch text = imported (fetch "/api/environments/import" text)

-- A reply to an export: its status, its header `Content-Disposition` if it has one, and its content.
pub data ExportAnswer : Type 0 where
  failed : String → ExportAnswer
  answered : ℕ → Option String → String → ExportAnswer

pub record Download : Type 0 where
  pub filename : String
  pub content : String

-- What follows a prefix.
unfoldable pub after_prefix : String → String → Option String
after_prefix [] s = some s
after_prefix (c ∷ p) [] = none
after_prefix (c ∷ p) (d ∷ s) =
    let rest = after_prefix p s in if nat_eq (code c) (code d) then rest else none

-- `([^"]+)"`: what stands before the next quote, if that is not empty.
unfoldable pub quoted_part : String → Option String
quoted_part [] = none
quoted_part (c ∷ s) =
    let rest = Option.map (λ p. c ∷ p) (quoted_part s) in
    if nat_eq (code c) b'"' then some "" else rest

abbrev pub not_empty : Option String → Option String
not_empty none = none
not_empty (some []) = none
not_empty (some (c ∷ s)) = some (c ∷ s)

abbrev pub name_at : Option String → Option String
name_at none = none
name_at (some s) = not_empty (quoted_part s)

abbrev pub first_of : Option String → Option String → Option String
first_of none rest = rest
first_of (some s) rest = some s

-- `.match(/filename="([^"]+)"/)?.[1]`
unfoldable pub filename_in : String → Option String
unfolding after_prefix quoted_part
filename_in [] = none
filename_in (c ∷ s) =
    let rest = filename_in s in first_of (name_at (after_prefix "filename=\"" (c ∷ s))) rest

abbrev pub filename_of : String → Option String → String
filename_of fallback none = fallback
filename_of fallback (some header) = default_to fallback (filename_in header)

abbrev pub exported : String → ExportAnswer → Result Download
exported fallback (failed reason) = throws (other_error reason)
exported fallback (answered status header blob) =
    if not (is_ok status)
    then throws (other_error "Export failed")
    else returns (record { filename = filename_of fallback header; content = blob })

unfoldable pub export_collection : (String → ExportAnswer) → String → Result Download
unfolding filename_in
export_collection fetch id =
    exported "collection.postman_collection.json" (fetch ("/api/collections/" <> (id <> "/export")))

unfoldable pub export_environment : (String → ExportAnswer) → String → Result Download
unfolding filename_in
export_environment fetch id =
    exported "environment.postman_environment.json"
      (fetch ("/api/environments/" <> (id <> "/export")))
