-- ===== src/CodeGen/Quoting.antt =====
-- How a shell reads the body that `genCurl` quotes, and when the two builders of a URL agree.
use reqlet.Common.{
  ◌≡◌, refl, ap, ◌⊎◌, inl, inr, String, ◌<>◌, Bool, true, false, Option, none, some, List, [], ◌∷◌,
  arith, if◌then◌else◌, nat_eq, Bool-cases, filter, any,
}
use Prim.Native.Char.{Char, code}
use Prim.Native.String as Text
use mathlib.Core.Option
use package.text.Mathlib.TextEquality.{Char-path}
use package.text.Mathlib.TextLemmas.{nil-append, cons-append}
use reqlet.Types.Request.{KeyValuePair}
use reqlet.Query.{is_sent, build_url_with_params}
use reqlet.CodeGen.{build_final_url, is_quote, escape_quotes, quoted}

-- Where a shell is in a word: between single quotes, outside them, or after a backslash there.
pub data Place : Type 0 where
  inside : Place
  outside : Place
  after_backslash : Place

abbrev is_backslash : Char → Bool
is_backslash c = nat_eq (code c) b'\\'

-- The argument that a shell makes of one word of quoted parts and escaped characters; `none` where
-- the word does not end, or a bare character stands outside the quotes.
unfoldable pub shell_word : Place → String → Option String
shell_word inside Text.[] = none
shell_word inside (Text.◌∷◌ c s) =
    let ended = shell_word outside s in
    let longer = Option.map (λ w. Text.◌∷◌ c w) (shell_word inside s) in
    if is_quote c then ended else longer
shell_word outside Text.[] = some ""
shell_word outside (Text.◌∷◌ c s) =
    let opened = shell_word inside s in
    let escaped = shell_word after_backslash s in
    if is_quote c then opened else if is_backslash c then escaped else none
shell_word after_backslash Text.[] = none
shell_word after_backslash (Text.◌∷◌ c s) = Option.map (λ w. Text.◌∷◌ c w) (shell_word outside s)

shell_word-escape_quotes :
    (body : String) → shell_word inside (escape_quotes body <> "'") ≡ some body
unfolding shell_word escape_quotes
shell_word-escape_quotes Text.[] = refl
shell_word-escape_quotes (Text.◌∷◌ c body) = elim (Bool-cases (is_quote c)) [
  | inl e ↦
      let is : c ≡ "'" = Char-path c "'" (ground arith) in
      rw e (
        rw (cons-append, cons-append, cons-append, cons-append, is)
          (ap (Option.map (λ w. Text.◌∷◌ "'" w)) (shell_word-escape_quotes body)))
  | inr e ↦ rw e (rw cons-append (rw (e, shell_word-escape_quotes body) refl))
]

-- A shell reads the quoted body as one argument, and that argument is the body.
pub shell_word-quoted : (body : String) → shell_word outside (quoted body) ≡ some body
unfolding shell_word
shell_word-quoted body = rw (cons-append, nil-append) (shell_word-escape_quotes body)

filter-cases :
    (params : List KeyValuePair)
    → ((filter is_sent params ≡ []) × (any is_sent params ≡ false))
      ⊎ ((p : KeyValuePair) × (ps : List KeyValuePair) × (filter is_sent params ≡ p ∷ ps)
          × (any is_sent params ≡ true))
filter-cases [] = inl (refl, refl)
filter-cases (p ∷ params) = elim (Bool-cases (is_sent p)) [
  | inl e ↦ inr (p, filter is_sent params, rw e refl, rw e refl)
  | inr e ↦ elim (filter-cases params) [
    | inl (f, g) ↦ inl (rw e f, rw e g)
    | inr (q, qs, f, g) ↦ inr (q, qs, rw e f, rw e g)
  ]
]

-- The URL of a snippet is the one that the request's parameters are written into, where a parameter
-- is enabled and has a key; otherwise it is the URL as it stands, with any query in it.
pub build_final_url_lem :
    (url : String) (params : List KeyValuePair)
    → build_final_url url params
      ≡ (if any is_sent params then build_url_with_params url params else url)
unfolding build_final_url build_url_with_params
build_final_url_lem url params = elim (filter-cases params) [
  | inl (e, none_sent) ↦ rw (build_final_url, e, none_sent) refl
  | inr (p, ps, e, sent) ↦ rw (build_final_url, e, sent) refl
]
