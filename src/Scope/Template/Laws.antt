-- ===== src/Scope/Template/Laws.antt =====
-- Reading a text as pieces and writing it again (`replace` in use-variable-scope.ts).
use reqlet.Scope.Template.{
  starts_with_close, is_open, is_close, read_key, match_at, chars, scan, pieces, token, expand,
}
use Prim.Native.Char.{Char}
use Prim.Native.String.{[], ◌∷◌}
use mathlib.Core.Path.{subst}
use package.text.Mathlib.TextEquality.{Char-path}
use package.text.Mathlib.TextLemmas.{nil-append, cons-append, append_assoc}
use reqlet.Common.{
  ℕ, zero, suc, ◌+◌, ◌≡◌, refl, ap, sym, ◌∙◌, String, ◌<>◌, true, none, some, arith, Bool-cases,
  Option-cases, inl, inr,
}

pub is_open-eq : (c : Char) → is_open c ≡ true → c ≡ "{"
is_open-eq c h = Char-path c "{" (ground arith)

is_close-eq : (c : Char) → is_close c ≡ true → c ≡ "}"
is_close-eq c h = Char-path c "}" (ground arith)

unfoldable pub drop_chars : ℕ → String → String
drop_chars zero s = s
drop_chars (suc n) [] = []
drop_chars (suc n) (c ∷ s) = drop_chars n s

pub braces-append : (s : String) → ("{{" <> s ≡ "{" ∷ ("{" ∷ s)) × ("}}" <> s ≡ "}" ∷ ("}" ∷ s))
braces-append s = (two "{" s, two "}" s)
  where
    two : (c : Char) (s : String) → (c ∷ (c ∷ [])) <> s ≡ c ∷ (c ∷ s)
    two c s = simp (cons-append, nil-append)

two_closes :
    (c : Char) (s : String)
    → is_close c ≡ true
    → starts_with_close s ≡ true
    → c ∷ s ≡ "" <> ("}}" <> drop_chars 1 s)
unfolding drop_chars
two_closes c [] h k = cc
two_closes c (d ∷ s) h k =
    rw (is_close-eq c h, is_close-eq d k) (sym (nil-append ("}}" <> s) ∙ (braces-append s).1))

-- A key that is read stands at the start of the text, and two closing braces after it.
read_key_sound :
    (s key : String)
    → read_key s ≡ some key
    → s ≡ key <> ("}}" <> drop_chars (suc (suc (chars key))) s)
unfolding read_key drop_chars chars
read_key_sound [] key h = cc
read_key_sound (c ∷ s) key h = elim (Bool-cases (is_close c)) [
  | inl e ↦ elim (Bool-cases (starts_with_close s)) [
    | inl k ↦
        let same : "" ≡ key = ground arith in
        subst (λ t. c ∷ s ≡ t <> ("}}" <> drop_chars (suc (suc (chars t))) (c ∷ s))) same
          (two_closes c s e k)
    | inr k ↦ ground arith
  ]
  | inr e ↦ elim (Bool-cases (is_open c)) [
    | inl k ↦ ground arith
    | inr k ↦ elim (Option-cases (read_key s)) [
      | inl z ↦ ground arith
      | inr (rest, z) ↦
          let same : c ∷ rest ≡ key = ground arith in
          subst (λ t. c ∷ s ≡ t <> ("}}" <> drop_chars (suc (suc (chars t))) (c ∷ s))) same
            (rw cons-append (ap (λ r. c ∷ r) (read_key_sound s rest z)))
    ]
  ]
]

-- A match at the start of a text is the token of its key.
match_at_sound :
    (s key : String)
    → match_at s ≡ some key
    → s ≡ token key <> drop_chars (suc (suc (suc (suc (chars key))))) s
unfolding match_at drop_chars
match_at_sound [] key h = cc
match_at_sound (c ∷ []) key h = ground arith
match_at_sound (c ∷ d ∷ s) key h =
    let first : is_open c ≡ true = ground arith in
    let second : is_open d ≡ true = ground arith in
    let read : read_key s ≡ some key = ground arith in
    let rest = drop_chars (suc (suc (chars key))) s in
    rw (is_open-eq c first, is_open-eq d second)
      (sym (
        append_assoc "{{" (key <> "}}") rest
        ∙ (braces-append ((key <> "}}") <> rest)).0
        ∙ ap (λ r. "{" ∷ ("{" ∷ r)) (append_assoc key "}}" rest ∙ sym (read_key_sound s key read))))

expand-scan-none : (skip : ℕ) (s : String) → expand (λ key. none) (scan skip s) ≡ drop_chars skip s
unfolding expand scan drop_chars
expand-scan-none zero [] = refl
expand-scan-none (suc skip) [] = refl
expand-scan-none (suc skip) (c ∷ s) = expand-scan-none skip s
expand-scan-none zero (c ∷ s) = elim (Option-cases (match_at (c ∷ s))) [
  | inl e ↦ rw (e, scan) (ap (λ r. c ∷ r) (expand-scan-none zero s))
  | inr (key, e) ↦
      rw (e, scan)
        (let three : chars key + 3 ≡ suc (suc (suc (chars key))) = omega arith in
          rw three
            (ap (λ r. token key <> r) (expand-scan-none _ s) ∙ sym (match_at_sound (c ∷ s) key e)))
]

-- A text whose matches are all left as they are is the text itself.
pub expand-pieces-none : (s : String) → expand (λ key. none) (pieces s) ≡ s
unfolding pieces drop_chars
expand-pieces-none s = expand-scan-none 0 s
