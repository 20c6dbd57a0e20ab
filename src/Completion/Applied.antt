-- ===== src/Completion/Applied.antt =====
-- gui/web/src/components/ui/variable-input.tsx: the text after a completion.
use reqlet.Common.{
  ℕ, ◌+◌, ◌≡◌, refl, sym, ap, ◌∙◌, ◌↔◌, inl, inr, String, ◌<>◌, false, none, some, [], ◌∷◌, arith,
  Bool-cases, Option-cases,
}
use Prim.Native.String.{[], ◌∷◌}
use mathlib.Core.Option
use mathlib.Core.Option.{some-injective}
use package.text.Mathlib.TextLemmas.{nil-append, cons-append, append_assoc}
use reqlet.Scope.Template.{chars, token}
use reqlet.Scope.Template.Laws.{drop_chars}
use reqlet.Completion.{
  first_chars, last_open, has_close, Context, context_of, get_autocomplete_context, without_close,
  completed, apply_completion,
}
use reqlet.Completion.LastOpen.{has_open, last_open_lem, last_open_last, last_open-found}

first_chars-append : (s t : String) → first_chars (chars s) (s <> t) ≡ s
unfolding first_chars chars
first_chars-append [] t = refl
first_chars-append (c ∷ s) t = rw (cons-append c s t) (ap (λ r. c ∷ r) (first_chars-append s t))

chars-append : (s t : String) → chars (s <> t) ≡ chars s + chars t
unfolding chars
chars-append [] t = rw (nil-append t) (omega arith)
chars-append (c ∷ s) t = rw (cons-append c s t) (omega (arith, chars-append s t))

chars-token : (key : String) → chars (token key) ≡ 2 + (chars key + 2)
unfolding chars
chars-token key = chars-append "{{" (key <> "}}") ∙ ap (λ n. 2 + n) (chars-append key "}}")

-- What the completion makes of a context.
completed_lem :
    (key after : String) (ctx : Context) (v : String) (pos : ℕ)
    → completed key after ctx ≡ (v, pos)
    → (v ≡ ctx.before <> (token key <> without_close after))
      × (first_chars pos v ≡ ctx.before <> token key)
completed_lem key after ctx v pos h =
    let text : v ≡ ctx.before <> (token key <> without_close after) = sym (ap (λ t. t.0) h) in
    let place : pos ≡ chars (ctx.before <> token key) =
      sym (ap (λ t. t.1) h) ∙ omega (arith, chars-append ctx.before (token key), chars-token key) in
    (
      text,
      rw (text, place, ← append_assoc ctx.before (token key) (without_close after))
          (first_chars-append (ctx.before <> token key) (without_close after)),
    )

-- The completion that is made was made of the last braces.
made_lem :
    (value key v : String) (cursor pos : ℕ)
    → apply_completion value cursor key ≡ some (v, pos)
    → (before partial : String) × (first_chars cursor value ≡ before <> ("{{" <> partial))
      × (has_open ("{" ∷ partial) ≡ false)
      × (has_close partial ≡ false)
      × (v ≡ before <> (token key <> without_close (drop_chars cursor value)))
      × (first_chars pos v ≡ before <> token key)
unfolding apply_completion get_autocomplete_context
made_lem value key v cursor pos h = elim (Option-cases (last_open (first_chars cursor value))) [
  | inl e ↦
      let is : Option.map (completed key (drop_chars cursor value))
            (context_of (last_open (first_chars cursor value)))
          ≡ none =
        rw e refl in
      let clash : ⊥ = cc in absurd clash
  | inr ((before, partial), e) ↦ elim (Bool-cases (has_close partial)) [
    | inl c ↦
        let is : Option.map (completed key (drop_chars cursor value))
              (context_of (last_open (first_chars cursor value)))
            ≡ none =
          rw (e, c) refl in
        let clash : ⊥ = cc in absurd clash
    | inr c ↦
        let ctx : Context = record { partial = partial; before = before } in
        let is : Option.map (completed key (drop_chars cursor value))
              (context_of (last_open (first_chars cursor value)))
            ≡ some (completed key (drop_chars cursor value) ctx) =
          rw (e, c) refl in
        let made : completed key (drop_chars cursor value) ctx ≡ (v, pos) =
          some-injective _ _ (sym is ∙ h) in
        let (text, place) = completed_lem key (drop_chars cursor value) ctx v pos made in
        (
          before,
          partial,
          last_open_lem (first_chars cursor value) before partial e,
          last_open_last (first_chars cursor value) before partial e,
          c,
          text,
          place,
        )
  ]
]

found_lem :
    (value key before partial : String) (cursor : ℕ)
    → first_chars cursor value ≡ before <> ("{{" <> partial)
    → has_open ("{" ∷ partial) ≡ false
    → has_close partial ≡ false
    → apply_completion value cursor key
      ≡ some (
        before <> (token key <> without_close (drop_chars cursor value)),
        chars (before <> token key),
      )
unfolding apply_completion get_autocomplete_context
found_lem value key before partial cursor text no_open no_close =
    let ctx : Context = record { partial = partial; before = before } in
    let after = drop_chars cursor value in
    let found : last_open (first_chars cursor value) ≡ some (before, partial) =
      ap last_open text ∙ last_open-found before partial no_open in
    let in_context : context_of (last_open (first_chars cursor value)) ≡ some ctx =
      ap context_of found ∙ rw no_close refl in
    let place : chars before + 2 + chars key + 2 ≡ chars (before <> token key) =
      omega (arith, chars-append before (token key), chars-token key) in
    ap (Option.map (completed key after)) in_context
    ∙ ap (λ n. some (before <> (token key <> without_close after), n)) place

-- A completion gives a text and a place for the cursor if and only if the text before the cursor ends
-- in "{{" and a part that has no "}}" and in which, from the second of these braces on, no other "{{"
-- begins, the new text has the name in braces in place of the braces and the part, followed by the
-- rest of the text without closing braces that it began with, and the place is right after the name
-- in braces, as a number and in the new text.
pub apply_completion_lem :
    (value key v : String) (cursor pos : ℕ)
    → (apply_completion value cursor key ≡ some (v, pos)) ↔ (
        (before partial : String) × (first_chars cursor value ≡ before <> ("{{" <> partial))
        × (has_open ("{" ∷ partial) ≡ false)
        × (has_close partial ≡ false)
        × (v ≡ before <> (token key <> without_close (drop_chars cursor value)))
        × (pos ≡ chars (before <> token key))
        × (first_chars pos v ≡ before <> token key))
apply_completion_lem value key v cursor pos = (
  λ h.
      let (before, partial, text, no_open, no_close, new, place) =
        made_lem value key v cursor pos h in
      (
        before,
        partial,
        text,
        no_open,
        no_close,
        new,
        ap (λ t. t.1)
            (some-injective _ _
              (sym h ∙ found_lem value key before partial cursor text no_open no_close)),
        place,
      ),
  λ all.
      let (before, partial, text, no_open, no_close, new, at, place) = all in
      found_lem value key before partial cursor text no_open no_close ∙ rw (new, at) refl,
)
