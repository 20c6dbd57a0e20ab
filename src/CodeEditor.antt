-- ===== src/CodeEditor.antt =====
-- gui/web/src/components/ui/code-editor.tsx: the completions that the editor offers for a variable.
-- The line up to the cursor comes from the editor; columns count code points.
use reqlet.Common.{
  ℕ, ◌-◌, ◌≡◌, refl, sym, ap, ◌∙◌, inl, inr, String, ◌<>◌, Bool, true, false, Option, none, some,
  List, [], ◌∷◌, map, if◌then◌else◌, Bool-cases, Option-cases, filter,
}
use reqlet.Common.Dict.{Dict, lookup}
use Prim.Native.String.{[], ◌∷◌}
use reqlet.Scope.Template.{is_open, is_close, chars}
use package.text.Mathlib.TextLemmas.{nil-append, cons-append}
use reqlet.Completion.{double, starts_with}
use reqlet.Completion.LastOpen.{double-is_open}

abbrev pub has_brace : String → Bool
has_brace [] = false
has_brace (c ∷ s) = let rest = has_brace s in if is_close c then true else rest

abbrev pub first_match : Option String → Option String → Option String
first_match none rest = rest
first_match (some tail) rest = if has_brace tail then rest else some tail

-- The leftmost match of `/\{\{([^}]*)$/`, as its group.
unfoldable pub partial_match : String → Option String
partial_match [] = none
partial_match (c ∷ s) = first_match (double is_open (c ∷ s)) (partial_match s)

pub record Suggestion : Type 0 where
  pub label : String
  pub insert_text : String
  pub detail : String
  pub start_column : ℕ
  pub end_column : ℕ

abbrev pub detail_of : Option String → String
detail_of none = "not defined"
detail_of (some v) = "= " <> v

abbrev pub suggestion_of : Dict String → ℕ → String → String → Suggestion
suggestion_of resolved_map column partial key = record {
  label = "{{" <> (key <> "}}");
  insert_text = key <> "}}";
  detail = detail_of (lookup key resolved_map);
  start_column = column - chars partial;
  end_column = column;
}

abbrev pub suggestions_for :
    (String → String) → List String → Dict String → ℕ → Option String → List Suggestion
suggestions_for lower suggestions resolved_map column none = List.[]
suggestions_for lower suggestions resolved_map column (some partial) =
    map (suggestion_of resolved_map column partial)
      (filter (λ k. starts_with (lower partial) (lower k)) suggestions)

unfoldable pub provide_completion_items :
    (String → String) → List String → Dict String → ℕ → String → List Suggestion
unfolding partial_match starts_with chars
provide_completion_items lower suggestions resolved_map column text_until_position =
    suggestions_for lower suggestions resolved_map column (partial_match text_until_position)

-- What is replaced stands at the end of the line up to the cursor, right after "{{", and has no "}".
pub partial_match_lem :
    (text partial : String)
    → partial_match text ≡ some partial
    → (before : String) × (text ≡ before <> ("{{" <> partial)) × (has_brace partial ≡ false)
unfolding partial_match
partial_match_lem [] partial h = absurd (let clash : ⊥ = cc in clash)
partial_match_lem (c ∷ s) partial h = elim (Option-cases (double is_open (c ∷ s))) [
  | inl e ↦
      let below : partial_match s ≡ some partial =
        ap (λ o. first_match o (partial_match s)) (sym e) ∙ h in
      let (before, text, clear) = partial_match_lem s partial below in
      (c ∷ before, ap (λ t. c ∷ t) text ∙ sym (cons-append c before ("{{" <> partial)), clear)
  | inr (tail, e) ↦
      let chosen : first_match (some tail) (partial_match s) ≡ some partial =
        ap (λ o. first_match o (partial_match s)) (sym e) ∙ h in
      elim (Bool-cases (has_brace tail)) [
        | inl k ↦
            let (before, text, clear) = partial_match_lem s partial (sym (rw k refl) ∙ chosen) in
            (c ∷ before, ap (λ t. c ∷ t) text ∙ sym (cons-append c before ("{{" <> partial)), clear)
        | inr k ↦
            let found : some tail ≡ some partial = sym (rw k refl) ∙ chosen in
            let is : tail ≡ partial = cc in
            (
              "",
              double-is_open (c ∷ s) tail e
                  ∙ ap (λ t. "{{" <> t) is
                  ∙ sym (nil-append ("{{" <> partial)),
              ap has_brace (sym is) ∙ k,
            )
      ]
]
