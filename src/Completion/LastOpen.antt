-- ===== src/Completion/LastOpen.antt =====
-- gui/web/src/components/ui/variable-input.tsx: what `lastIndexOf("{{")` finds.
use reqlet.Common.{
  ◌≡◌, refl, sym, ap, ◌∙◌, inl, inr, String, ◌<>◌, Bool, true, false, Option, none, some, [], ◌∷◌,
  arith, Bool-cases, Option-cases,
}
use Prim.Native.Char.{Char}
use Prim.Native.String.{[], ◌∷◌}
use mathlib.Core.Option.{some-injective}
use package.text.Mathlib.TextLemmas.{nil-append, cons-append}
use reqlet.Scope.Template.{is_open}
use reqlet.Scope.Template.Laws.{braces-append, is_open-eq}
use reqlet.Completion.{double, split_here, split_later, last_open}

pub double-is_open : (s q : String) → double is_open s ≡ some q → s ≡ "{{" <> q
double-is_open [] q h = cc
double-is_open (c ∷ []) q h = ground arith
double-is_open (c ∷ (d ∷ s)) q h = elim (Bool-cases (is_open c)) [
  | inl e ↦ elim (Bool-cases (is_open d)) [
    | inl k ↦
        let same : s ≡ q = ground arith in
        rw (is_open-eq c e, is_open-eq d k)
          (ap (λ t. "{" ∷ ("{" ∷ t)) same ∙ sym (braces-append q).0)
    | inr k ↦ ground arith
  ]
  | inr e ↦ ground arith
]

split_later_lem :
    (c : Char) (s : String) (later : Option (String × String)) (here : Option String)
    → ((p q : String) → later ≡ some (p, q) → s ≡ p <> ("{{" <> q))
    → ((q : String) → here ≡ some q → c ∷ s ≡ "{{" <> q)
    → (p q : String) → split_later c later (split_here here) ≡ some (p, q)
    → c ∷ s ≡ p <> ("{{" <> q)
split_later_lem c s none none ih now p q h = cc
split_later_lem c s none (some r) ih now p q h =
    let same = some-injective _ _ h in
    now r refl ∙ rw (← ap (λ t. t.0) same, ← ap (λ t. t.1) same) (sym (nil-append ("{{" <> r)))
split_later_lem c s (some (p', q')) here ih now p q h =
    let same = some-injective _ _ h in
    rw (← ap (λ t. t.0) same, ← ap (λ t. t.1) same)
      (ap (λ t. c ∷ t) (ih p' q' refl) ∙ sym (cons-append c p' ("{{" <> q')))

pub last_open_lem : (s p q : String) → last_open s ≡ some (p, q) → s ≡ p <> ("{{" <> q)
unfolding last_open
last_open_lem [] p q h = cc
last_open_lem (c ∷ s) p q h =
    split_later_lem c s (last_open s) (double is_open (c ∷ s)) (last_open_lem s)
      (double-is_open (c ∷ s)) p q h

abbrev opens : Option String → Bool → Bool
opens none rest = rest
opens (some t) rest = true

-- Two opening braces in a row stand somewhere in a text.
unfoldable pub has_open : String → Bool
has_open [] = false
has_open (c ∷ s) = opens (double is_open (c ∷ s)) (has_open s)

split_later-none :
    (c : Char) (later : Option (String × String)) (here : Option String)
    → split_later c later (split_here here) ≡ none
    → (later ≡ none) × (here ≡ none)
split_later-none c none none h = (refl, refl)
split_later-none c none (some r) h = absurd (let clash : ⊥ = cc in clash)
split_later-none c (some (p, q)) here h = absurd (let clash : ⊥ = cc in clash)

-- No opening braces are found exactly where there are none.
last_open-none : (s : String) → last_open s ≡ none → has_open s ≡ false
unfolding last_open has_open
last_open-none [] h = refl
last_open-none (c ∷ s) h =
    let (later, here) = split_later-none c (last_open s) (double is_open (c ∷ s)) h in
    ap (λ o. opens o (has_open s)) here ∙ last_open-none s later

has_open-none : (s : String) → has_open s ≡ false → last_open s ≡ none
unfolding last_open has_open
has_open-none [] h = refl
has_open-none (c ∷ s) h = elim (Option-cases (double is_open (c ∷ s))) [
  | inl e ↦
      let rest : has_open s ≡ false = sym (ap (λ o. opens o (has_open s)) e) ∙ h in
      ap (λ o. split_later c (last_open s) (split_here o)) e
      ∙ ap (λ l. split_later c l none) (has_open-none s rest)
  | inr (t, e) ↦ absurd (
      let yes_no : true ≡ false = sym (ap (λ o. opens o (has_open s)) e) ∙ h in
      let clash : ⊥ = cc in clash)
]

double_rest : (c : Char) (s q : String) → double is_open (c ∷ s) ≡ some q → s ≡ "{" ∷ q
double_rest c [] q h = ground arith
double_rest c (d ∷ s) q h = elim (Bool-cases (is_open c)) [
  | inl e ↦ elim (Bool-cases (is_open d)) [
    | inl k ↦ let same : s ≡ q = ground arith in rw (is_open-eq d k) (ap (λ t. "{" ∷ t) same)
    | inr k ↦ ground arith
  ]
  | inr e ↦ ground arith
]

split_later_last :
    (c : Char) (s : String) (later : Option (String × String)) (here : Option String) (p q : String)
    → last_open s ≡ later
    → double is_open (c ∷ s) ≡ here
    → ((p q : String) → later ≡ some (p, q) → has_open ("{" ∷ q) ≡ false)
    → split_later c later (split_here here) ≡ some (p, q)
    → has_open ("{" ∷ q) ≡ false
split_later_last c s none none p q l d ih h = cc
split_later_last c s none (some r) p q l d ih h =
    let same = some-injective _ _ h in
    let rest : s ≡ "{" ∷ q = double_rest c s r d ∙ ap (λ t. "{" ∷ t.1) same in
    ap has_open (sym rest) ∙ last_open-none s l
split_later_last c s (some (p', q')) here p q l d ih h =
    let same = some-injective _ _ h in ap (λ t. has_open ("{" ∷ t.1)) (sym same) ∙ ih p' q' refl

-- No other braces begin at or after the second of those that are found.
pub last_open_last : (s p q : String) → last_open s ≡ some (p, q) → has_open ("{" ∷ q) ≡ false
unfolding last_open
last_open_last [] p q h = cc
last_open_last (c ∷ s) p q h =
    split_later_last c s (last_open s) (double is_open (c ∷ s)) p q refl refl (last_open_last s) h

pub last_open-found :
    (before partial : String)
    → has_open ("{" ∷ partial) ≡ false
    → last_open (before <> ("{{" <> partial)) ≡ some (before, partial)
unfolding last_open
last_open-found [] partial h =
    ap last_open (nil-append ("{{" <> partial) ∙ (braces-append partial).0)
    ∙ ap (λ l. split_later "{" l (some ("", partial))) (has_open-none ("{" ∷ partial) h)
last_open-found (c ∷ before) partial h =
    ap last_open (cons-append c before ("{{" <> partial))
    ∙ ap (λ l. split_later c l (split_here (double is_open (c ∷ (before <> ("{{" <> partial))))))
        (last_open-found before partial h)
