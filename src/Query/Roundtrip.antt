-- ===== src/Query/Roundtrip.antt =====
-- Reading back the parameters that were written into a URL.
use Prim.Native.Char.{Char}
use Prim.Native.String.{[], ◌∷◌}
use package.text.Mathlib.TextLemmas.{nil-append, cons-append}
use reqlet.Common.{
  ℕ, suc, ◌≡◌, refl, ap, ◌∙◌, String, ◌<>◌, Bool, true, false, none, some, List, map, filter, All,
  Bool-cases, inl, inr, arith,
}
use reqlet.Types.Request.{KeyValuePair}
use reqlet.Query.{
  is_question, is_amp, is_equals, before, after, push_char, split, non_empty, read_pair, read_pairs,
  read_query, parse_query_params, is_sent, pair_text, join_pairs, with_query, build_url_with_params,
}

-- No character of the text passes the test.
abbrev pub Lacks : (Char → Bool) → String → Type 0
Lacks is [] = Unit
Lacks is (c ∷ s) = (is c ≡ false) × Lacks is s

module _ (is : Char → Bool) where
  Lacks-before : (s : String) → Lacks is (before is s)
  unfolding before
  Lacks-before [] = tt
  Lacks-before (c ∷ s) = elim (Bool-cases (is c)) [
    | inl e ↦ rw e tt
    | inr e ↦ rw e (e, Lacks-before s)
  ]

  module _ (c : Char) (r : String) (stops : is c ≡ true) where
    before-append : (s : String) → Lacks is s → before is (s <> (c ∷ r)) ≡ s
    unfolding before
    before-append [] h = rw nil-append (rw stops refl)
    before-append (d ∷ s) (e, h) = rw cons-append (rw e (ap (λ t. d ∷ t) (before-append s h)))

    after-append : (s : String) → Lacks is s → after is (s <> (c ∷ r)) ≡ some r
    unfolding after
    after-append [] h = rw nil-append (rw stops refl)
    after-append (d ∷ s) (e, h) = rw cons-append (rw e (after-append s h))

    split-append : (s : String) → Lacks is s → split is (s <> (c ∷ r)) ≡ List.◌∷◌ s (split is r)
    unfolding split
    split-append [] h = rw nil-append (rw stops refl)
    split-append (d ∷ s) (e, h) = rw cons-append (rw e (ap (push_char d) (split-append s h)))

  split_single : (s : String) → Lacks is s → split is s ≡ List.◌∷◌ s List.[]
  unfolding split
  split_single [] h = refl
  split_single (d ∷ s) (e, h) = rw e (ap (push_char d) (split_single s h))

  Lacks-append : (s t : String) → Lacks is s → Lacks is t → Lacks is (s <> t)
  Lacks-append [] t h k = rw nil-append k
  Lacks-append (c ∷ s) t (e, h) k = rw cons-append (e, Lacks-append s t h k)

one-append : (c : Char) (s : String) → (c ∷ []) <> s ≡ c ∷ s
one-append c s = cons-append c [] s ∙ ap (λ t. c ∷ t) (nil-append s)

-- A parameter whose parts do not hold the separators that end them.
abbrev pub IsPlain : KeyValuePair → Type 0
IsPlain p = Lacks is_amp p.key × Lacks is_equals p.key × Lacks is_amp p.value

abbrev pub parts : KeyValuePair → String × String
parts p = (p.key, p.value)

Lacks-pair_text : (p : KeyValuePair) → IsPlain p → Lacks is_amp (pair_text p)
Lacks-pair_text p (h, k, l) =
    rw (one-append "=" p.value) (Lacks-append is_amp p.key ("=" ∷ p.value) h (refl, l))

parts-read_pair :
    (id : String) (p : KeyValuePair) → IsPlain p → parts (read_pair id (pair_text p)) ≡ parts p
parts-read_pair id p (h, k, l) = rw (one-append "=" p.value) (
    rw
      (
        before-append is_equals "=" p.value refl p.key k,
        after-append is_equals "=" p.value refl p.key k,
      )
      refl)

non_empty-append : (k s : String) → non_empty k ≡ true → non_empty (k <> s) ≡ true
non_empty-append [] s h = cc
non_empty-append (c ∷ k) s h = rw cons-append refl

-- What is split at the ampersands of written parameters are their texts.
split-join_pairs :
    (p : KeyValuePair) (ps : List KeyValuePair)
    → All IsPlain (List.◌∷◌ p ps)
    → split is_amp (join_pairs p ps) ≡ map pair_text (List.◌∷◌ p ps)
split-join_pairs p List.[] (h, hs) = split_single is_amp (pair_text p) (Lacks-pair_text p h)
split-join_pairs p (List.◌∷◌ q ps) (h, hs) = rw (one-append "&" (join_pairs q ps)) (
    split-append is_amp "&" (join_pairs q ps) refl (pair_text p) (Lacks-pair_text p h)
    ∙ ap (List.◌∷◌ (pair_text p)) (split-join_pairs q ps hs))

IsNamed : KeyValuePair → Type 0
IsNamed p = non_empty p.key ≡ true

filter-pair_text :
    (ps : List KeyValuePair)
    → All IsNamed ps
    → filter non_empty (map pair_text ps) ≡ map pair_text ps
unfolding IsNamed
filter-pair_text List.[] h = refl
filter-pair_text (List.◌∷◌ p ps) (h, hs) =
    rw (non_empty-append p.key ("=" <> p.value) h)
      (ap (List.◌∷◌ (pair_text p)) (filter-pair_text ps hs))

parts-read_pairs :
    (uuid : ℕ → String) (n : ℕ) (ps : List KeyValuePair)
    → All IsPlain ps
    → map parts (read_pairs uuid n (map pair_text ps)) ≡ map parts ps
parts-read_pairs uuid n List.[] h = refl
parts-read_pairs uuid n (List.◌∷◌ p ps) (h, hs) =
    ap (λ t. List.◌∷◌ t (map parts (read_pairs uuid (suc n) (map pair_text ps))))
      (parts-read_pair (uuid n) p h)
    ∙ ap (List.◌∷◌ (parts p)) (parts-read_pairs uuid (suc n) ps hs)

IsNamed-filter : (ps : List KeyValuePair) → All IsNamed (filter is_sent ps)
unfolding IsNamed
IsNamed-filter List.[] = tt
IsNamed-filter (List.◌∷◌ p ps) = elim (Bool-cases (is_sent p)) [
  | inl e ↦ let named : non_empty p.key ≡ true = ground arith in rw e (named, IsNamed-filter ps)
  | inr e ↦ rw e (IsNamed-filter ps)
]

IsPlain-filter : (ps : List KeyValuePair) → All IsPlain ps → All IsPlain (filter is_sent ps)
IsPlain-filter List.[] h = tt
IsPlain-filter (List.◌∷◌ p ps) (h, hs) = elim (Bool-cases (is_sent p)) [
  | inl e ↦ rw e (h, IsPlain-filter ps hs)
  | inr e ↦ rw e (IsPlain-filter ps hs)
]

before-before : (is : Char → Bool) (s : String) → before is (before is s) ≡ before is s
unfolding before
before-before is [] = refl
before-before is (c ∷ s) = elim (Bool-cases (is c)) [
  | inl e ↦ rw e refl
  | inr e ↦ rw e (rw e (ap (λ t. c ∷ t) (before-before is s)))
]

after-before : (is : Char → Bool) (s : String) → after is (before is s) ≡ none
unfolding before after
after-before is [] = refl
after-before is (c ∷ s) = elim (Bool-cases (is c)) [
  | inl e ↦ rw e refl
  | inr e ↦ rw e (rw e (after-before is s))
]

read-with_query :
    (uuid : ℕ → String) (url : String) (ps : List KeyValuePair)
    → All IsPlain ps
    → All IsNamed ps
    → map parts (read_query uuid (after is_question (with_query (before is_question url) ps)))
      ≡ map parts ps
read-with_query uuid url List.[] h k = rw (after-before is_question url) refl
read-with_query uuid url (List.◌∷◌ p ps) h k = rw (one-append "?" (join_pairs p ps)) (
    rw
      (after-append is_question "?" (join_pairs p ps) refl (before is_question url)
        (Lacks-before is_question url))
      (ap (λ l. map parts (read_pairs uuid 0 l))
          (ap (filter non_empty) (split-join_pairs p ps h) ∙ filter-pair_text (List.◌∷◌ p ps) k)
        ∙ parts-read_pairs uuid 0 (List.◌∷◌ p ps) h))

-- The keys and values that are read from a URL with parameters are those of the enabled parameters
-- that have a key, in their order, whatever query the URL had before, if no key holds "=" and no key
-- and no value holds "&".
pub parse_query_params-build_url_with_params :
    (uuid : ℕ → String) (url : String) (params : List KeyValuePair)
    → All IsPlain params
    → map parts (parse_query_params uuid (build_url_with_params url params))
      ≡ map parts (filter is_sent params)
unfolding parse_query_params build_url_with_params
parse_query_params-build_url_with_params uuid url params h =
    read-with_query uuid url (filter is_sent params) (IsPlain-filter params h)
      (IsNamed-filter params)

before-with_query :
    (url : String) (ps : List KeyValuePair)
    → before is_question (with_query (before is_question url) ps) ≡ before is_question url
before-with_query url List.[] = before-before is_question url
before-with_query url (List.◌∷◌ p ps) = rw (one-append "?" (join_pairs p ps)) (
    before-append is_question "?" (join_pairs p ps) refl (before is_question url)
      (Lacks-before is_question url))

-- Of two rewrites of a URL's parameters the last one counts.
pub build_url_with_params_twice :
    (url : String) (params params' : List KeyValuePair)
    → build_url_with_params (build_url_with_params url params) params'
      ≡ build_url_with_params url params'
unfolding build_url_with_params
build_url_with_params_twice url params params' =
    ap (λ base. with_query base (filter is_sent params'))
      (before-with_query url (filter is_sent params))
