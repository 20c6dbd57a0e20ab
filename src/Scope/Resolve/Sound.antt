-- ===== src/Scope/Resolve/Sound.antt =====
-- One call of `resolveValue` on a map whose values do not refer to each other in a cycle.
use reqlet.Scope.Resolve.Memo.{
  Within-none, Good, Settled, Extends, Good-Within, agree, Settled-Extends, Good-insert,
  Extends-insert,
}
use package.text.Mathlib.TextLemmas.{cons-append, nil-append}
use Prim.Native.String as Text
use mathlib.Core.Path.{subst}
use reqlet.Common.{
  ℕ, zero, suc, ◌≤◌, ◌<◌, ◌≡◌, refl, sym, ap, ◌∙◌, inl, inr, String, ◌<>◌, false, none, some, List,
  [], ◌∷◌, arith, ◌==◌, Bool-cases, Option-cases, ==-refl, ==-eq, All,
}
use reqlet.Common.Dict.{Dict, lookup, insert, lookup-insert}
use reqlet.Scope.Template.{Piece, plain, variable, pieces, token, expand, value_or_token}
use reqlet.Scope.Template.Replace.{Refs}
use reqlet.Scope.Resolve.{
  Resolved, is_visited, memoize, resolve_key, prepend, resolve_pieces, resolve_value,
}

prepend-some :
    (s t : String) (n : Dict String) (o : Resolved)
    → prepend s o ≡ some (t, n)
    → (u : String) × (o ≡ some (u, n)) × (t ≡ s <> u)
prepend-some s t n none e = cc
prepend-some s t n (some (u, m)) e = (u, cc, cc)

memoize-some :
    (key t : String) (n : Dict String) (o : Resolved)
    → memoize key o ≡ some (t, n)
    → (m : Dict String) × (o ≡ some (t, m)) × (n ≡ insert key t m)
memoize-some key t n none e = cc
memoize-some key t n (some (u, m)) e = (m, cc, cc)

module _ (raw_map : Dict String) (rank : String → ℕ) where
  -- The keys of the map that pieces refer to have a rank below the bound.
  abbrev pub Below : ℕ → List Piece → Type 0
  Below b ps = Refs (λ j. (w : String) → lookup j raw_map ≡ some w → rank j < b) ps

  -- Each value refers to keys of a lower rank alone.
  abbrev pub Ranked : Type 0
  Ranked = (k v : String) → lookup k raw_map ≡ some v → Below (rank k) (pieces v)

  -- From a memo m, a call returned a text for the pieces and the memo n.
  abbrev pub Sound : Dict String → Dict String → String → List Piece → Type 0
  Sound m n s ps =
      Good raw_map n
      × Extends raw_map m n
      × (s ≡ expand (λ j. lookup j n) ps)
      × Refs (Settled raw_map n) ps

  -- The same for one reference.
  abbrev pub SoundKey : Dict String → Dict String → String → String → Type 0
  SoundKey m n s key =
      Good raw_map n
      × Extends raw_map m n
      × (s ≡ value_or_token key (lookup key n))
      × Settled raw_map n key

  fresh_below :
      (b : ℕ) (key : String) (visiting : List String)
      → rank key < b
      → All (λ k. b ≤ rank k) visiting
      → is_visited key visiting ≡ false
  fresh_below b key [] h a = refl
  fresh_below b key (k ∷ visiting) h (l, a) = elim (Bool-cases (k == key)) [
    | inl e ↦ let same : rank k ≡ rank key = ap rank (==-eq k key e) in ground arith
    | inr e ↦ rw e (fresh_below b key visiting h a)
  ]

  visiting_mono :
      (b c : ℕ) (visiting : List String)
      → c ≤ b
      → All (λ k. b ≤ rank k) visiting
      → All (λ k. c ≤ rank k) visiting
  visiting_mono b c [] l a = tt
  visiting_mono b c (k ∷ visiting) l (h, a) = (omega arith, visiting_mono b c visiting l a)

  module _ (inner : List String → String → Dict String → Resolved) (b : ℕ) (visiting : List String)
      (above : All (λ k. b ≤ rank k) visiting)
      (inner_sound : (key v s : String) (m n : Dict String)
        → lookup key raw_map ≡ some v
        → rank key < b
        → Good raw_map m
        → inner (key ∷ visiting) v m ≡ some (s, n)
        → Sound m n s (pieces v)) where
    -- A reference that is replaced by what the memo says of it already.
    unchanged_sound :
        (key s value : String) (m n : Dict String)
        → Good raw_map m
        → value ≡ value_or_token key (lookup key m)
        → Settled raw_map m key
        → ◌≡◌ {A = Resolved} (some (value, m)) (some (s, n))
        → SoundKey m n s key
    unchanged_sound key s value m n g same settled e =
        let p : value ≡ s = cc in
        let q : m ≡ n = cc in
        subst (λ t. SoundKey m t s key) q (g, λ k w f. f, sym p ∙ same, settled)

    pub memoize_sound :
        (key v s : String) (m n : Dict String)
        → lookup key raw_map ≡ some v
        → rank key < b
        → Good raw_map m
        → memoize key (inner (key ∷ visiting) v m) ≡ some (s, n)
        → SoundKey m n s key
    memoize_sound key v s m n z low g e =
        let (k, f, is) = memoize-some key s n (inner (key ∷ visiting) v m) e in
        let (gk, x, same, refs) = inner_sound key v s m k z low g f in
        let longer = Extends-insert raw_map k key v s gk z same in
        let found : lookup key (insert key s k) ≡ some s =
          lookup-insert key key s k ∙ rw (==-refl key) refl in
        subst (λ t. SoundKey m t s key) (sym is)
          (
            Good-insert raw_map k key v s gk z same refs,
            λ j w h. longer j w (x j w h),
            rw found refl,
            inr (s, found),
          )

    resolve_key_sound :
        (key s : String) (m n : Dict String)
        → ((w : String) → lookup key raw_map ≡ some w → rank key < b)
        → Good raw_map m
        → resolve_key inner raw_map visiting key m ≡ some (s, n)
        → SoundKey m n s key
    resolve_key_sound key s m n low g e = elim (Option-cases (lookup key raw_map)) [
      | inl z ↦
          let absent = Within-none raw_map m key (Good-Within raw_map m g) z in
          let unresolved : resolve_key inner raw_map visiting key m ≡ some (token key, m) =
            elim (Bool-cases (is_visited key visiting)) [
              | inl h ↦ rw h refl
              | inr h ↦ rw (h, z) refl
            ] in
          unchanged_sound key s (token key) m n g (rw absent refl) (inl z) (sym unresolved ∙ e)
      | inr (v, z) ↦
          let fresh = fresh_below b key visiting (low v z) above in
          elim (Option-cases (lookup key m)) [
            | inl h ↦
                let recursive : resolve_key inner raw_map visiting key m
                    ≡ memoize key (inner (key ∷ visiting) v m) =
                  rw (fresh, z, h) refl in
                memoize_sound key v s m n z (low v z) g (sym recursive ∙ e)
            | inr (w, h) ↦
                let memoized : resolve_key inner raw_map visiting key m ≡ some (w, m) =
                  rw (fresh, z, h) refl in
                unchanged_sound key s w m n g (rw h refl) (inr (w, h)) (sym memoized ∙ e)
          ]
    ]

    resolve_pieces-Sound :
        (ps : List Piece) (s : String) (m n : Dict String)
        → Below b ps
        → Good raw_map m
        → resolve_pieces inner raw_map visiting ps m ≡ some (s, n)
        → Sound m n s ps
    unfolding resolve_pieces expand
    resolve_pieces-Sound [] s m n low g e =
        let p : "" ≡ s = cc in
        let q : m ≡ n = cc in subst (λ t. Sound m t s []) q (g, λ k w f. f, sym p, tt)
    resolve_pieces-Sound (plain c ∷ ps) s m n low g e =
        let (u, f, is) = prepend-some _ s n _ e in
        let (gn, x, same, refs) = resolve_pieces-Sound ps u m n low g f in
        (gn, x, is ∙ cons-append c "" u ∙ ap (λ t. Text.◌∷◌ c t) (nil-append u ∙ same), refs)
    resolve_pieces-Sound (variable key ∷ ps) s m n (low, lows) g e =
        elim (Option-cases (resolve_key inner raw_map visiting key m)) [
          | inl z ↦
              let stuck : resolve_pieces inner raw_map visiting (variable key ∷ ps) m ≡ none =
                rw (resolve_pieces, z) refl in
              cc
          | inr ((value, after), z) ↦
              let step : resolve_pieces inner raw_map visiting (variable key ∷ ps) m
                  ≡ prepend value (resolve_pieces inner raw_map visiting ps after) =
                rw (resolve_pieces, z) refl in
              let (u, f, is) = prepend-some value s n _ (sym step ∙ e) in
              let (ga, xa, va, sa) = resolve_key_sound key value m after low g z in
              let (gn, x, same, refs) = resolve_pieces-Sound ps u after n lows ga f in
              let kept =
                agree raw_map after n key (Good-Within raw_map after ga) (Good-Within raw_map n gn)
                  x sa in
              (
                gn,
                λ k w h. x k w (xa k w h),
                is
                    ∙ ap (λ t. t <> u) (va ∙ ap (value_or_token key) kept)
                    ∙ ap (λ t. value_or_token key (lookup key n) <> t) same,
                (Settled-Extends raw_map after n key x sa, refs),
              )
        ]

  -- Every value that is in the memo after the call of `resolveValue` is right.
  pub resolve_value-Sound :
      Ranked
      → (fuel b : ℕ) (visiting : List String) (value s : String) (m n : Dict String)
      → All (λ k. b ≤ rank k) visiting
      → Below b (pieces value)
      → Good raw_map m
      → resolve_value raw_map fuel visiting value m ≡ some (s, n)
      → Sound m n s (pieces value)
  unfolding resolve_value
  resolve_value-Sound ranked zero b visiting value s m n above low g e = cc
  resolve_value-Sound ranked (suc fuel) b visiting value s m n above low g e =
      resolve_pieces-Sound (resolve_value raw_map fuel) b visiting above
        (λ key v t k l z under gk f.
          resolve_value-Sound ranked fuel (rank key) (key ∷ visiting) v t k l
            (omega arith, visiting_mono b (rank key) visiting (omega arith) above) (ranked key v z)
            gk f)
        (pieces value) s m n low g e
