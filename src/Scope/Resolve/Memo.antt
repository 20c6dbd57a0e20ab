-- ===== src/Scope/Resolve/Memo.antt =====
-- What the memo of `resolveRecursive` holds between two calls.
use reqlet.Common.{
  ◌≡◌, sym, ap, ◌∙◌, ◌⊎◌, inl, inr, String, none, some, List, arith, if◌then◌else◌, ◌==◌,
  Bool-cases, Option-cases, ==-eq,
}
use reqlet.Common.Dict.{Dict, lookup, insert, lookup-insert}
use reqlet.Scope.Template.{Piece, pieces, expand}
use reqlet.Scope.Template.Replace.{Refs-mono, Refs, expand_congr}

module _ (raw_map : Dict String) where
  -- Every key of the memo is one of the map.
  abbrev pub Within : Dict String → Type 0
  Within m = (k w : String) → lookup k m ≡ some w → (v : String) × (lookup k raw_map ≡ some v)

  -- A key that is not defined at all, or whose value is in the memo.
  abbrev pub Settled : Dict String → String → Type 0
  Settled m j = (lookup j raw_map ≡ none) ⊎ ((w : String) × (lookup j m ≡ some w))

  -- Every value of the memo is that of its key in the map, with the references replaced by values
  -- that are in the memo themselves.
  abbrev pub Good : Dict String → Type 0
  Good m =
      (k w : String)
      → lookup k m ≡ some w
      → (v : String) × (lookup k raw_map ≡ some v)
        × (w ≡ expand (λ j. lookup j m) (pieces v))
        × Refs (Settled m) (pieces v)

  -- The memo only grows.
  abbrev pub Extends : Dict String → Dict String → Type 0
  Extends m n = (k w : String) → lookup k m ≡ some w → lookup k n ≡ some w

  pub Good-Within : (m : Dict String) → Good m → Within m
  Good-Within m g k w e = let (v, r, same, refs) = g k w e in (v, r)

  pub Within-none :
      (m : Dict String) (j : String) → Within m → lookup j raw_map ≡ none → lookup j m ≡ none
  Within-none m j h e = elim (Option-cases (lookup j m)) [
    | inl z ↦ z
    | inr (w, z) ↦ let (v, r) = h j w z in cc
  ]

  pub agree :
      (m n : Dict String) (j : String)
      → Within m
      → Within n
      → Extends m n
      → Settled m j
      → lookup j m ≡ lookup j n
  agree m n j hm hn x (inl e) = Within-none m j hm e ∙ sym (Within-none n j hn e)
  agree m n j hm hn x (inr (w, e)) = e ∙ sym (x j w e)

  pub expand-Extends :
      (m n : Dict String) (ps : List Piece)
      → Within m
      → Within n
      → Extends m n
      → Refs (Settled m) ps
      → expand (λ j. lookup j m) ps ≡ expand (λ j. lookup j n) ps
  expand-Extends m n ps hm hn x h =
      expand_congr (λ j. lookup j m) (λ j. lookup j n) ps
        (Refs-mono (Settled m) _ (λ j s. agree m n j hm hn x s) ps h)

  pub Settled-Extends : (m n : Dict String) (j : String) → Extends m n → Settled m j → Settled n j
  Settled-Extends m n j x (inl e) = inl e
  Settled-Extends m n j x (inr (w, e)) = inr (w, x j w e)

  pub Refs-Extends :
      (m n : Dict String) (ps : List Piece)
      → Extends m n
      → Refs (Settled m) ps
      → Refs (Settled n) ps
  Refs-Extends m n ps x h = Refs-mono (Settled m) (Settled n) (λ j. Settled-Extends m n j x) ps h

  module _ (m : Dict String) (key v r : String) where
    -- A key of the longer memo is the new one or has its old value.
    cases-insert :
        (k w : String)
        → lookup k (insert key r m) ≡ some w
        → ((key ≡ k) × (r ≡ w)) ⊎ (lookup k m ≡ some w)
    cases-insert k w z =
        let step : (if key == k then some r else lookup k m) ≡ some w =
          sym (lookup-insert key k r m) ∙ z in
        elim (Bool-cases (key == k)) [
          | inl e ↦ inl (==-eq key k e, ground arith)
          | inr e ↦ inr (ground arith)
        ]

    pub Extends-insert :
        Good m
        → lookup key raw_map ≡ some v
        → r ≡ expand (λ j. lookup j m) (pieces v)
        → Extends m (insert key r m)
    Extends-insert g e same k w z = elim (Bool-cases (key == k)) [
      | inl h ↦
          let (u, f, is, refs) = g k w z in
          let one : some v ≡ some u = sym e ∙ ap (λ j. lookup j raw_map) (==-eq key k h) ∙ f in
          let v_is_u : v ≡ u = cc in
          let r_is_w : r ≡ w =
            same ∙ ap (λ t. expand (λ j. lookup j m) (pieces t)) v_is_u ∙ sym is in
          lookup-insert key k r m ∙ rw h (ap some r_is_w)
      | inr h ↦ lookup-insert key k r m ∙ rw h z
    ]

    Within-insert : Good m → lookup key raw_map ≡ some v → Within (insert key r m)
    Within-insert g e k w z = elim (cases-insert k w z) [
      | inl (same, is) ↦ (v, ap (λ j. lookup j raw_map) (sym same) ∙ e)
      | inr old ↦ Good-Within m g k w old
    ]

    pub Good-insert :
        Good m
        → lookup key raw_map ≡ some v
        → r ≡ expand (λ j. lookup j m) (pieces v)
        → Refs (Settled m) (pieces v)
        → Good (insert key r m)
    Good-insert g e same h k w z =
        let x = Extends-insert g e same in
        let within = Good-Within m g in
        let longer = Within-insert g e in
        elim (cases-insert k w z) [
          | inl (is_key, is) ↦ (
            v,
            ap (λ j. lookup j raw_map) (sym is_key) ∙ e,
            sym is ∙ same ∙ expand-Extends m (insert key r m) (pieces v) within longer x h,
            Refs-Extends m (insert key r m) (pieces v) x h,
          )
          | inr old ↦
              let (u, f, is, refs) = g k w old in
              (
                u,
                f,
                is ∙ expand-Extends m (insert key r m) (pieces u) within longer x refs,
                Refs-Extends m (insert key r m) (pieces u) x refs,
              )
        ]
