-- ===== src/Sync/Server.antt =====
-- What the server holds after the calls of a change, if each of them succeeds and they are answered
-- in their order.
use reqlet.Sync.{sync_diff, changes, deletions, has_id, Call, delete, create, update, set_items}
use reqlet.Common.{
  or_else-none, ◌≡◌, refl, sym, ap, ◌∙◌, inl, inr, String, Bool, true, false, not, ◌&&◌, Option,
  none, some, List, [], ◌∷◌, ◌++◌, arith, if◌then◌else◌, ◌==◌, or_else, Bool-cases, Option-cases,
  ==-eq, find, any,
}
use reqlet.Common.Dict.{Dict, lookup, insert, keys, lookup-insert}

-- The server: what it holds under an id.
abbrev pub Server {ℓ} : Type ℓ → Type ℓ
Server T = String → Option T

module _ {ℓ} {T : Type ℓ} (id : T → String) where
  abbrev pub answer : Call T → Server T → Server T
  answer (delete i) server = λ j. if i == j then none else server j
  answer (create t) server = λ j. if id t == j then some t else server j
  answer (update i t) server = λ j. if i == j then some t else server j

  abbrev pub answers : List (Call T) → Server T → Server T
  answers [] server = server
  answers (c ∷ cs) server = answers cs (answer c server)

  -- The server holds a list: under each id the object of that id.
  abbrev pub held : List T → Server T
  held ts = λ j. find (λ t. id t == j) ts

  -- No two objects of a list share an id.
  abbrev pub Distinct : List T → Type ℓ
  Distinct [] = Unit
  Distinct (t ∷ ts) = (held ts (id t) ≡ none) × Distinct ts

  answers-append :
      (cs ds : List (Call T)) (server : Server T)
      → answers (cs ++ ds) server ≡ answers ds (answers cs server)
  answers-append [] ds server = refl
  answers-append (c ∷ cs) ds server = answers-append cs ds (answer c server)

  lookup-set_items :
      (same : T → T → Bool) (ts : List T) (d : Dict T) (j : String)
      → Distinct ts
      → lookup j (set_items id same ts d) ≡ or_else (held ts j) (lookup j d)
  lookup-set_items same [] d j u = refl
  lookup-set_items same (t ∷ ts) d j (h, u) =
      lookup-set_items same ts (insert (id t) t d) j u ∙ elim (Bool-cases (id t == j)) [
        | inl e ↦
            let absent : held ts j ≡ none = ap (held ts) (sym (==-eq (id t) j e)) ∙ h in
            rw (absent, e) (lookup-insert (id t) j t d ∙ rw e refl)
        | inr e ↦ rw (lookup-insert (id t) j t d, e) refl
      ]

  module _ (same : T → T → Bool) where
    -- A deletion reaches the keys that are listed and no longer there.
    answers-deletions :
        (is : List String) (curr : List T) (server : Server T) (j : String)
        → answers (deletions id same is curr) server j
          ≡ (if any (λ i. i == j) is && not (has_id id same j curr) then none else server j)
    answers-deletions [] curr server j = refl
    answers-deletions (i ∷ is) curr server j = elim (Bool-cases (has_id id same i curr)) [
      | inl e ↦ rw e (
          answers-deletions is curr server j ∙ elim (Bool-cases (i == j)) [
            | inl f ↦
                let there : has_id id same j curr ≡ true =
                  ap (λ k. has_id id same k curr) (sym (==-eq i j f)) ∙ e in
                rw (there, f) (ground arith)
            | inr f ↦ rw f refl
          ])
      | inr e ↦ rw e (
          answers-deletions is curr (answer (delete i) server) j ∙ elim (Bool-cases (i == j)) [
            | inl f ↦
                let gone : has_id id same j curr ≡ false =
                  ap (λ k. has_id id same k curr) (sym (==-eq i j f)) ∙ e in
                rw (gone, f) (ground arith)
            | inr f ↦ rw f refl
          ])
    ]

    held-none :
        (t : T) (ts : List T) (j : String)
        → held (t ∷ ts) j ≡ none
        → ((id t == j) ≡ false) × (held ts j ≡ none)
    held-none t ts j h = elim (Bool-cases (id t == j)) [
      | inl e ↦ ground arith
      | inr e ↦ (e, ground arith)
    ]

    held_eq :
        (s t : T) (ts : List T) (j : String) → (id s == j) ≡ true → held (s ∷ ts) j ≡ some t → s ≡ t
    held_eq s t ts j f h = ground arith

    -- No other object's change reaches an id.
    answers-changes_absent :
        (d : Dict T) (ts : List T) (server : Server T) (j : String)
        → held ts j ≡ none
        → answers (changes id same d ts) server j ≡ server j
    answers-changes_absent d [] server j h = refl
    answers-changes_absent d (t ∷ ts) server j h =
        let (other, later) = held-none t ts j h in
        elim (Option-cases (lookup (id t) d)) [
          | inl e ↦
              rw (changes, e)
                (answers-changes_absent d ts (answer (create t) server) j later ∙ rw other refl)
          | inr (p, e) ↦ elim (Bool-cases (same p t)) [
            | inl k ↦ rw (changes, e, k) (answers-changes_absent d ts server j later)
            | inr k ↦
                rw (changes, e, k)
                  (answers-changes_absent d ts (answer (update (id t) t) server) j later
                    ∙ rw other refl)
          ]
        ]

    -- After the changes an object that is there is held, if it was held where it is the same.
    answers-changes :
        (d : Dict T) (ts : List T) (server : Server T) (j : String) (t : T)
        → Distinct ts
        → held ts j ≡ some t
        → ((p : T) → lookup j d ≡ some p → same p t ≡ true → server j ≡ some t)
        → answers (changes id same d ts) server j ≡ some t
    answers-changes d [] server j t u h keeps = cc
    answers-changes d (s ∷ ts) server j t (n, u) h keeps = elim (Bool-cases (id s == j)) [
      | inl f ↦
          let is_it : s ≡ t = held_eq s t ts j f h in
          let key : id s ≡ j = ==-eq (id s) j f in
          let later : held ts j ≡ none = ap (held ts) (sym key) ∙ n in
          elim (Option-cases (lookup (id s) d)) [
            | inl e ↦
                rw (changes, e)
                  (answers-changes_absent d ts (answer (create s) server) j later
                    ∙ rw f (ap some is_it))
            | inr (p, e) ↦ elim (Bool-cases (same p s)) [
              | inl k ↦
                  rw (changes, e, k)
                    (answers-changes_absent d ts server j later
                      ∙ keeps p (ap (λ i. lookup i d) (sym key) ∙ e) (ap (same p) (sym is_it) ∙ k))
              | inr k ↦
                  rw (changes, e, k)
                    (answers-changes_absent d ts (answer (update (id s) s) server) j later
                      ∙ rw f (ap some is_it))
            ]
          ]
      | inr f ↦
          let later : held ts j ≡ some t = ground arith in
          elim (Option-cases (lookup (id s) d)) [
            | inl e ↦
                rw (changes, e)
                  (answers-changes d ts (answer (create s) server) j t u later
                    (λ p l k. rw f (keeps p l k)))
            | inr (p, e) ↦ elim (Bool-cases (same p s)) [
              | inl k ↦ rw (changes, e, k) (answers-changes d ts server j t u later keeps)
              | inr k ↦
                  rw (changes, e, k)
                    (answers-changes d ts (answer (update (id s) s) server) j t u later
                      (λ p l k. rw f (keeps p l k)))
            ]
          ]
    ]

    has_id-none : (j : String) (ts : List T) → held ts j ≡ none → has_id id same j ts ≡ false
    has_id-none j [] h = refl
    has_id-none j (t ∷ ts) h = ground (arith, has_id-none j ts)

    has_id-some :
        (j : String) (ts : List T) (t : T) → held ts j ≡ some t → has_id id same j ts ≡ true
    has_id-some j [] t h = cc
    has_id-some j (s ∷ ts) t h = ground (arith, has_id-some j ts t)

    lookup_no_key :
        (j : String) (d : Dict T) → any (λ i. i == j) (keys d) ≡ false → lookup j d ≡ none
    lookup_no_key j [] h = refl
    lookup_no_key j ((i, t) ∷ d) h = ground (arith, lookup_no_key j d)

    module _ (curr prev : List T) (distinct : Distinct prev) where
      prev_map-held : (j : String) → lookup j (set_items id same prev []) ≡ held prev j
      prev_map-held j = lookup-set_items same prev [] j distinct ∙ or_else-none (held prev j)

      deleted : (j : String) → Option T
      deleted j = answers (deletions id same (keys (set_items id same prev [])) curr) (held prev) j

      deleted-none : (j : String) → held curr j ≡ none → deleted j ≡ none
      unfolding deleted
      deleted-none j h =
          answers-deletions (keys (set_items id same prev [])) curr (held prev) j
          ∙ elim (Bool-cases (any (λ i. i == j) (keys (set_items id same prev [])))) [
            | inl e ↦ rw (e, has_id-none j curr h) refl
            | inr e ↦ rw e (sym (prev_map-held j) ∙ lookup_no_key j (set_items id same prev []) e)
          ]

      deleted-some : (j : String) (t : T) → held curr j ≡ some t → deleted j ≡ held prev j
      unfolding deleted
      deleted-some j t h =
          answers-deletions (keys (set_items id same prev [])) curr (held prev) j
          ∙ rw (has_id-some j curr t h)
              (elim (Bool-cases (any (λ i. i == j) (keys (set_items id same prev [])))) [
                | inl e ↦ rw e refl
                | inr e ↦ rw e refl
              ])

      -- After a change the server holds the new list, if it held the old one, the calls are answered in
      -- their order, no id stands twice in a list, and the same object has the same contents.
      pub held-sync_diff :
          (unchanged : Bool)
          → (unchanged ≡ true → curr ≡ prev)
          → ((a b : T) → same a b ≡ true → a ≡ b)
          → Distinct curr
          → (j : String)
          → answers (sync_diff id same unchanged curr prev) (held prev) j ≡ held curr j
      unfolding sync_diff deleted
      held-sync_diff true is same_is u j = ap (λ ts. held ts j) (sym (is refl))
      held-sync_diff false is same_is u j =
          ap (λ s. s j)
            (answers-append (deletions id same (keys (set_items id same prev [])) curr)
              (changes id same (set_items id same prev []) curr) (held prev))
          ∙ elim (Option-cases (held curr j)) [
            | inl e ↦
                answers-changes_absent (set_items id same prev []) curr deleted j e
                ∙ deleted-none j e
                ∙ sym e
            | inr (t, e) ↦
                answers-changes (set_items id same prev []) curr deleted j t u e (λ p l k.
                  deleted-some j t e ∙ sym (prev_map-held j) ∙ l ∙ ap some (same_is p t k))
                ∙ sym e
          ]
