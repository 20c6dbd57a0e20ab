-- ===== src/Fields/PathRows.antt =====
-- gui/web/src/components/layout/request-pane.tsx: the rows of the path variables after a change.
use reqlet.Common.{
  ◌≡◌, refl, sym, ap, ◌∙◌, ◌≢◌, inl, inr, String, Bool, true, false, ◌&&◌, List, [], ◌∷◌, ◌++◌, map,
  arith, if◌then◌else◌, ◌==◌, Bool-cases, ==-refl, ==-eq, ==-false, find, any, All, All-append,
}
use reqlet.Fields.{
  stored_variables, RequestState, path_variable_change, set_path_variable, is_path_variable,
}
use reqlet.Fields.PathVariables.{row_id, row_of, row_if}
use reqlet.Types.Request.{KeyValuePair}

-- The handler names a variable after its key.
abbrev pub IsOwn : KeyValuePair → Type 0
IsOwn p = p.id ≡ p.key

abbrev changed : String → String → KeyValuePair → KeyValuePair
changed key new p = if is_path_variable key p then record p { value = new } else p

abbrev has_key : String → KeyValuePair → Bool
has_key key p = p.key == key

find-changed :
    (key new k : String) (ps : List KeyValuePair)
    → All IsOwn ps
    → row_if k (find (has_key k) (map (changed key new) ps)) ≡ (
        if any (has_key k) ps && (key == k)
        then record (row_of ps k) { value = new }
        else row_of ps k)
find-changed key new k [] h = refl
find-changed key new k (p ∷ ps) (h, hs) = ground (arith, find-changed key new k ps hs)

any-is_path_variable :
    (key : String) (ps : List KeyValuePair)
    → All IsOwn ps
    → any (is_path_variable key) ps ≡ any (has_key key) ps
any-is_path_variable key [] h = refl
any-is_path_variable key (p ∷ ps) (h, hs) = ground (arith, any-is_path_variable key ps hs)

abbrev added : String → String → KeyValuePair
added key new = record { id = key; enabled = true; key = key; value = new; description = "" }

find-added :
    (key new k : String) (ps : List KeyValuePair)
    → any (has_key key) ps ≡ false
    → row_if k (find (has_key k) (ps ++ (added key new ∷ [])))
      ≡ (if key == k then record (row_of ps k) { value = new } else row_of ps k)
find-added key new k [] h = ground arith
find-added key new k (p ∷ ps) h = ground (arith, find-added key new k ps)

row_id-row_of :
    (ps : List KeyValuePair) (key : String) → All IsOwn ps → row_id (row_of ps key) ≡ key
row_id-row_of [] key h = ground arith
row_id-row_of (p ∷ ps) key (h, hs) = ground (arith, row_id-row_of ps key hs)

any-at_key :
    (key k : String) (ps : List KeyValuePair)
    → any (has_key key) ps ≡ true
    → (any (has_key k) ps && (key == k)) ≡ (key == k)
any-at_key key k ps e = elim (Bool-cases (key == k)) [
  | inl z ↦
      let there : any (has_key k) ps ≡ true =
        ap (λ j. any (has_key j) ps) (sym (==-eq key k z)) ∙ e in
      rw (there, z) refl
  | inr z ↦ ground arith
]

row_of-set_path_variable :
    (key new k : String) (ps : List KeyValuePair)
    → All IsOwn ps
    → row_of (set_path_variable key new ps) k
      ≡ (if key == k then record (row_of ps k) { value = new } else row_of ps k)
row_of-set_path_variable key new k ps own = elim (Bool-cases (any (is_path_variable key) ps)) [
  | inl e ↦
      rw (set_path_variable, e)
        (find-changed key new k ps own
          ∙ ap (λ b. if b then record (row_of ps k) { value = new } else row_of ps k)
              (any-at_key key k ps (sym (any-is_path_variable key ps own) ∙ e)))
  | inr e ↦
      rw (set_path_variable, e)
        (find-added key new k ps (sym (any-is_path_variable key ps own) ∙ e))
]

All-changed :
    (key new : String) (ps : List KeyValuePair)
    → All IsOwn ps
    → All IsOwn (map (changed key new) ps)
All-changed key new [] h = tt
All-changed key new (p ∷ ps) (h, hs) = (ground arith, All-changed key new ps hs)

All-set_path_variable :
    (key new : String) (ps : List KeyValuePair)
    → All IsOwn ps
    → All IsOwn (set_path_variable key new ps)
All-set_path_variable key new ps own = elim (Bool-cases (any (is_path_variable key) ps)) [
  | inl e ↦ rw (set_path_variable, e) (All-changed key new ps own)
  | inr e ↦ rw (set_path_variable, e) (All-append IsOwn ps (added key new ∷ []) own (refl, tt))
]

-- Where each stored variable is named after its key, giving the row of a key a new value gives that
-- row the value and leaves all other rows as they were, and the stored variables are named after
-- their keys again.
pub path_variable_change_lem :
    (r : RequestState) (key new : String)
    → All IsOwn (stored_variables r.path_variables)
    → let old = stored_variables r.path_variables in
      let stored =
        stored_variables (path_variable_change (row_id (row_of old key)) new r).path_variables in
      (row_of stored key ≡ record (row_of old key) { value = new })
      × ((k : String) → k ≢ key → row_of stored k ≡ row_of old k)
      × All IsOwn stored
unfolding path_variable_change
path_variable_change_lem r key new own =
    let old = stored_variables r.path_variables in
    rw (row_id-row_of old key own) (
      row_of-set_path_variable key new key old own ∙ rw (==-refl key) refl,
      λ k ne.
          row_of-set_path_variable key new k old own ∙ rw (==-false key k (λ e. ne (sym e))) refl,
      All-set_path_variable key new old own,
    )
