-- ===== src/CollectionPane/Found.antt =====
-- What finding a collection or a folder gives after a change
-- (gui/web/src/components/layout/collection-pane.tsx).
use reqlet.Common.{
  ◌≡◌, refl, sym, ap, ◌∙◌, inl, inr, String, Bool, true, Option, none, some, List, [], ◌∷◌, map,
  arith, if◌then◌else◌, ◌==◌, or_else, Bool-cases, ==-eq, find,
}
use reqlet.Types.Auth.{AuthConfig}
use reqlet.Types.Collection.{Collection, FolderItem, Items, nil, cons_request, cons_folder}
use reqlet.Workspace.Tree.{modify_in_list, patch_auth}
use reqlet.Search.Select.{find_folder, is_collection_of}
use mathlib.Core.Option

pub found_id :
    (id : String) (cs : List Collection) (c : Collection)
    → find (is_collection_of id) cs ≡ some c
    → c.id ≡ id
found_id id [] c h = absurd (let clash : ⊥ = cc in clash)
found_id id (d ∷ cs) c h = elim (Bool-cases (d.id == id)) [
  | inl e ↦
      let same : d ≡ c = ground arith in ap (λ (x : Collection). x.id) (sym same) ∙ ==-eq d.id id e
  | inr e ↦ found_id id cs c (ground arith)
]

if_true : {A : Type 0} (x y : A) (b : Bool) → b ≡ true → (if b then x else y) ≡ x
if_true x y b h = rw h refl

-- The collection of an id after it was changed.
pub find-update_collection :
    (f : Collection → Collection) (id : String) (cs : List Collection) (c : Collection)
    → ((d : Collection) → (f d).id ≡ d.id)
    → find (is_collection_of id) cs ≡ some c
    → find (is_collection_of id) (map (λ d. if d.id == id then f d else d) cs) ≡ some (f c)
find-update_collection f id [] c keeps h = absurd (let clash : ⊥ = cc in clash)
find-update_collection f id (d ∷ cs) c keeps h = elim (Bool-cases (d.id == id)) [
  | inl e ↦
      let same : d ≡ c = ground arith in
      let kept : ((f d).id == id) ≡ true = ap (λ i. i == id) (keeps d) ∙ e in
      rw e (
        if_true (some (f d))
          (find (is_collection_of id) (map (λ x. if x.id == id then f x else x) cs))
          ((f d).id == id) kept)
      ∙ ap (λ x. some (f x)) same
  | inr e ↦ rw (e, e) (find-update_collection f id cs c keeps (ground arith))
]

or_else-map :
    (f : FolderItem → FolderItem) (m n : Option FolderItem)
    → or_else (Option.map f m) (Option.map f n) ≡ Option.map f (or_else m n)
or_else-map f none n = refl
or_else-map f (some x) n = refl

pub find_folder-patch_auth :
    (items : Items) (id : String) (a : AuthConfig)
    → find_folder (patch_auth items id a) id
      ≡ Option.map (λ (f : FolderItem). record f { auth = a }) (find_folder items id)
unfolding find_folder patch_auth modify_in_list
find_folder-patch_auth nil id a = refl
find_folder-patch_auth (cons_request r rest) id a = find_folder-patch_auth rest id a
find_folder-patch_auth (cons_folder f kids rest) id a = elim (Bool-cases (f.id == id)) [
  | inl e ↦ rw (e, e) refl
  | inr e ↦
      rw (e, e, find_folder-patch_auth kids id a, find_folder-patch_auth rest id a)
        (or_else-map (λ (f : FolderItem). record f { auth = a }) (find_folder kids id)
          (find_folder rest id))
]
