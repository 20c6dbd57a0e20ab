-- ===== src/CollectionPane/Edited.antt =====
-- What the collection's pane shows after an edit of the authentication
-- (gui/web/src/components/layout/collection-pane.tsx).
use reqlet.Common.{
  ◌≡◌, refl, sym, ap, ◌∙◌, ◌⊎◌, inl, inr, String, true, false, Option, none, some, List, map,
  if◌then◌else◌, ◌==◌, truthy, Bool-cases, find,
}
use reqlet.CollectionPane.{
  item_auth, pane_of, PaneView, pane_view, view_of, collection_of, folder_in, truthy_id, is_shown,
  shown_auth, auth_edit,
}
use reqlet.Types.Auth.{AuthConfig}
use reqlet.Types.Collection.{Collection, FolderItem}
use reqlet.Types.Tab.{Tab}
use reqlet.Workspace.Tree.{patch_auth}
use reqlet.Workspace.Store.{WorkspaceState, update_collection_auth, update_item_auth}
use reqlet.Tabs.State.{TabsState, is_collection}
use reqlet.Tabs.Actions.{has_id}
use reqlet.Search.Select.{find_folder, is_collection_of}
use mathlib.Core.Option
use mathlib.Core.Path.{subst}
use reqlet.CollectionPane.Found.{found_id, find-update_collection, find_folder-patch_auth}

-- What the view consists of.
abbrev IsViewOf : WorkspaceState → TabsState → PaneView → Type 0
IsViewOf w s v =
    (find (has_id s.active_tab_id) s.tabs ≡ some v.tab)
    × (collection_of v.tab.collection_id w.collections ≡ some v.collection)
    × (is_shown v.tab.type ≡ true)
    × (v.folder ≡ (
        if is_collection v.tab.type
        then none
        else folder_in v.collection (truthy_id v.tab.folder_id)))

pane_view-IsViewOf :
    (w : WorkspaceState) (s : TabsState) (v : PaneView) → IsViewOf w s v → pane_view w s ≡ some v
unfolding pane_view
pane_view-IsViewOf w s v (active, found, shown, folder) =
    ap (pane_of w.collections) active
    ∙ ap (view_of v.tab) found
    ∙ rw shown (ap (λ o. some (record v { folder = o })) (sym folder))

view_of-some :
    (t : Tab) (o : Option Collection) (v : PaneView)
    → view_of t o ≡ some v
    → (t ≡ v.tab)
      × (o ≡ some v.collection)
      × (is_shown v.tab.type ≡ true)
      × (v.folder ≡ (
          if is_collection v.tab.type
          then none
          else folder_in v.collection (truthy_id v.tab.folder_id)))
view_of-some t none v h = absurd (let clash : ⊥ = cc in clash)
view_of-some t (some c) v h = elim (Bool-cases (is_shown t.type)) [
  | inl e ↦
      let u : PaneView = record {
        tab = t;
        collection = c;
        folder = if is_collection t.type then none else folder_in c (truthy_id t.folder_id);
      } in
      let same : some u ≡ some v = sym (rw e refl) ∙ h in
      let eq : u ≡ v = cc in
      subst
        (λ (x : PaneView).
          (t ≡ x.tab)
          × (some c ≡ some x.collection)
          × (is_shown x.tab.type ≡ true)
          × (x.folder ≡ (
              if is_collection x.tab.type
              then none
              else folder_in x.collection (truthy_id x.tab.folder_id))))
        eq (refl, refl, e, refl)
  | inr e ↦ absurd (let no : none ≡ some v = sym (rw e refl) ∙ h in let clash : ⊥ = cc in clash)
]

IsViewOf-pane_of :
    (w : WorkspaceState) (s : TabsState) (v : PaneView) (o : Option Tab)
    → find (has_id s.active_tab_id) s.tabs ≡ o
    → pane_of w.collections o ≡ some v
    → IsViewOf w s v
IsViewOf-pane_of w s v none active h = absurd (let clash : ⊥ = cc in clash)
IsViewOf-pane_of w s v (some t) active h =
    let (is, found, shown, folder) =
      view_of-some t (collection_of t.collection_id w.collections) v h in
    (
      active ∙ ap some is,
      ap (λ (x : Tab). collection_of x.collection_id w.collections) (sym is) ∙ found,
      shown,
      folder,
    )

-- The pane can be edited where it is a collection's or its folder is found.
abbrev pub IsEditable : PaneView → Type 0
IsEditable v = (is_collection v.tab.type ≡ true) ⊎ ((f : FolderItem) × (v.folder ≡ some f))

collection_of-updated :
    (f : Collection → Collection) (o : Option String) (cs : List Collection) (c : Collection)
    → ((d : Collection) → (f d).id ≡ d.id)
    → collection_of o cs ≡ some c
    → collection_of o (map (λ d. if d.id == c.id then f d else d) cs) ≡ some (f c)
collection_of-updated f none cs c keeps h = absurd (let clash : ⊥ = cc in clash)
collection_of-updated f (some id) cs c keeps h =
    ap (λ i. find (is_collection_of id) (map (λ d. if d.id == i then f d else d) cs))
      (found_id id cs c h)
    ∙ find-update_collection f id cs c keeps h

edited_collection :
    (w : WorkspaceState) (s : TabsState) (v : PaneView) (a : AuthConfig)
    → IsViewOf w s v
    → is_collection v.tab.type ≡ true
    → (u : PaneView) × (pane_view (auth_edit v a w) s ≡ some u) × (shown_auth u ≡ a)
unfolding auth_edit update_collection_auth shown_auth
edited_collection w s v a (active, found, shown, folder) is =
    let u : PaneView = record v { collection = record v.collection { auth = a } } in
    let edited : auth_edit v a w ≡ update_collection_auth w v.collection.id a = rw is refl in
    (
      u,
      ap (λ x. pane_view x s) edited
          ∙ pane_view-IsViewOf (update_collection_auth w v.collection.id a) s u (
            active,
            collection_of-updated (λ c. record c { auth = a }) v.tab.collection_id w.collections
                v.collection (λ d. refl) found,
            shown,
            folder ∙ rw is refl,
          ),
      rw is refl,
    )

folder_in-some :
    (c : Collection) (o : Option String) (f : FolderItem)
    → folder_in c (truthy_id o) ≡ some f
    → (id : String) × (o ≡ some id) × (truthy id ≡ true) × (find_folder c.items id ≡ some f)
folder_in-some c none f h = absurd (let clash : ⊥ = cc in clash)
folder_in-some c (some id) f h = elim (Bool-cases (truthy id)) [
  | inl e ↦ (id, refl, e, sym (rw e refl) ∙ h)
  | inr e ↦ absurd (let no : none ≡ some f = sym (rw e refl) ∙ h in let clash : ⊥ = cc in clash)
]

edited_folder :
    (w : WorkspaceState) (s : TabsState) (v : PaneView) (a : AuthConfig) (f : FolderItem)
    → IsViewOf w s v
    → is_collection v.tab.type ≡ false
    → v.folder ≡ some f
    → (u : PaneView) × (pane_view (auth_edit v a w) s ≡ some u) × (shown_auth u ≡ a)
unfolding auth_edit update_item_auth shown_auth
edited_folder w s v a f (active, found, shown, folder) is there =
    let (id, kept, full, in_tree) =
      folder_in-some v.collection v.tab.folder_id f (sym (folder ∙ rw is refl) ∙ there) in
    let u : PaneView = record {
      tab = v.tab;
      collection = record v.collection { items = patch_auth v.collection.items id a };
      folder = some (record f { auth = a });
    } in
    let edited : auth_edit v a w ≡ update_item_auth w v.collection.id id a =
      rw is (ap (item_auth v.collection a w) kept) in
    (
      u,
      ap (λ x. pane_view x s) edited
          ∙ pane_view-IsViewOf (update_item_auth w v.collection.id id a) s u (
            active,
            collection_of-updated (λ c. record c { items = patch_auth c.items id a })
                v.tab.collection_id w.collections v.collection (λ d. refl) found,
            shown,
            sym (
                rw is (
                  ap (λ o. folder_in u.collection (truthy_id o)) kept
                  ∙ (rw full (
                      find_folder-patch_auth v.collection.items id a
                      ∙ ap (Option.map (λ (x : FolderItem). record x { auth = a })) in_tree)))),
          ),
      rw is refl,
    )

-- After the authentication is edited in the pane of a collection or of a folder that is found, the
-- pane is still shown and shows what was given.
pub shown_auth-auth_edit :
    (w : WorkspaceState) (s : TabsState) (v : PaneView) (a : AuthConfig)
    → pane_view w s ≡ some v
    → IsEditable v
    → (u : PaneView) × (pane_view (auth_edit v a w) s ≡ some u) × (shown_auth u ≡ a)
unfolding pane_view
shown_auth-auth_edit w s v a h editable =
    let view : IsViewOf w s v =
      IsViewOf-pane_of w s v (find (has_id s.active_tab_id) s.tabs) refl h in
    elim (Bool-cases (is_collection v.tab.type)) [
      | inl is ↦ edited_collection w s v a view is
      | inr is ↦ elim editable [
        | inl other ↦ absurd (let clash : ⊥ = cc in clash)
        | inr (f, there) ↦ edited_folder w s v a f view is there
      ]
    ]
