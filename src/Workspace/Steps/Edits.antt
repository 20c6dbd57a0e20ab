-- ===== src/Workspace/Steps/Edits.antt =====
-- The ids after edits of one collection and after actions that draw ids.
use reqlet.Common.{
  hits, ℕ, suc, ◌+◌, ◌≤◌, ◌≡◌, refl, ap, String, ◌==◌, arith, Option, some, if◌then◌else◌, List, [],
  ◌∷◌, ◌++◌, Option-cases, inl, inr, map, find, find_index, take, drop, take-append-drop, ◌<>◌,
}
use reqlet.Types.Collection.{CollectionItem, Collection}
use reqlet.Workspace.Ids.{new_id, draws}
use reqlet.Workspace.Tree.{insert_into_list, clone_items}
use reqlet.Workspace.Tree.Count.{count_id, count_item, count_text, size}
use reqlet.Workspace.Tree.Clone.{count_id-clone_items}
use reqlet.Workspace.Store.{WorkspaceState, add_collection, duplicate_collection, duplicate_item}
use reqlet.Workspace.Store.Move.{count_collections, total}
use reqlet.Workspace.Store.Counts.{
  count_collections-update, total-update-le, total-insert-le, total-append,
  count_collections-append, count_collections-duplicate_item, total-duplicate_item, copied_in,
}
use reqlet.Workspace.Steps.{Fresh, clone_draws}

-- No two collections share an id, and no two items do, whichever collections they are in.
pub record WellFormed (s : WorkspaceState) : Type 0 where
  pub unique_collections : (a : String) → count_collections a s.collections ≤ 1
  pub unique_items : (a : String) → total a s.collections ≤ 1

module _ (id : String) (f : Collection → Collection) (s : WorkspaceState) where
  -- An edit of one collection that keeps its id and adds no items.
  pub edit-WellFormed :
      ((c : Collection) → (f c).id ≡ c.id)
      → ((a : String) (c : Collection) → count_id a (f c).items ≤ count_id a c.items)
      → WellFormed s
      → WellFormed
          (record s { collections = map (λ c. if c.id == id then f c else c) s.collections })
  edit-WellFormed keeps less w = record {
    unique_collections = λ a.
        omega (arith, count_collections-update id f keeps a s.collections, w.unique_collections a);
    unique_items =
        λ a. omega (arith, total-update-le id f a (less a) s.collections, w.unique_items a);
  }

module _ (uuid : ℕ → String) (s : WorkspaceState) (w : WellFormed s) where
  pub add_collection-WellFormed :
      (name : String) → Fresh uuid 1 s → WellFormed (add_collection uuid s name).1
  unfolding add_collection count_id
  add_collection-WellFormed name fresh = record {
    unique_collections = λ a. omega (
      arith,
      count_collections-append a s.collections ((add_collection uuid s name).0 ∷ []),
      fresh a,
    );
    unique_items = λ a.
        omega (arith, total-append a s.collections ((add_collection uuid s name).0 ∷ []), fresh a);
  }

  pub insert-WellFormed :
      (id : String) (folder : Option String) (x : CollectionItem)
      → ((a : String) → count_item a x ≤ count_text a (draws uuid 0 1))
      → Fresh uuid 1 s
      → WellFormed (record s {
        collections =
            map
              (λ c.
                if c.id == id then record c { items = insert_into_list c.items folder x } else c)
              s.collections;
      })
  insert-WellFormed id folder x small fresh = record {
    unique_collections = λ a. omega (
      arith,
      count_collections-update id (λ c. record c { items = insert_into_list c.items folder x })
          (λ c. refl) a s.collections,
      w.unique_collections a,
    );
    unique_items = λ a. omega (
      arith,
      total-insert-le id folder x a s.collections w.unique_items (w.unique_collections id),
      small a,
      fresh a,
    );
  }

  pub duplicate_item-WellFormed :
      (id item : String)
      → Fresh uuid (copied_in uuid id item s.collections) s
      → WellFormed (duplicate_item uuid s id item)
  unfolding duplicate_item
  duplicate_item-WellFormed id item fresh = record {
    unique_collections = λ a. omega (
      arith,
      count_collections-duplicate_item uuid id item a s.collections 0,
      w.unique_collections a,
    );
    unique_items = λ a. omega (
      arith,
      total-duplicate_item uuid id item a s.collections (w.unique_collections id),
      fresh a,
    );
  }

pub clone_draws-find :
    (id : String) (cs : List Collection) (col : Collection)
    → find (λ c. c.id == id) cs ≡ some col
    → clone_draws id cs ≡ suc (size col.items)
clone_draws-find id [] col h = cc
clone_draws-find id (c ∷ cs) col h = ground (arith, clone_draws-find id cs col)

pub total-insert_at :
    (a : String) (k : ℕ) (c : Collection) (cs : List Collection)
    → total a (take k cs ++ (c ∷ drop k cs)) ≡ total a cs + count_id a c.items
total-insert_at a k c cs = omega (
  arith,
  total-append a (take k cs) (c ∷ drop k cs),
  total-append a (take k cs) (drop k cs),
  ap (total a) (take-append-drop k cs),
)

pub count_collections-insert_at :
    (a : String) (k : ℕ) (c : Collection) (cs : List Collection)
    → count_collections a (take k cs ++ (c ∷ drop k cs)) ≡ count_collections a cs + hits c.id a
count_collections-insert_at a k c cs = omega (
  arith,
  count_collections-append a (take k cs) (c ∷ drop k cs),
  count_collections-append a (take k cs) (drop k cs),
  ap (count_collections a) (take-append-drop k cs),
)

module _ (uuid : ℕ → String) (s : WorkspaceState) (w : WellFormed s) (id : String) where
  module _ (col : Collection) (found : find (λ c. c.id == id) s.collections ≡ some col)
      (fresh : Fresh uuid (clone_draws id s.collections) s) where
    pub duplicate_collection-WellFormed_found : WellFormed (duplicate_collection uuid s id)
    unfolding duplicate_collection
    duplicate_collection-WellFormed_found =
        let cs = s.collections in
        let clone : Collection = record col {
          id = new_id uuid 0;
          name = col.name <> " Copy";
          items = (clone_items uuid col.items 1).0;
        } in
        let many = clone_draws-find id cs col found in
        elim (Option-cases (find_index (λ c. c.id == id) cs)) [
          | inl e ↦
              rw (found, duplicate_collection, e)
                (record {
                  unique_collections = λ a. omega (arith, rw many at (fresh a));
                  unique_items = λ a.
                      omega (arith, count_id-clone_items a uuid col.items 1, rw many at (fresh a));
                })
          | inr (k, e) ↦
              rw (found, duplicate_collection, e)
                (record {
                  unique_collections = λ a.
                      omega (
                        arith,
                        count_collections-insert_at a (suc k) clone cs,
                        rw many at (fresh a),
                      );
                  unique_items = λ a. omega (
                    arith,
                    total-insert_at a (suc k) clone cs,
                    count_id-clone_items a uuid col.items 1,
                    rw many at (fresh a),
                  );
                })
        ]
