-- ===== src/Workspace/Steps/Moves.antt =====
-- The ids after moving an item and after duplicating a collection.
use reqlet.Common.{
  ℕ, zero, suc, ◌+◌, ◌*◌, ◌≤◌, ◌≡◌, refl, ap, String, ◌==◌, arith, Option, List, [], ◌∷◌,
  Bool-cases, Option-cases, inl, inr, find, All,
}
use reqlet.Types.Collection.{Collection}
use reqlet.Workspace.Tree.{extract_from_list, ScriptField, pre_request_script, test_script}
use reqlet.Workspace.Store.{
  WorkspaceState, duplicate_collection, move_item, set_collection_script, onto_itself,
}
use reqlet.Workspace.Store.Move.{count_collections, total, HasUniqueItems, total-move_item}
use reqlet.Workspace.Store.Counts.{arrivals-le, count_collections-move}
use reqlet.Workspace.Variables.{add_collection_variable_from}
use reqlet.Workspace.Steps.{Fresh, clone_draws}
use reqlet.Workspace.Steps.Edits.{WellFormed, duplicate_collection-WellFormed_found}

pub All-HasUniqueItems :
    (cs : List Collection) → ((a : String) → total a cs ≤ 1) → All HasUniqueItems cs
All-HasUniqueItems [] u = tt
All-HasUniqueItems (c ∷ cs) u =
    (λ a. omega (arith, u a), All-HasUniqueItems cs (λ a. omega (arith, u a)))

-- A count that comes to n + k of m, with k at most one, is at most n's bound.
pub no_more_than : (after m n k : ℕ) → k ≤ 1 → n ≤ 1 → after + m ≡ n + k * m → after ≤ 1
no_more_than after m n zero h b e = omega arith
no_more_than after m n (suc zero) h b e = omega arith
no_more_than after m n (suc (suc k)) h b e = absurd (omega arith)

pub move_item-WellFormed :
    (s : WorkspaceState) (source item target : String) (folder : Option String)
    → WellFormed s
    → WellFormed (move_item s source item target folder)
unfolding move_item
move_item-WellFormed s source item target folder w =
    elim (Option-cases (find (λ c. c.id == source) s.collections)) [
      | inl e ↦ rw (e, move_item) w
      | inr (src, e) ↦ elim (Bool-cases (onto_itself item folder)) [
        | inl k ↦ rw (e, move_item, k) w
        | inr k ↦ elim (Option-cases (extract_from_list src.items item).item) [
          | inl z ↦ rw (e, move_item, k, z) w
          | inr (x, z) ↦ record {
            unique_collections = λ a.
                rw (e, move_item, k, z)
                  (omega (
                    arith,
                    count_collections-move a source target folder x
                        (extract_from_list src.items item).remaining s.collections,
                    w.unique_collections a,
                  ));
            unique_items = λ a.
                no_more_than _ _ _ _
                  (omega (
                    arith,
                    arrivals-le source item target folder s.collections w.unique_items
                        (w.unique_collections target),
                    w.unique_collections target,
                  ))
                  (w.unique_items a)
                  (total-move_item s source item target folder src x a
                    (All-HasUniqueItems s.collections w.unique_items) (w.unique_collections source)
                    e k z);
          }
        ]
      ]
    ]

pub add_collection_variable-eq :
    (uuid : ℕ → String) (id a : String) (cs : List Collection) (n : ℕ)
    → (count_collections a (add_collection_variable_from uuid id cs n) ≡ count_collections a cs)
      × (total a (add_collection_variable_from uuid id cs n) ≡ total a cs)
add_collection_variable-eq uuid id a [] n = (refl, refl)
add_collection_variable-eq uuid id a (c ∷ cs) n = ground (
  arith,
  add_collection_variable-eq uuid id a cs (suc n),
  add_collection_variable-eq uuid id a cs n,
)

pub set_collection_script-keeps :
    (field : ScriptField) (value : String) (c : Collection)
    → ((set_collection_script field value c).id ≡ c.id)
      × ((set_collection_script field value c).items ≡ c.items)
set_collection_script-keeps pre_request_script value c = (refl, refl)
set_collection_script-keeps test_script value c = (refl, refl)

pub WellFormed-of_collections :
    (s t : WorkspaceState) → t.collections ≡ s.collections → WellFormed s → WellFormed t
WellFormed-of_collections s t e w = record {
  unique_collections = λ a. omega (arith, ap (count_collections a) e, w.unique_collections a);
  unique_items = λ a. omega (arith, ap (total a) e, w.unique_items a);
}

pub duplicate_collection-WellFormed :
    (uuid : ℕ → String) (s : WorkspaceState) (id : String)
    → WellFormed s
    → Fresh uuid (clone_draws id s.collections) s
    → WellFormed (duplicate_collection uuid s id)
unfolding duplicate_collection
duplicate_collection-WellFormed uuid s id w fresh =
    elim (Option-cases (find (λ c. c.id == id) s.collections)) [
      | inl e ↦ rw (e, duplicate_collection) w
      | inr (col, e) ↦ duplicate_collection-WellFormed_found uuid s w id col e fresh
    ]
