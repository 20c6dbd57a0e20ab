-- ===== src/Workspace/Tree/Find.antt =====
-- Looking up requests and the path of a folder.
use mathlib.Core.List.{append_assoc}
use reqlet.Common.{
  hits, ℕ, ◌+◌, ◌≡◌, refl, ◌∙◌, String, ◌==◌, arith, Option, none, some, List, [], ◌∷◌, ◌++◌,
  Bool-cases, Option-cases, inl, inr, ◌⊎◌, or_else,
}
use reqlet.Types.Collection.{Items, nil, cons_request, cons_folder}
use reqlet.Workspace.Tree.{
  PathSegment, RequestWithCollection, find_request_in_items, find_folder_in_items, folder_segment,
}
use reqlet.Workspace.Tree.Count.{count_folder}

unfoldable pub count_request : String → Items → ℕ
count_request a nil = 0
count_request a (cons_request r rest) = hits r.id a + count_request a rest
count_request a (cons_folder f kids rest) = count_request a kids + count_request a rest

pub or_else-eq-none {ℓ} :
    {A : Type ℓ} (m n : Option A) → or_else m n ≡ none → (m ≡ none) × (n ≡ none)
or_else-eq-none none n h = (refl, h)
or_else-eq-none (some a) n h = cc

-- No request is found exactly where no request has the id.
pub find_request_in_items-none :
    (items : Items) (id collection_id : String)
    → (find_request_in_items items id collection_id ≡ none → count_request id items ≡ 0)
      × (count_request id items ≡ 0 → find_request_in_items items id collection_id ≡ none)
unfolding find_request_in_items count_request
find_request_in_items-none nil id c = (λ h. refl, λ h. refl)
find_request_in_items-none (cons_request r rest) id c =
    let (p, q) = find_request_in_items-none rest id c in (λ h. ground arith, λ h. ground arith)
find_request_in_items-none (cons_folder f kids rest) id c =
    let (p, q) = find_request_in_items-none rest id c in
    let (p', q') = find_request_in_items-none kids id c in
    (
      λ h. ground (
        arith,
        or_else-eq-none (find_request_in_items kids id c) (find_request_in_items rest id c) h,
      ),
      λ h. ground arith,
    )

-- A request that is found has the id, and comes with the collection that was searched.
pub find_request_in_items_sound :
    (items : Items) (id collection_id : String) (found : RequestWithCollection)
    → find_request_in_items items id collection_id ≡ some found
    → (found.request.id ≡ id) × (found.collection_id ≡ collection_id)
unfolding find_request_in_items
find_request_in_items_sound nil id c found h = cc
find_request_in_items_sound (cons_request r rest) id c found h =
    ground (arith, find_request_in_items_sound rest id c found)
find_request_in_items_sound (cons_folder f kids rest) id c found h =
    elim (Option-cases (find_request_in_items kids id c)) [
      | inl e ↦ find_request_in_items_sound rest id c found (ground arith)
      | inr (x, e) ↦ find_request_in_items_sound kids id c found (ground arith)
    ]

-- The folders from these items down to one of the id, outermost first.
abbrev pub IsFolderPath : Items → String → List PathSegment → Type 0
IsFolderPath nil id path = ⊥
IsFolderPath (cons_request r rest) id path = IsFolderPath rest id path
IsFolderPath (cons_folder f kids rest) id path =
    ((f.id ≡ id) × (path ≡ folder_segment f ∷ []))
    ⊎ ((more : List PathSegment) × (path ≡ folder_segment f ∷ more) × IsFolderPath kids id more)
    ⊎ IsFolderPath rest id path

-- A path that is found is the one that was given, followed by the folders down to the id.
pub find_folder_in_items_sound :
    (items : Items) (id : String) (current found : List PathSegment)
    → find_folder_in_items items id current ≡ some found
    → (path : List PathSegment) × (found ≡ current ++ path) × IsFolderPath items id path
unfolding find_folder_in_items
find_folder_in_items_sound nil id current found h = cc
find_folder_in_items_sound (cons_request r rest) id current found h =
    find_folder_in_items_sound rest id current found h
find_folder_in_items_sound (cons_folder f kids rest) id current found h =
    let step : List PathSegment = current ++ (folder_segment f ∷ []) in
    elim (Bool-cases (f.id == id)) [
      | inl e ↦ (folder_segment f ∷ [], ground arith, inl (ground arith, refl))
      | inr e ↦ elim (Option-cases (find_folder_in_items kids id step)) [
        | inl k ↦
            let (path, p, q) = find_folder_in_items_sound rest id current found (ground arith) in
            (path, p, inr (inr q))
        | inr (x, k) ↦
            let same : found ≡ x = ground arith in
            let (path, p, q) = find_folder_in_items_sound kids id step x k in
            (
              folder_segment f ∷ path,
              same ∙ p ∙ append_assoc current (folder_segment f ∷ []) path,
              inr (inl (path, refl, q)),
            )
      ]
    ]

-- No path is found exactly where no folder has the id.
pub find_folder_in_items-none :
    (items : Items) (id : String) (current : List PathSegment)
    → (find_folder_in_items items id current ≡ none → count_folder id items ≡ 0)
      × (count_folder id items ≡ 0 → find_folder_in_items items id current ≡ none)
unfolding find_folder_in_items count_folder
find_folder_in_items-none nil id c = (λ h. refl, λ h. refl)
find_folder_in_items-none (cons_request r rest) id c = find_folder_in_items-none rest id c
find_folder_in_items-none (cons_folder f kids rest) id c =
    let step : List PathSegment = c ++ (folder_segment f ∷ []) in
    let (p, q) = find_folder_in_items-none rest id c in
    let (p', q') = find_folder_in_items-none kids id step in (λ h. ground arith, λ h. ground arith)
