-- ===== src/Workspace/Tree/Clone.antt =====
-- Copies of items: the ids that a copy draws, and what it keeps of the original.
use reqlet.Common.{ℕ, zero, suc, ◌+◌, ◌≡◌, refl, ap, String, arith}
use native.Mathlib.Nat.{zero-add, add-zero}
use reqlet.Types.Collection.{Items, nil, cons_request, cons_folder}
use reqlet.Workspace.Ids.{draws}
use reqlet.Workspace.Tree.{clone_items}
use reqlet.Workspace.Tree.Count.{count_id, count_text, size}

-- The items with every id set to the empty text: what they are but for their ids.
unfoldable pub erase_ids : Items → Items
erase_ids nil = nil
erase_ids (cons_request r rest) = cons_request (record r { id = "" }) (erase_ids rest)
erase_ids (cons_folder f kids rest) =
    cons_folder (record f { id = "" }) (erase_ids kids) (erase_ids rest)

-- The ids that are drawn in two runs are those of the one run through both.
pub count_text-draws :
    (a : String) (uuid : ℕ → String) (n k m : ℕ)
    → count_text a (draws uuid n (k + m))
      ≡ count_text a (draws uuid n k) + count_text a (draws uuid (n + k) m)
count_text-draws a uuid n zero m = simp (zero-add, add-zero)
count_text-draws a uuid n (suc k) m =
    let shift : n + suc k ≡ suc n + k = omega arith in
    let longer : suc k + m ≡ suc (k + m) = omega arith in
    rw (shift, longer) (omega (arith, count_text-draws a uuid (suc n) k m))

-- A clone draws one id for each item.
pub clone_items-drawn :
    (uuid : ℕ → String) (items : Items) (n : ℕ) → (clone_items uuid items n).1 ≡ n + size items
unfolding clone_items size
clone_items-drawn uuid nil n = omega arith
clone_items-drawn uuid (cons_request r rest) n = omega (arith, clone_items-drawn uuid rest (suc n))
clone_items-drawn uuid (cons_folder f kids rest) n =
    let m : ℕ = (clone_items uuid kids (suc n)).1 in
    omega (arith, clone_items-drawn uuid kids (suc n), clone_items-drawn uuid rest m)

-- The ids of a clone are the drawn ones.
pub count_id-clone_items :
    (a : String) (uuid : ℕ → String) (items : Items) (n : ℕ)
    → count_id a (clone_items uuid items n).0 ≡ count_text a (draws uuid n (size items))
unfolding clone_items count_id size
count_id-clone_items a uuid nil n = refl
count_id-clone_items a uuid (cons_request r rest) n =
    omega (arith, count_id-clone_items a uuid rest (suc n))
count_id-clone_items a uuid (cons_folder f kids rest) n = rw (clone_items-drawn uuid kids (suc n)) (
    omega (
      arith,
      count_id-clone_items a uuid kids (suc n),
      count_id-clone_items a uuid rest (suc n + size kids),
      count_text-draws a uuid (suc n) (size kids) (size rest),
    ))

-- But for the ids, a clone is the original.
pub clone_items-erase_ids :
    (uuid : ℕ → String) (items : Items) (n : ℕ)
    → erase_ids (clone_items uuid items n).0 ≡ erase_ids items
unfolding clone_items erase_ids
clone_items-erase_ids uuid nil n = refl
clone_items-erase_ids uuid (cons_request r rest) n =
    ap (cons_request (record r { id = "" })) (clone_items-erase_ids uuid rest (suc n))
clone_items-erase_ids uuid (cons_folder f kids rest) n = cc (
  clone_items-erase_ids uuid kids (suc n),
  clone_items-erase_ids uuid rest (clone_items uuid kids (suc n)).1,
)
