-- ===== src/Tests/Unique.antt =====
-- The ids of the workspace and the tabs of the runs.
use reqlet.Common.{
  ◌+◌, ◌≤◌, ◌≡◌, refl, sym, ◌∙◌, inl, inr, String, false, arith, string_dec, ◌==◌, Bool-cases,
  ==-eq, ==-ne, All, hits,
}
use reqlet.Workspace.Tree.Count.{count_id, UniqueIds}
use reqlet.Workspace.Store.Move.{count_collections, HasUniqueItems}
use reqlet.Workspace.Steps.Edits.{WellFormed}
use reqlet.Tests.Data.{demo, two_levels, three_tabs}
use reqlet.Tabs.Valid.{Valid, count_tab}

-- Two distinct ids are not both at one place.
apart : (x y a : String) → (x == y) ≡ false → hits x a + hits y a ≤ 1
apart x y a h = elim (Bool-cases (x == a)) [
  | inl e ↦ elim (Bool-cases (y == a)) [
    | inl f ↦
        let same : x ≡ y = ==-eq x a e ∙ sym (==-eq y a f) in
        let no_way = ==-ne x y h in absurd (no_way same)
    | inr f ↦ ground arith
  ]
  | inr e ↦ ground arith
]

items_apart :
    (("f1" == "r2") ≡ false)
    × (("f1" == "f2") ≡ false)
    × (("f1" == "r1") ≡ false)
    × (("r2" == "f2") ≡ false)
    × (("r2" == "r1") ≡ false)
    × (("f2" == "r1") ≡ false)
unfolding string_dec
items_apart = (refl, refl, refl, refl, refl, refl)

others_apart :
    (("c1" == "c2") ≡ false)
    × (("t-1" == "t-2") ≡ false)
    × (("t-1" == "t-3") ≡ false)
    × (("t-2" == "t-3") ≡ false)
unfolding string_dec
others_apart = (refl, refl, refl, refl)

pub two_levels-UniqueIds : UniqueIds two_levels
unfolding count_id
two_levels-UniqueIds a =
    let (p, q, r, s, t, u) = items_apart in
    omega (
      arith,
      apart "f1" "r2" a p,
      apart "f1" "f2" a q,
      apart "f1" "r1" a r,
      apart "r2" "f2" a s,
      apart "r2" "r1" a t,
      apart "f2" "r1" a u,
    )

pub demo-HasUniqueItems : All HasUniqueItems demo.collections
unfolding count_id
demo-HasUniqueItems = (two_levels-UniqueIds, (λ a. omega arith, tt))

demo-collections : (a : String) → count_collections a demo.collections ≤ 1
demo-collections a = let (p, q, r, s) = others_apart in omega (arith, apart "c1" "c2" a p)

pub demo-WellFormed : WellFormed demo
unfolding count_id
demo-WellFormed = record {
  unique_collections = demo-collections;
  unique_items = λ a. omega (arith, two_levels-UniqueIds a);
}

three_tabs_unique : (a : String) → count_tab a three_tabs.tabs ≤ 1
three_tabs_unique a =
    let (p, q, r, s) = others_apart in
    omega (arith, apart "t-1" "t-2" a q, apart "t-1" "t-3" a r, apart "t-2" "t-3" a s)

three_tabs-active : 1 ≤ count_tab three_tabs.active_tab_id three_tabs.tabs
unfolding string_dec
three_tabs-active = ground arith

pub three_tabs-Valid : Valid three_tabs
three_tabs-Valid = record {
  unique = three_tabs_unique;
  active = inr three_tabs-active;
  bounded = omega arith;
}
