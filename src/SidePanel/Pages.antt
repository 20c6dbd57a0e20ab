-- ===== src/SidePanel/Pages.antt =====
-- gui/web/src/components/layout/side-panel.tsx, `HistoryPanel`: which entries are shown.
use reqlet.Common.{
  ℕ, zero, suc, ◌+◌, ◌*◌, ◌≤◌, ◌≡◌, refl, sym, ap, ◌⊎◌, inl, inr, true, false, List, [], ◌∷◌, ◌++◌,
  arith, leb, nat_eq, Bool-cases, length, take, drop, length-drop,
}
use mathlib.Core.Path.{subst}
use Prim.Native.Nat.{min}
use native.Mathlib.Nat.{suc-add}
use reqlet.Backend.Types.{HistoryEntry}
use reqlet.SidePanel.History.{
  page_size, History, show_page, load_more, HistoryEvent, arrives, loads_more, reloads,
  history_event, history_all, reload,
}

-- A server that answers a page from its list.
abbrev pub page_of : List HistoryEntry → ℕ → List HistoryEntry
page_of entries offset = take page_size (drop offset entries)

take-add :
    (m n : ℕ) (entries : List HistoryEntry)
    → take m entries ++ take n (drop m entries) ≡ take (m + n) entries
take-add zero n entries = let same : 0 + n ≡ n = omega arith in ap (λ k. take k entries) (sym same)
take-add (suc m) zero [] = rw suc-add refl
take-add (suc m) (suc n) [] = rw suc-add refl
take-add (suc m) n (x ∷ entries) = rw suc-add (ap (λ l. x ∷ l) (take-add m n entries))

take_all : (n : ℕ) (entries : List HistoryEntry) → length entries ≤ n → take n entries ≡ entries
take_all zero [] h = refl
take_all zero (x ∷ entries) h = absurd (omega arith)
take_all (suc n) [] h = refl
take_all (suc n) (x ∷ entries) h = ap (λ l. x ∷ l) (take_all n entries (omega arith))

length-take-min :
    (n : ℕ) (entries : List HistoryEntry) → length (take n entries) ≡ min n (length entries)
length-take-min zero entries = omega arith
length-take-min (suc n) [] = omega arith
length-take-min (suc n) (x ∷ entries) = omega (arith, length-take-min n entries)

full_page :
    (entries : List HistoryEntry) (offset : ℕ)
    → offset ≤ length entries
    → nat_eq (length (page_of entries offset)) 50 ≡ leb (offset + 50) (length entries)
full_page entries offset h =
    ground (arith, length-take-min 50 (drop offset entries), length-drop offset entries)

-- The answer of a list to the request of an offset arrives, and so many times "Load more" is clicked
-- and the answer to it arrives.
abbrev pub turn_pages : List HistoryEntry → ℕ → ℕ → List HistoryEvent
turn_pages entries offset zero = arrives (page_of entries offset) ∷ []
turn_pages entries offset (suc k) =
    arrives (page_of entries offset) ∷ (loads_more ∷ turn_pages entries (offset + 50) k)

-- What is shown is a beginning of the list, and more is offered if there is more of it.
record Shows (list : List HistoryEntry) (offset : ℕ) (h : History) : Type 0 where
  at : h.offset ≡ offset
  entries : h.entries ≡ take (offset + 50) list
  more : h.has_more ≡ leb (offset + 50) (length list)

Shows-arrives :
    (list : List HistoryEntry) (offset : ℕ) (h : History)
    → h.offset ≡ offset
    → ((offset ≡ 0) ⊎ (h.entries ≡ take offset list))
    → offset ≤ length list
    → Shows list offset (show_page (page_of list offset) h)
unfolding show_page
Shows-arrives list offset h at (inl e) room = record {
  at = at;
  entries = let first : nat_eq h.offset 0 ≡ true = ground (arith, at, e) in rw (first, e) refl;
  more = full_page list offset room;
}
Shows-arrives list offset h at (inr same) room = record {
  at = at;
  entries = elim (Bool-cases (nat_eq h.offset 0)) [
    | inl e ↦ let zeroth : offset ≡ 0 = ground (arith, at) in rw (e, zeroth) refl
    | inr e ↦ rw (e, same) (take-add offset 50 list)
  ];
  more = full_page list offset room;
}

loads_more-load_more : (h : History) → h.has_more ≡ true → history_event h loads_more ≡ load_more h
unfolding history_event
loads_more-load_more h e = rw e refl

Shows-turn_pages :
    (list : List HistoryEntry) (offset k : ℕ) (h : History)
    → h.offset ≡ offset
    → ((offset ≡ 0) ⊎ (h.entries ≡ take offset list))
    → offset + k * 50 ≤ length list
    → Shows list (offset + k * 50) (history_all h (turn_pages list offset k))
unfolding history_all history_event load_more
Shows-turn_pages list offset zero h at same room =
    let here : offset + 0 * 50 ≡ offset = omega arith in
    rw here (Shows-arrives list offset h at same (omega arith))
Shows-turn_pages list offset (suc k) h at same room =
    let s = Shows-arrives list offset h at same (omega arith) in
    let h' = show_page (page_of list offset) h in
    let more : h'.has_more ≡ true = ground (arith, s.more) in
    let next : offset + suc k * 50 ≡ offset + 50 + k * 50 = omega arith in
    let rest =
      Shows-turn_pages list (offset + 50) k (load_more h') (ap (λ n. n + 50) s.at) (inr s.entries)
        (omega (arith, room)) in
    let clicked = loads_more-load_more h' more in
    rw next (
      subst
        (λ x. Shows list (offset + 50 + k * 50) (history_all x (turn_pages list (offset + 50) k)))
        (sym clicked) rest)

-- After a reload at any time, "Load more" is clicked once or more, and the answers for all offsets
-- come from one list, each arriving once. If the list reaches the last offset, then the beginning of
-- the list up to the end of that page is shown, each entry once and in its order, and more is offered
-- if and only if the list has all of that page. New data for the same offset, as another fetch gives
-- them after the history has grown, are appended to that, so that the page is there twice. Only after
-- another reload do the next data take the place of all that is shown.
pub refetched_page_appends :
    (h : History) (list changed : List HistoryEntry) (k : ℕ)
    → suc k * 50 ≤ length list
    → let shown = history_all (history_event h reloads) (turn_pages list 0 (suc k)) in
      (shown.entries ≡ take (suc k * 50 + 50) list)
      × (shown.has_more ≡ leb (suc k * 50 + 50) (length list))
      × ((history_event shown (arrives changed)).entries ≡ take (suc k * 50 + 50) list ++ changed)
      × ((history_all shown (reloads ∷ (arrives changed ∷ []))).entries ≡ changed)
unfolding history_event history_all show_page reload
refetched_page_appends h list changed k room =
    let start = reload h in
    let shown = history_all start (turn_pages list 0 (suc k)) in
    let s : Shows list (suc k * 50) shown =
      subst (λ n. Shows list n shown) (omega arith)
        (Shows-turn_pages list 0 (suc k) start refl (inl refl) (omega arith)) in
    let later : nat_eq shown.offset 0 ≡ false = ground (arith, s.at) in
    (s.entries, s.more, rw later (ap (λ l. l ++ changed) s.entries), refl)
