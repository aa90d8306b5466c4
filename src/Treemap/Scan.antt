-- ===== src/Treemap/Scan.antt =====
-- The loops over a multimap that the driver writes with a cursor: search the first key from a start,
-- then go on while the key lies below an end. A cursor that stands at data points at a tail of the
-- key-value pairs of the multimap.
use walb_driver.Common.{
  ℕ, zero, suc, ◌≡◌, ◌≢◌, refl, true, false, Option, none, some, List, [], ◌∷◌, ◌++◌, All, leb, ltb,
  if◌then◌else◌,
}
use walb_driver.Treemap.{to_list, RbTree, keys, head?}
use walb_driver.Treemap.Lookup.{search_ge}
use walb_driver.Treemap.Multimap.{Multimap}
use walb_driver.Treemap.Cursor.{at_data}
use walb_driver.Treemap.MultiCursor.{
  MultimapCursor, multimap_cursor_next, multimap_cursor_search, multimap_cursor_init,
  multimap_cursor_key, multimap_cursor_val, multimap_cursor_is_data,
}

-- The key-value pairs of a multimap, in the order of a cursor.
abbrev pub pairs : ℕ → List ℕ → List (ℕ × ℕ)
pairs k [] = []
pairs k (v ∷ vs) = (k, v) ∷ pairs k vs

abbrev pub flat : List (ℕ × List ℕ) → List (ℕ × ℕ)
flat [] = []
flat ((k, vs) ∷ es) = pairs k vs ++ flat es

-- No node is without cells.
abbrev pub IsFull : List (ℕ × List ℕ) → Type 0
IsFull es = All (λ (e : ℕ × List ℕ). e.1 ≢ []) es

-- The driver's loop: `while (key(cur) < end) { visit(val(cur)); if (!next(cur)) break; }`, with fuel.
unfoldable pub while_before :
    {S : Type 0} → RbTree (List ℕ) → Multimap → ℕ → (S → ℕ → S) → ℕ → MultimapCursor → S → Option S
while_before rb t end visit zero c s = none
while_before rb t end visit (suc fuel) c s =
    let s' = visit s (multimap_cursor_val c) in
    let c' = multimap_cursor_next rb t c in
    let rest = while_before rb t end visit fuel c' s' in
    if ltb (multimap_cursor_key c) end
    then (if multimap_cursor_is_data c' then rest else some s')
    else some s

-- The search from a start, and the loop if it finds a key.
unfoldable pub scan :
    {S : Type 0} → RbTree (List ℕ) → Multimap → ℕ → ℕ → ℕ → (S → ℕ → S) → S → Option S
scan rb t fuel start end visit s =
    let (found, c) = multimap_cursor_search rb t multimap_cursor_init start search_ge false in
    if found then while_before rb t end visit fuel c s else some s

-- What it computes: a fold over the pairs while the key lies below the end.
abbrev pub fold_before : {S : Type 0} → ℕ → (S → ℕ → S) → S → List (ℕ × ℕ) → S
fold_before end visit s [] = s
fold_before end visit s ((k, v) ∷ es) =
    if ltb k end then fold_before end visit (visit s v) es else s

-- The entries from a key on.
abbrev pub from_key : {A : Type 0} → ℕ → List (ℕ × A) → List (ℕ × A)
from_key start [] = []
from_key start (e ∷ es) = if leb start e.0 then e ∷ es else from_key start es

pub record PointsAt (t : Multimap) (c : MultimapCursor) (k v : ℕ) (es : List (ℕ × ℕ)) : Type 0 where
  pub pre : List (ℕ × List ℕ)
  pub cells : List ℕ
  pub post : List (ℕ × List ℕ)
  pub more : List ℕ
  pub eq : to_list t ≡ pre ++ (k, cells) ∷ post
  pub state : c.curt.state ≡ at_data
  pub curr : c.curt.curr ≡ some k
  pub next : c.curt.next ≡ head? (keys post)
  pub head : c.head ≡ some k
  pub cell : c.cell ≡ v ∷ more
  pub rest : es ≡ pairs k more ++ flat post

-- The cursor stands at the first of these pairs, or at no data if there are none.
abbrev pub After : Multimap → MultimapCursor → List (ℕ × ℕ) → Type 0
After t c [] = multimap_cursor_is_data c ≡ false
After t c ((k, v) ∷ es) = PointsAt t c k v es

pub key-PointsAt :
    {t : Multimap} {c : MultimapCursor} {k v : ℕ} {es : List (ℕ × ℕ)}
    → PointsAt t c k v es
    → (multimap_cursor_key c ≡ k) × (multimap_cursor_val c ≡ v) × (multimap_cursor_is_data c ≡ true)
unfolding multimap_cursor_key multimap_cursor_val multimap_cursor_is_data
key-PointsAt p = (rw (p.state, p.head) refl, rw (p.state, p.cell) refl, rw p.state refl)
