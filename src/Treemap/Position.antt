-- ===== src/Treemap/Position.antt =====
-- Where a multimap cursor stands, together with the cells before it: the search and the step of
-- module/treemap.c.
use mathlib.Core.List.{append_assoc}
use walb_driver.Common.{
  ℕ, ◌≡◌, refl, sym, ap, subst, subst₂, ◌∙◌, Bool, true, false, Option, some, List, [], ◌∷◌, ◌++◌,
}
use walb_driver.Treemap.{to_list, RbTree, keys, head?}
use walb_driver.Treemap.Lists.{IsSorted}
use walb_driver.Treemap.Lookup.{map_next, map_prev, search_ge}
use walb_driver.Treemap.Found.{map_lookup_node_detail-wanted}
use walb_driver.Treemap.Multimap.{Multimap}
use walb_driver.Treemap.Cursor.{at_data, map_cursor_next, seek, map_cursor_search}
use walb_driver.Treemap.MultiCursor.{
  MultimapCursor, next_cell, at_first_cell, step_cell, multimap_cursor_next, multimap_cursor_search,
  searched, multimap_cursor_init, multimap_cursor_is_data, multimap_cursor_key, multimap_cursor_val,
}
use walb_driver.Treemap.Scan.{pairs, flat, IsFull, from_key}
use walb_driver.Treemap.Cut.{cut}
use walb_driver.Treemap.Scanned.{
  cells_at_entry, next_entry, arrived, map_cursor_next_data, multimap_cursor_next_data,
}

-- The cursor stands at a cell of the node of a key: `us` are the cells before it, `more` those behind it,
-- and `es` the pairs behind it.
pub record Stands (t : Multimap) (c : MultimapCursor) (k v : ℕ) (es : List (ℕ × ℕ)) : Type 0 where
  pub pre : List (ℕ × List ℕ)
  pub us : List ℕ
  pub more : List ℕ
  pub post : List (ℕ × List ℕ)
  pub eq : to_list t ≡ pre ++ (k, us ++ v ∷ more) ∷ post
  pub state : c.curt.state ≡ at_data
  pub curr : c.curt.curr ≡ some k
  pub next : c.curt.next ≡ head? (keys post)
  pub head : c.head ≡ some k
  pub cell : c.cell ≡ v ∷ more
  pub rest : es ≡ pairs k more ++ flat post

abbrev pub Position : Multimap → MultimapCursor → List (ℕ × ℕ) → Type 0
Position t c [] = multimap_cursor_is_data c ≡ false
Position t c ((k, v) ∷ es) = Stands t c k v es

-- The cursor has come to the first cell of the first of these entries.
abbrev pub Arrived : MultimapCursor → List (ℕ × List ℕ) → Type 0
Arrived c [] = multimap_cursor_is_data c ≡ false
Arrived c ((k, cells) ∷ post) =
    (c.curt.state ≡ at_data)
    × (c.curt.curr ≡ some k)
    × (c.curt.next ≡ head? (keys post))
    × (c.head ≡ some k)
    × (c.cell ≡ cells)

pub Stands-reads :
    {t : Multimap} {c : MultimapCursor} {k v : ℕ} {es : List (ℕ × ℕ)}
    → Stands t c k v es
    → (multimap_cursor_key c ≡ k) × (multimap_cursor_val c ≡ v) × (multimap_cursor_is_data c ≡ true)
unfolding multimap_cursor_key multimap_cursor_val multimap_cursor_is_data
Stands-reads p = (rw (p.state, p.head) refl, rw (p.state, p.cell) refl, rw p.state refl)

-- The same in any multimap that has these entries.
pub Arrived-Position :
    (t : Multimap) (c : MultimapCursor) (pre post : List (ℕ × List ℕ))
    → to_list t ≡ pre ++ post
    → IsFull post
    → Arrived c post
    → Position t c (flat post)
Arrived-Position t c pre [] e f a = a
Arrived-Position t c pre ((k, []) ∷ post) e f a = absurd (f.0 refl)
Arrived-Position t c pre ((k, v ∷ more) ∷ post) e f a = record {
  pre = pre;
  us = [];
  more = more;
  post = post;
  eq = e;
  state = a.0;
  curr = a.1;
  next = a.2;
  head = a.3;
  cell = a.4;
  rest = refl;
}

module _ (rb : RbTree (List ℕ)) (t : Multimap) (sorted : IsSorted (to_list t))
    (full : IsFull (to_list t)) where
  arrived-Arrived :
      (p : Option ℕ) (pre post : List (ℕ × List ℕ))
      → to_list t ≡ pre ++ post
      → Arrived (at_first_cell t (arrived rb t sorted full p (head? (keys post)))) post
  unfolding at_first_cell multimap_cursor_is_data map_next
  arrived-Arrived p pre [] e = refl
  arrived-Arrived p pre ((k, cells) ∷ post) e = (
    refl,
    refl,
    next_entry rb t sorted full pre k cells post e,
    refl,
    cells_at_entry rb t sorted full pre k cells post e,
  )

  module _ {c : MultimapCursor} {k v : ℕ} {es : List (ℕ × ℕ)} (p : Stands t c k v es) where
    -- The step from the last cell of a node.
    pub next-Arrived :
        p.more ≡ []
        → Arrived (multimap_cursor_next rb t c) p.post
          × (multimap_cursor_next rb t c ≡ at_first_cell t (map_cursor_next rb t c.curt))
    unfolding step_cell
    next-Arrived e =
        let eq : multimap_cursor_next rb t c ≡ at_first_cell t (map_cursor_next rb t c.curt) =
          multimap_cursor_next_data rb t sorted full c p.state
          ∙ ap (λ l. step_cell rb t c (next_cell l)) p.cell
          ∙ ap (step_cell rb t c) e in
        (
          subst (λ x. Arrived x p.post)
              (sym (
                eq
                ∙ ap (at_first_cell t) (
                    map_cursor_next_data rb t sorted full c.curt p.state
                    ∙ ap (arrived rb t sorted full c.curt.curr) p.next)))
              (arrived-Arrived c.curt.curr (p.pre ++ (k, p.us ++ v ∷ p.more) ∷ []) p.post
                (p.eq ∙ sym (append_assoc p.pre ((k, p.us ++ v ∷ p.more) ∷ []) p.post))),
          eq,
        )

    -- The step from another cell.
    pub next-cell :
        (u : ℕ) (more : List ℕ)
        → p.more ≡ u ∷ more
        → multimap_cursor_next rb t c ≡ record c { cell = u ∷ more }
    unfolding step_cell
    next-cell u more e =
        multimap_cursor_next_data rb t sorted full c p.state
        ∙ ap (λ l. step_cell rb t c (next_cell l)) p.cell
        ∙ ap (step_cell rb t c) e

    pub next-Position : Position t (multimap_cursor_next rb t c) es
    next-Position = go p.more refl
      where
        end_full :
            (pre : List (ℕ × List ℕ)) (e : ℕ × List ℕ) → IsFull (pre ++ e ∷ p.post) → IsFull p.post
        end_full [] e f = f.1
        end_full (x ∷ pre) e f = end_full pre e f.1

        go : (more : List ℕ) → p.more ≡ more → Position t (multimap_cursor_next rb t c) es
        go [] e =
            subst (Position t (multimap_cursor_next rb t c))
              (sym (p.rest ∙ ap (λ more. pairs k more ++ flat p.post) e))
              (Arrived-Position t (multimap_cursor_next rb t c)
                (p.pre ++ (k, p.us ++ v ∷ p.more) ∷ []) p.post
                (p.eq ∙ sym (append_assoc p.pre ((k, p.us ++ v ∷ p.more) ∷ []) p.post))
                (end_full p.pre (k, p.us ++ v ∷ p.more) (subst IsFull p.eq full))
                (next-Arrived e).0)
        go (u ∷ more) e =
            subst₂ (Position t) (sym (next-cell u more e))
              (sym (p.rest ∙ ap (λ more. pairs k more ++ flat p.post) e))
              (record {
                pre = p.pre;
                us = p.us ++ v ∷ [];
                more = more;
                post = p.post;
                eq =
                    p.eq
                    ∙ ap (λ l. p.pre ++ (k, l) ∷ p.post)
                        (ap (λ m. p.us ++ v ∷ m) e ∙ sym (append_assoc p.us (v ∷ []) (u ∷ more)));
                state = p.state;
                curr = p.curr;
                next = p.next;
                head = p.head;
                cell = refl;
                rest = refl;
              })

  -- What the search for the first key from a start on comes to.
  pub data Searched (start : ℕ) (r : Bool × MultimapCursor) : Type 0 where
    nothing : r.0 ≡ false → from_key start (to_list t) ≡ [] → Searched start r
    found :
        (k v : ℕ) (es : List (ℕ × ℕ))
        → r.0 ≡ true
        → flat (from_key start (to_list t)) ≡ (k, v) ∷ es
        → Stands t r.1 k v es
        → Searched start r

  pub multimap_cursor_search-Searched :
      (start : ℕ)
      → Searched start (multimap_cursor_search rb t multimap_cursor_init start search_ge false)
  unfolding multimap_cursor_search map_cursor_search seek at_first_cell
  multimap_cursor_search-Searched start =
      let r = cut start (to_list t) in
      subst (λ n. Searched start (searched rb t multimap_cursor_init false (seek rb t n)))
        (sym (map_lookup_node_detail-wanted rb t sorted start search_ge ∙ r.first))
        (go r.low (from_key start (to_list t)) r.eq refl)
    where
      end_full : (pre post : List (ℕ × List ℕ)) → IsFull (pre ++ post) → IsFull post
      end_full [] post f = f
      end_full (x ∷ pre) post f = end_full pre post f.1

      go :
          (pre post : List (ℕ × List ℕ))
          → to_list t ≡ pre ++ post
          → from_key start (to_list t) ≡ post
          → Searched start
              (searched rb t multimap_cursor_init false (seek rb t (head? (keys post))))
      go pre [] e f = nothing refl f
      go pre ((k, []) ∷ post) e f =
          absurd ((end_full pre ((k, []) ∷ post) (subst IsFull e full)).0 refl)
      go pre ((k, v ∷ more) ∷ post) e f = found k v (pairs k more ++ flat post) refl (ap flat f) (
          Arrived-Position t
            (at_first_cell t (arrived rb t sorted full (map_prev rb t (some k)) (some k))) pre
            ((k, v ∷ more) ∷ post) e (end_full pre ((k, v ∷ more) ∷ post) (subst IsFull e full))
            (arrived-Arrived (map_prev rb t (some k)) pre ((k, v ∷ more) ∷ post) e))
