-- ===== src/Treemap/Scanned.antt =====
-- The loops over a multimap against a fold over its pairs.
use mathlib.Core.List.{append_assoc}
use mathlib.Core.Option
use walb_driver.Common.{
  ℕ, zero, suc, ◌≤◌, ◌≡◌, ◌≢◌, refl, sym, ap, subst, subst₂, ◌∙◌, false, Option, none, some, List,
  [], ◌∷◌, ◌++◌, arith, length, if◌then◌else◌,
}
use walb_driver.Treemap.{to_list, RbTree, keys, head?, after}
use walb_driver.Treemap.Lists.{Under, IsSorted, IsSorted-split}
use walb_driver.Treemap.Lookup.{map_next, map_prev, map_lookup_node_detail, search_ge}
use walb_driver.Treemap.Found.{map_lookup_node_detail-wanted, after-split}
use walb_driver.Treemap.Effects.{assoc-append-Under}
use walb_driver.Treemap.Multimap.{Multimap}
use walb_driver.Treemap.Cursor.{at_end, at_data, MapCursor, map_cursor_next, forward}
use walb_driver.Treemap.MultiCursor.{
  MultimapCursor, cells_at, next_cell, at_first_cell, step_cell, multimap_cursor_next,
  multimap_cursor_search, searched, multimap_cursor_init, multimap_cursor_is_data,
}
use walb_driver.Treemap.Scan.{
  pairs, flat, IsFull, while_before, fold_before, from_key, scan, PointsAt, After, key-PointsAt,
}
use walb_driver.Treemap.Cursor.{seek, map_cursor_search}
use walb_driver.Treemap.Cut.{cut}

module _ (rb : RbTree (List ℕ)) (t : Multimap) (sorted : IsSorted (to_list t))
    (full : IsFull (to_list t)) where
  module _ (pre : List (ℕ × List ℕ)) (k : ℕ) (cells : List ℕ) (post : List (ℕ × List ℕ))
      (e : to_list t ≡ pre ++ (k, cells) ∷ post) where
    under : Under k pre
    under = (IsSorted-split pre k cells post (subst IsSorted e sorted)).0

    pub cells_at_entry : cells_at t (some k) ≡ cells
    unfolding Option.bind
    cells_at_entry = rw (e, assoc-append-Under k pre ((k, cells) ∷ post) under) (ground arith)

    pub next_entry : rb.next t k ≡ head? (keys post)
    next_entry =
        rb.next_after t k ∙ (ap (λ es. after k (keys es)) e ∙ after-split pre post k cells under)

    pub cells_full : cells ≢ []
    cells_full = here pre (subst IsFull e full)
      where
        here : (pre : List (ℕ × List ℕ)) → IsFull (pre ++ (k, cells) ∷ post) → cells ≢ []
        here [] f = f.0
        here (x ∷ pre) f = here pre f.1

  -- A map cursor that has come to a node, or to the end.
  abbrev pub arrived : Option ℕ → Option ℕ → MapCursor
  arrived p n = record {
    state = elim n [ none ↦ at_end | some k ↦ at_data ];
    prev = p;
    curr = n;
    next = map_next rb t n;
  }

  arrived-After :
      (p : Option ℕ) (pre post : List (ℕ × List ℕ))
      → to_list t ≡ pre ++ post
      → After t (at_first_cell t (arrived p (head? (keys post)))) (flat post)
  unfolding at_first_cell multimap_cursor_is_data map_next
  arrived-After p pre [] e = refl
  arrived-After p pre ((k, []) ∷ post) e = absurd (cells_full pre k [] post e refl)
  arrived-After p pre ((k, v ∷ more) ∷ post) e = record {
    pre = pre;
    cells = v ∷ more;
    post = post;
    more = more;
    eq = e;
    state = refl;
    curr = refl;
    next = next_entry pre k (v ∷ more) post e;
    head = refl;
    cell = cells_at_entry pre k (v ∷ more) post e;
    rest = refl;
  }

  pub map_cursor_next_data :
      (c : MapCursor) → c.state ≡ at_data → map_cursor_next rb t c ≡ arrived c.curr c.next
  unfolding map_cursor_next forward
  map_cursor_next_data c e = ground arith

  pub multimap_cursor_next_data :
      (c : MultimapCursor)
      → c.curt.state ≡ at_data
      → multimap_cursor_next rb t c ≡ step_cell rb t c (next_cell c.cell)
  unfolding multimap_cursor_next
  multimap_cursor_next_data c e = ground arith

  step_cell-After :
      (c : MultimapCursor) (k v : ℕ) (es : List (ℕ × ℕ)) (p : PointsAt t c k v es) (more : List ℕ)
      → After t (step_cell rb t c more) (pairs k more ++ flat p.post)
  unfolding step_cell
  step_cell-After c k v es p [] =
      subst (λ x. After t (at_first_cell t x) (flat p.post))
        (sym (map_cursor_next_data c.curt p.state ∙ ap (arrived c.curt.curr) p.next))
        (arrived-After c.curt.curr (p.pre ++ (k, p.cells) ∷ []) p.post
          (p.eq ∙ sym (append_assoc p.pre ((k, p.cells) ∷ []) p.post)))
  step_cell-After c k v es p (u ∷ us) = record {
    pre = p.pre;
    cells = p.cells;
    post = p.post;
    more = us;
    eq = p.eq;
    state = p.state;
    curr = p.curr;
    next = p.next;
    head = p.head;
    cell = refl;
    rest = refl;
  }

  next-After :
      (c : MultimapCursor) (k v : ℕ) (es : List (ℕ × ℕ))
      → PointsAt t c k v es
      → After t (multimap_cursor_next rb t c) es
  next-After c k v es p =
      subst₂ (λ x ys. After t x ys)
        (sym
          (multimap_cursor_next_data c p.state ∙ ap (λ l. step_cell rb t c (next_cell l)) p.cell))
        (sym p.rest) (step_cell-After c k v es p p.more)

  module _ {S : Type 0} (start end : ℕ) (visit : S → ℕ → S) where
    -- The loop from a cursor at data.
    while_before-fold_before :
        (fuel : ℕ) (c : MultimapCursor) (s : S) (k v : ℕ) (es : List (ℕ × ℕ))
        → PointsAt t c k v es
        → suc (length es) ≤ fuel
        → while_before rb t end visit fuel c s ≡ some (fold_before end visit s ((k, v) ∷ es))
    unfolding while_before
    while_before-fold_before zero c s k v es p l = absurd (omega arith)
    while_before-fold_before (suc fuel) c s k v es p l =
        let q = key-PointsAt p in
        rw (q.0, q.1)
          (ground (
            arith,
            on es (next-After c k v es p) l
                (λ (k' v' : ℕ) (es' : List (ℕ × ℕ))
                    (a : PointsAt t (multimap_cursor_next rb t c) k' v' es')
                    (m : suc (length es') ≤ fuel).
                  while_before-fold_before fuel (multimap_cursor_next rb t c) (visit s v) k' v' es'
                    a m),
          ))
      where
        on :
            (es : List (ℕ × ℕ))
            → After t (multimap_cursor_next rb t c) es
            → suc (length es) ≤ suc fuel
            → ((k' v' : ℕ) (es' : List (ℕ × ℕ))
                → PointsAt t (multimap_cursor_next rb t c) k' v' es'
                → suc (length es') ≤ fuel
                → while_before rb t end visit fuel (multimap_cursor_next rb t c) (visit s v)
                  ≡ some (fold_before end visit (visit s v) ((k', v') ∷ es')))
            → (if multimap_cursor_is_data (multimap_cursor_next rb t c)
                then while_before rb t end visit fuel (multimap_cursor_next rb t c) (visit s v)
                else some (visit s v))
              ≡ some (fold_before end visit (visit s v) es)
        on [] a l ih = rw a refl
        on ((k', v') ∷ es) a l ih = rw ((key-PointsAt a).2) (ih k' v' es a (omega arith))

    -- The loop after a search of the map.
    abbrev searched_then : ℕ → S → MapCursor → Option S
    searched_then fuel s cur =
        let (found, c) = searched rb t multimap_cursor_init false cur in
        if found then while_before rb t end visit fuel c s else some s

    scan-seek :
        (fuel : ℕ) (s : S) (n : Option ℕ)
        → map_lookup_node_detail rb t start search_ge ≡ n
        → scan rb t fuel start end visit s ≡ searched_then fuel s (seek rb t n)
    unfolding scan multimap_cursor_search map_cursor_search
    scan-seek fuel s n h = ap (λ n. searched_then fuel s (seek rb t n)) h

    scan-some :
        (fuel : ℕ) (s : S) (k : ℕ)
        → map_lookup_node_detail rb t start search_ge ≡ some k
        → scan rb t fuel start end visit s
          ≡ while_before rb t end visit fuel
              (at_first_cell t (arrived (map_prev rb t (some k)) (some k)))
              s
    unfolding seek at_first_cell
    scan-some fuel s k h = scan-seek fuel s (some k) h

    scan-none :
        (fuel : ℕ) (s : S)
        → map_lookup_node_detail rb t start search_ge ≡ none
        → scan rb t fuel start end visit s ≡ some s
    unfolding seek
    scan-none fuel s h = scan-seek fuel s none h

    found-fold_before :
        (fuel : ℕ) (s : S) (pre post : List (ℕ × List ℕ))
        → to_list t ≡ pre ++ post
        → map_lookup_node_detail rb t start search_ge ≡ head? (keys post)
        → length (flat post) ≤ fuel
        → scan rb t fuel start end visit s ≡ some (fold_before end visit s (flat post))
    found-fold_before fuel s pre [] e h l = scan-none fuel s h
    found-fold_before fuel s pre ((k, []) ∷ post) e h l = absurd (cells_full pre k [] post e refl)
    found-fold_before fuel s pre ((k, v ∷ more) ∷ post) e h l =
        scan-some fuel s k h
        ∙ while_before-fold_before fuel
            (at_first_cell t (arrived (map_prev rb t (some k)) (some k))) s k v
            (pairs k more ++ flat post)
            (arrived-After (map_prev rb t (some k)) pre ((k, v ∷ more) ∷ post) e) l

    -- The search and the loop, from the first entry on that is not below the start.
    pub scan-fold_before :
        (fuel : ℕ) (s : S)
        → length (flat (from_key start (to_list t))) ≤ fuel
        → scan rb t fuel start end visit s
          ≡ some (fold_before end visit s (flat (from_key start (to_list t))))
    scan-fold_before fuel s l =
        let r = cut start (to_list t) in
        found-fold_before fuel s r.low (from_key start (to_list t)) r.eq
          (map_lookup_node_detail-wanted rb t sorted start search_ge ∙ r.first) l
