-- ===== src/Treemap/Deletion.antt =====
-- multimap_cursor_del of module/treemap.c: the one cell goes, and the cursor comes to the next one.
use mathlib.Core.List.{append_assoc}
use walb_driver.Common.{
  ℕ, ◌-◌, ◌≡◌, ◌≢◌, refl, sym, ap, ap₂, subst, subst₂, ◌∙◌, Bool, true, false, List, [], ◌∷◌, ◌++◌,
  length, length-append, take, arith, ◌==◌,
}
use walb_driver.Treemap.{to_list, RbTree, remove}
use walb_driver.Treemap.Lists.{Under, Over, IsSorted, IsSorted-split}
use walb_driver.Treemap.Multimap.{Multimap, set_cells}
use walb_driver.Treemap.Cursor.{is_data, MapCursor, map_cursor_next, map_cursor_del}
use walb_driver.Treemap.MultiCursor.{
  MultimapCursor, cells_at, without_cell, unlink_cell, at_first_cell, multimap_cursor_next,
  multimap_cursor_del, multimap_cursor_is_data,
}
use walb_driver.Treemap.Scan.{pairs, flat, IsFull}
use walb_driver.Treemap.Scanned.{cells_at_entry}
use walb_driver.Treemap.Values.{
  block, Changed, remove-at, set_list, set_list-append, set_list-Under, set_list-Over,
  to_list-set_cells,
}
use walb_driver.Treemap.Position.{
  Stands, Position, Arrived, Arrived-Position, next-Arrived, next-cell,
}

set_list-at :
    (k : ℕ) (ws vs : List ℕ) (pre post : List (ℕ × List ℕ))
    → Under k pre
    → Over k post
    → set_list k ws (pre ++ (k, vs) ∷ post) ≡ pre ++ (k, ws) ∷ post
set_list-at k ws vs pre post u o =
    rw
      (
        set_list-append k ws pre ((k, vs) ∷ post),
        set_list-Under k ws pre u,
        set_list-Over k ws post o,
      )
      (ground arith)

take-append : (us vs : List ℕ) → take (length us) (us ++ vs) ≡ us
take-append [] [] = refl
take-append [] (v ∷ vs) = refl
take-append (u ∷ us) vs = ap (λ l. u ∷ l) (take-append us vs)

without-here :
    (us : List ℕ) (v : ℕ) (more : List ℕ) → without_cell (us ++ v ∷ more) (v ∷ more) ≡ us ++ more
without-here us v more =
    ap (λ n. take n (us ++ v ∷ more) ++ more) count
    ∙ ap (λ l. l ++ more) (take-append us (v ∷ more))
  where
    count : length (us ++ v ∷ more) - length (v ∷ more) ≡ length us
    count = omega (arith, length-append us (v ∷ more))

IsFull-end :
    (pre post : List (ℕ × List ℕ)) (e : ℕ × List ℕ) → IsFull (pre ++ e ∷ post) → IsFull post
IsFull-end [] post e f = f.1
IsFull-end (x ∷ pre) post e f = IsFull-end pre post e f.1

-- The multimap without the cell that the cursor stood at, and the cursor at the next pair.
pub record Deleted (k v : ℕ) (es : List (ℕ × ℕ)) (t : Multimap)
    (r : Bool × MultimapCursor × Multimap) : Type 0 where
  pub us : List ℕ
  pub more : List ℕ
  pub done : r.0 ≡ true
  pub changed : Changed k (us ++ v ∷ more) (us ++ more) (to_list t) (to_list r.2)
  pub position : Position r.2 r.1 es

module _ (rb : RbTree (List ℕ)) (t : Multimap) (sorted : IsSorted (to_list t))
    (full : IsFull (to_list t)) {c : MultimapCursor} {k v : ℕ} {es : List (ℕ × ℕ)}
    (p : Stands t c k v es) where
  split : Under k p.pre × Over k p.post × IsSorted p.pre × IsSorted p.post
  split = IsSorted-split p.pre k (p.us ++ v ∷ p.more) p.post (subst IsSorted p.eq sorted)

  post-IsFull : IsFull p.post
  post-IsFull = IsFull-end p.pre p.post (k, p.us ++ v ∷ p.more) (subst IsFull p.eq full)

  cells : cells_at t c.head ≡ p.us ++ v ∷ p.more
  cells =
      ap (cells_at t) p.head
      ∙ cells_at_entry rb t sorted full p.pre k (p.us ++ v ∷ p.more) p.post p.eq

  abbrev unlinked : Multimap
  unlinked = unlink_cell t c.head (cells_at t c.head) c.cell

  unlinked_list : to_list unlinked ≡ p.pre ++ (k, p.us ++ p.more) ∷ p.post
  unlinked_list =
      ap to_list (
        (λ i. unlink_cell t (p.head i) (cells i) (p.cell i))
        ∙ ap (set_cells t k) (without-here p.us v p.more))
      ∙ to_list-set_cells t k (p.us ++ p.more)
      ∙ ap (set_list k (p.us ++ p.more)) p.eq
      ∙ set_list-at k (p.us ++ p.more) (p.us ++ v ∷ p.more) p.pre p.post split.0 split.1

  del-many :
      (length (cells_at t c.head) == 1) ≡ false
      → multimap_cursor_del rb t c ≡ (true, multimap_cursor_next rb t c, unlinked)
  unfolding multimap_cursor_del
  del-many e = ground (arith, p.state, e)

  abbrev erased_cursor : MultimapCursor
  erased_cursor = record (multimap_cursor_next rb t c) {
    curt = record (map_cursor_next rb t c.curt) { prev = c.curt.prev };
  }

  del-one :
      (length (cells_at t c.head) == 1) ≡ true
      → multimap_cursor_del rb t c ≡ (true, erased_cursor, rb.erase k t)
  unfolding multimap_cursor_del map_cursor_del
  del-one e = ground (arith, p.state, p.curr, e)

  -- The entries with other cells at the key.
  Changed-by :
      (ws : List ℕ) (t' : Multimap)
      → to_list t' ≡ p.pre ++ (block k ws ++ p.post)
      → Changed k (p.us ++ v ∷ p.more) ws (to_list t) (to_list t')
  Changed-by ws t' e = record {
    pre = p.pre;
    post = p.post;
    under = split.0;
    over = split.1;
    old = p.eq ∙ ap (λ l. p.pre ++ l) (old p.us);
    new = e;
  }
    where
      old : (us : List ℕ) → (k, us ++ v ∷ p.more) ∷ p.post ≡ block k (us ++ v ∷ p.more) ++ p.post
      old [] = refl
      old (u ∷ us) = refl

  at_first_cell-curt : (x : MapCursor) → (at_first_cell t x).curt ≡ x
  unfolding at_first_cell
  at_first_cell-curt x = ground arith

  -- The last cell of a node goes with the node.
  Deleted-one : p.us ≡ [] → p.more ≡ [] → Deleted k v es t (multimap_cursor_del rb t c)
  unfolding multimap_cursor_is_data
  Deleted-one e f =
      let gone : to_list (rb.erase k t) ≡ p.pre ++ p.post =
        rb.to_list-erase k t
        ∙ ap (remove k) p.eq
        ∙ remove-at k (p.us ++ v ∷ p.more) p.pre p.post split.0 in
      subst (Deleted k v es t)
        (sym (del-one (ap (λ l. length l == 1) (cells ∙ ap₂ (λ us more. us ++ v ∷ more) e f))))
        (record {
          us = [];
          more = [];
          done = refl;
          changed =
              subst₂ (λ us more. Changed k (us ++ v ∷ more) [] (to_list t) (to_list (rb.erase k t)))
                e f (Changed-by [] (rb.erase k t) gone);
          position =
              subst (Position (rb.erase k t) erased_cursor)
                (sym (p.rest ∙ ap (λ more. pairs k more ++ flat p.post) f))
                (Arrived-Position (rb.erase k t) erased_cursor p.pre p.post gone post-IsFull
                  (moved p.post (next-Arrived rb t sorted full p f)));
        })
    where
      with_curt :
          (post : List (ℕ × List ℕ))
          → (multimap_cursor_next rb t c).curt ≡ map_cursor_next rb t c.curt
          → Arrived (multimap_cursor_next rb t c) post
          → Arrived erased_cursor post
      with_curt [] q a = ap (λ (x : MapCursor). is_data x.state) (sym q) ∙ a
      with_curt (e ∷ post) q a = (
        ap (λ (x : MapCursor). x.state) (sym q) ∙ a.0,
        ap (λ (x : MapCursor). x.curr) (sym q) ∙ a.1,
        ap (λ (x : MapCursor). x.next) (sym q) ∙ a.2,
        a.3,
        a.4,
      )

      moved :
          (post : List (ℕ × List ℕ))
          → Arrived (multimap_cursor_next rb t c) post
            × (multimap_cursor_next rb t c ≡ at_first_cell t (map_cursor_next rb t c.curt))
          → Arrived erased_cursor post
      moved post a =
          with_curt post (ap (λ x. x.curt) a.1 ∙ at_first_cell-curt (map_cursor_next rb t c.curt))
            a.0

  -- The cell of a node that has others.
  Deleted-of_many :
      (length (cells_at t c.head) == 1) ≡ false
      → p.us ++ p.more ≢ []
      → Deleted k v es t (multimap_cursor_del rb t c)
  Deleted-of_many e f = subst (Deleted k v es t) (sym (del-many e)) (record {
    us = p.us;
    more = p.more;
    done = refl;
    changed =
        Changed-by (p.us ++ p.more) unlinked
          (unlinked_list ∙ ap (λ l. p.pre ++ l) (full_block (p.us ++ p.more) f));
    position = to_next p.more refl;
  })
    where
      full_block : (ws : List ℕ) → ws ≢ [] → (k, ws) ∷ p.post ≡ block k ws ++ p.post
      full_block [] f = absurd (f refl)
      full_block (w ∷ ws) f = refl

      to_next : (more : List ℕ) → p.more ≡ more → Position unlinked (multimap_cursor_next rb t c) es
      to_next [] g =
          subst (Position unlinked (multimap_cursor_next rb t c))
            (sym (p.rest ∙ ap (λ more. pairs k more ++ flat p.post) g))
            (Arrived-Position unlinked (multimap_cursor_next rb t c)
              (p.pre ++ (k, p.us ++ p.more) ∷ []) p.post
              (unlinked_list ∙ sym (append_assoc p.pre ((k, p.us ++ p.more) ∷ []) p.post))
              post-IsFull (next-Arrived rb t sorted full p g).0)
      to_next (u ∷ more) g =
          subst₂ (Position unlinked) (sym (next-cell rb t sorted full p u more g))
            (sym (p.rest ∙ ap (λ more. pairs k more ++ flat p.post) g))
            (record {
              pre = p.pre;
              us = p.us;
              more = more;
              post = p.post;
              eq = unlinked_list ∙ ap (λ m. p.pre ++ (k, p.us ++ m) ∷ p.post) g;
              state = p.state;
              curr = p.curr;
              next = p.next;
              head = p.head;
              cell = refl;
              rest = refl;
            })

  -- With a cursor at a pair: multimap_cursor_del takes out the one cell, the node if no other cell is left,
  -- and changes nothing else; the cursor comes to the next pair.
  pub multimap_cursor_del-Deleted : Deleted k v es t (multimap_cursor_del rb t c)
  multimap_cursor_del-Deleted = go p.us p.more refl refl
    where
      go :
          (us more : List ℕ)
          → p.us ≡ us
          → p.more ≡ more
          → Deleted k v es t (multimap_cursor_del rb t c)
      go [] [] e f = Deleted-one e f
      go [] (u ∷ more) e f =
          Deleted-of_many
            (ap (λ l. length l == 1) (cells ∙ ap₂ (λ us more. us ++ v ∷ more) e f) ∙ ground arith)
            (λ g. ground (arith, sym (ap₂ (λ us more. us ++ more) e f) ∙ g))
      go (w ∷ us) more e f =
          Deleted-of_many
            (ap (λ l. length l == 1) (cells ∙ ap₂ (λ us more. us ++ v ∷ more) e f)
              ∙ ground (arith, length-append us (v ∷ more)))
            (λ g. ground (arith, sym (ap₂ (λ us more. us ++ more) e f) ∙ g))
