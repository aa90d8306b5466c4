-- ===== src/Pending/Prune.antt =====
-- The loop of pending_delete_fully_overwritten (module/pending_io.c) over the pairs from a cursor on: it
-- deletes those that the test hits, and marks them.
use walb_driver.Common.{
  ℕ, zero, suc, ◌+◌, ◌≤◌, ◌≡◌, refl, ap, inl, inr, Bool, true, false, ◌&&◌, ◌||◌, Option, some,
  List, [], ◌∷◌, ◌++◌, All, arith, Bool-cases, length, ltb, ◌==◌, if◌then◌else◌,
}
use walb_driver.Biow.{Biow, put}
use walb_driver.Treemap.{to_list, RbTree}
use walb_driver.Treemap.Lists.{IsSorted}
use walb_driver.Treemap.Multimap.{Multimap}
use walb_driver.Treemap.MultiCursor.{
  MultimapCursor, multimap_cursor_next, multimap_cursor_del, multimap_cursor_is_data,
}
use walb_driver.Treemap.Scan.{flat, IsFull}
use walb_driver.Treemap.Tally.{
  one_if, count, tally, tally-Changed, Changed-IsSorted, Changed-IsFull,
}
use walb_driver.Treemap.Range.{Rising}
use walb_driver.Treemap.Position.{Stands, Position, Stands-reads, next-Position}
use walb_driver.Treemap.Deletion.{Deleted, multimap_cursor_del-Deleted}
use walb_driver.Pending.{Overwriting, is_fully_overwritten, delete_before}

count-without :
    (q : ℕ → Bool) (us : List ℕ) (v : ℕ) (more : List ℕ)
    → count q (us ++ v ∷ more) ≡ one_if (q v) + count q (us ++ more)
count-without q [] v more = refl
count-without q (u ∷ us) v more = omega (arith, count-without q us v more)

module _ (info : ℕ → Biow) (end b : ℕ) where
  abbrev pub hit : ℕ → ℕ → Bool
  hit k v = ltb k end && is_fully_overwritten info b v

  -- The state without the pairs of `es` that are hit.
  pub record Pruned (s : Overwriting) (es : List (ℕ × ℕ)) (r : Option Overwriting) : Type 0 where
    pub result : Overwriting
    pub returns : r ≡ some result
    pub sorted : IsSorted (to_list result.data_map)
    pub full : IsFull (to_list result.data_map)
    pub removed :
        (p : ℕ → ℕ → Bool)
        → tally p (flat (to_list result.data_map)) + tally (λ k v. p k v && hit k v) es
          ≡ tally p (flat (to_list s.data_map))
    pub marked :
        (u : ℕ)
        → result.overwritten u ≡ (s.overwritten u || ltb 0 (tally (λ k v. (v == u) && hit k v) es))

  tally-none :
      (p : ℕ → ℕ → Bool) (es : List (ℕ × ℕ))
      → All (λ (e : ℕ × ℕ). p e.0 e.1 ≡ false) es
      → tally p es ≡ 0
  tally-none p [] a = refl
  tally-none p (e ∷ es) a = omega (arith, ap one_if a.0, tally-none p es a.1)

  behind :
      (k : ℕ) (es : List (ℕ × ℕ))
      → end ≤ k
      → All (λ (x : ℕ × ℕ). k ≤ x.0) es
      → All (λ (e : ℕ × ℕ). hit e.0 e.1 ≡ false) es
  behind k [] l a = tt
  behind k (e ∷ es) l a = (ground arith, behind k es l a.1)

  module _ (s : Overwriting) (sorted : IsSorted (to_list s.data_map))
      (full : IsFull (to_list s.data_map)) where
    -- Nothing is hit any more.
    pub stop :
        (es : List (ℕ × ℕ)) → All (λ (e : ℕ × ℕ). hit e.0 e.1 ≡ false) es → Pruned s es (some s)
    stop es a = record {
      result = s;
      returns = refl;
      sorted = sorted;
      full = full;
      removed = λ p. omega (arith, tally-none (λ k v. p k v && hit k v) es (both p es a));
      marked = λ u.
          ground (arith, tally-none (λ k v. (v == u) && hit k v) es (both (λ k v. v == u) es a));
    }
      where
        both :
            (p : ℕ → ℕ → Bool) (es : List (ℕ × ℕ))
            → All (λ (e : ℕ × ℕ). hit e.0 e.1 ≡ false) es
            → All (λ (e : ℕ × ℕ). (p e.0 e.1 && hit e.0 e.1) ≡ false) es
        both p [] a = tt
        both p (e ∷ es) a = (ground (arith, a.0), both p es a.1)

    -- A pair that is not hit stays.
    keep :
        (k v : ℕ) (es : List (ℕ × ℕ)) (r : Option Overwriting)
        → hit k v ≡ false
        → Pruned s es r
        → Pruned s ((k, v) ∷ es) r
    keep k v es r e i = record {
      result = i.result;
      returns = i.returns;
      sorted = i.sorted;
      full = i.full;
      removed = λ p. ground (arith, i.removed p, e);
      marked = λ u. ground (arith, i.marked u, e);
    }

    -- A pair that is hit is deleted, and its value marked.
    drop :
        (k v : ℕ) (es : List (ℕ × ℕ)) (r : Option Overwriting)
        {x : Bool × MultimapCursor × Multimap}
        → hit k v ≡ true
        → Deleted k v es s.data_map x
        → Pruned (record { data_map = x.2; overwritten = put s.overwritten v true }) es r
        → Pruned s ((k, v) ∷ es) r
    drop k v es r e d i = record {
      result = i.result;
      returns = i.returns;
      sorted = i.sorted;
      full = i.full;
      removed = λ p.
          ground
            (arith, i.removed p, e, tally-Changed d.changed p, count-without (p k) d.us v d.more);
      marked = λ u. ground (arith, i.marked u, e);
    }

  module _ (rb : RbTree (List ℕ)) where
    -- The rest of the loop, if the cursor has come to another pair.
    rest-Pruned :
        (fuel : ℕ) (c : MultimapCursor) (s : Overwriting) (es : List (ℕ × ℕ))
        → IsSorted (to_list s.data_map)
        → IsFull (to_list s.data_map)
        → Position s.data_map c es
        → Rising es
        → suc (length es) ≤ suc fuel
        → ((k v : ℕ) (es : List (ℕ × ℕ))
            → Stands s.data_map c k v es
            → Rising ((k, v) ∷ es)
            → suc (length es) ≤ fuel
            → Pruned s ((k, v) ∷ es) (delete_before info rb end b fuel c s))
        → Pruned s es
            (if multimap_cursor_is_data c then delete_before info rb end b fuel c s else some s)
    rest-Pruned fuel c s [] sorted full p r l ih = rw p (stop s sorted full [] tt)
    rest-Pruned fuel c s ((k, v) ∷ es) sorted full p r l ih =
        rw ((Stands-reads p).2) (ih k v es p r (omega arith))

    pub delete_before-Pruned :
        (fuel : ℕ) (c : MultimapCursor) (s : Overwriting) (k v : ℕ) (es : List (ℕ × ℕ))
        → IsSorted (to_list s.data_map)
        → IsFull (to_list s.data_map)
        → Stands s.data_map c k v es
        → Rising ((k, v) ∷ es)
        → suc (length es) ≤ fuel
        → Pruned s ((k, v) ∷ es) (delete_before info rb end b fuel c s)
    unfolding delete_before
    delete_before-Pruned zero c s k v es sorted full p r l = absurd (omega arith)
    delete_before-Pruned (suc fuel) c s k v es sorted full p r l =
        let q = Stands-reads p in
        rw (q.0, q.1)
          (elim (Bool-cases (ltb k end)) [
            | inr e ↦ rw e (
                stop s sorted full ((k, v) ∷ es)
                  (ground (arith, e), behind k es (ground (arith, e)) r.0))
            | inl e ↦ elim (Bool-cases (is_fully_overwritten info b v)) [
              | inl f ↦
                  let d = multimap_cursor_del-Deleted rb s.data_map sorted full p in
                  let (done, c', t') = multimap_cursor_del rb s.data_map c in
                  let s' : Overwriting = record {
                    data_map = t';
                    overwritten = put s.overwritten v true;
                  } in
                  let sorted' = Changed-IsSorted d.changed sorted in
                  let full' = Changed-IsFull d.changed full in
                  rw (e, f)
                    (drop s sorted full k v es
                      (if multimap_cursor_is_data c'
                        then delete_before info rb end b fuel c' s'
                        else some s')
                      (ground (arith, e, f)) d
                      (rest-Pruned fuel c' s' es sorted' full' d.position r.1 l
                        (λ k' v' es' p' r' l'.
                          delete_before-Pruned fuel c' s' k' v' es' sorted' full' p' r' l')))
              | inr f ↦
                  let c' = multimap_cursor_next rb s.data_map c in
                  rw (e, f)
                    (keep s sorted full k v es
                      (if multimap_cursor_is_data c'
                        then delete_before info rb end b fuel c' s
                        else some s)
                      (ground (arith, e, f))
                      (rest-Pruned fuel c' s es sorted full
                        (next-Position rb s.data_map sorted full p) r.1 l
                        (λ k' v' es' p' r' l'.
                          delete_before-Pruned fuel c' s k' v' es' sorted full p' r' l')))
            ]
          ])
