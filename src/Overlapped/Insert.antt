-- ===== src/Overlapped/Insert.antt =====
-- overlapped_check_and_insert of module/overlapped_io.c keeps the invariant of the overlapped data.
use walb_driver.Common.{
  ℕ, suc, ◌+◌, ◌^◌, ◌≤◌, ◌<◌, ◌≡◌, ◌≢◌, max, refl, sym, ap, subst, ◌∙◌, inl, inr, Bool, true, false,
  ◌&&◌, Option, some, List, [], ◌∷◌, arith, Bool-cases, length, ltb, ◌==◌, if◌then◌else◌, u64_mod,
  add_u32,
}
use walb_driver.Biow.{Biow, bio_wrapper_end, put}
use walb_driver.Treemap.{to_list, RbTree}
use walb_driver.Treemap.Scan.{flat, scan}
use walb_driver.Treemap.Map.{Status, invalid_val}
use walb_driver.Treemap.Multimap.{Multimap, contains, multimap_add}
use walb_driver.Treemap.Values.{cells_of, Changed}
use walb_driver.Treemap.Stored.{
  MultimapAdded, refused, no_memory, exists, added, multimap_add-MultimapAdded,
}
use walb_driver.Treemap.Tally.{
  one_if, count, tally, in_range, fold_where, tally-Changed, Changed-IsSorted, Changed-IsFull,
  tally-cells_of,
}
use walb_driver.Treemap.Range.{scan-fold_where}
use walb_driver.Overlapped.{
  Overlapped, start_pos, is_positive, count_overlap, insert_counted, overlapped_check_and_insert,
}
use walb_driver.Overlapped.Serial.{
  overlaps, Holds, Bounded, Waits, Serial, count-cong, count-length, tally-length, count_all,
  overlaps-in_range,
}

module _ (info : ℕ → Biow) where
  -- A fold that counts is a tally.
  fold-count :
      (b : ℕ) (p : ℕ → ℕ → Bool) (n : ℕ) (es : List (ℕ × ℕ))
      → n + length es < 2 ^ 31
      → fold_where p (count_overlap info b) n es ≡ n + tally (λ k v. p k v && overlaps info b v) es
  fold-count b p n [] h = omega arith
  fold-count b p n ((k, v) ∷ es) h =
      go (p k v) (overlaps info b v) (fold-count b p n es (omega arith))
        (fold-count b p (n + 1) es (omega arith))
    where
      rest : ℕ
      rest = tally (λ k v. p k v && overlaps info b v) es

      go :
          (x y : Bool)
          → fold_where p (count_overlap info b) n es ≡ n + rest
          → fold_where p (count_overlap info b) (n + 1) es ≡ n + 1 + rest
          → fold_where p (count_overlap info b) (if x then (if y then add_u32 n 1 else n) else n) es
            ≡ n + (one_if (x && y) + rest)
      go true true f g =
          ap (λ m. fold_where p (count_overlap info b) m es) (omega arith) ∙ g ∙ omega arith
      go true false f g = omega (arith, f)
      go false y f g = omega (arith, f)

  contains-count : (v : ℕ) (vs : List ℕ) → contains v vs ≡ true → 1 ≤ count (λ u. u == v) vs
  contains-count v [] c = absurd (ground (arith, c))
  contains-count v (u ∷ us) c = ground (arith, contains-count v us, c)

  pub count-and_le : (p q : ℕ → Bool) (vs : List ℕ) → count (λ u. p u && q u) vs ≤ count q vs
  count-and_le p q [] = omega arith
  count-and_le p q (v ∷ vs) = ground (arith, count-and_le p q vs)

  Waits-put :
      (n : ℕ → ℕ) (b x : ℕ) (queue : List ℕ)
      → count (λ u. u == b) queue ≡ 0
      → Waits info n queue
      → Waits info (put n b x) queue
  Waits-put n b x [] z w = tt
  Waits-put n b x (u ∷ us) z w = elim (Bool-cases (u == b)) [
    | inl e ↦ absurd (ground (arith, z, e))
    | inr e ↦ (ground (arith, e, w.0), Waits-put n b x us (ground (arith, z)) w.1)
  ]

  module _ {t : Multimap} {queue : List ℕ} (h : Holds info t queue) where
    pub Holds-length : length (flat (to_list t)) ≡ length queue
    Holds-length =
        sym (tally-length info (flat (to_list t))) ∙ h.bag (λ k v. true) ∙ count_all info queue

    -- The count of the loop.
    counted :
        (rb : RbTree (List ℕ)) (fuel m b : ℕ)
        → (info b).pos + (info b).len < u64_mod
        → Bounded info m queue
        → length queue < 2 ^ 31
        → length queue ≤ fuel
        → scan rb t fuel (start_pos m (info b)) (bio_wrapper_end (info b)) (count_overlap info b) 0
          ≡ some (count (overlaps info b) queue)
    counted rb fuel m b w bd few l =
        scan-fold_where (start_pos m (info b)) (bio_wrapper_end (info b)) (count_overlap info b) rb
          t fuel 0 h.sorted h.full (omega (arith, Holds-length))
        ∙ ap some (
            omega (
              arith,
              fold-count b (in_range (start_pos m (info b)) (bio_wrapper_end (info b))) 0
                  (flat (to_list t)) (omega (arith, Holds-length)),
              h.bag (λ k v.
                  in_range (start_pos m (info b)) (bio_wrapper_end (info b)) k v
                  && overlaps info b v),
              count-cong info
                  (λ u.
                    in_range (start_pos m (info b)) (bio_wrapper_end (info b)) ((info u).pos) u
                    && overlaps info b u)
                  (overlaps info b) queue (overlaps-in_range info m b queue w bd),
            ))

    -- One more bio wrapper.
    pub Holds-added :
        (b : ℕ) {t' : Multimap}
        → count (λ u. u == b) queue ≡ 0
        → Changed
            ((info b).pos)
            (cells_of ((info b).pos) (to_list t))
            (b ∷ cells_of ((info b).pos) (to_list t))
            (to_list t)
            (to_list t')
        → Holds info t' (b ∷ queue)
    Holds-added b {t'} z c = record {
      sorted = Changed-IsSorted c h.sorted;
      full = Changed-IsFull c h.full;
      bag = λ p. omega (arith, tally-Changed c p, h.bag p);
      once = λ v. once_more v;
    }
      where
        once_more : (v : ℕ) → count (λ u. u == v) (b ∷ queue) ≤ 1
        once_more v = elim (Bool-cases (b == v)) [
          | inl e ↦
              subst (λ x. count (λ u. u == x) (b ∷ queue) ≤ 1) {x = b} (ground (arith, e))
                (ground (arith, z))
          | inr e ↦ rw e (omega (arith, h.once v))
        ]

    -- A bio wrapper that is not there is among no cells.
    pub contains-absent :
        (b k : ℕ) → count (λ u. u == b) queue ≡ 0 → contains b (cells_of k (to_list t)) ≡ true → ⊥
    contains-absent b k z c =
        let n = contains-count b (cells_of k (to_list t)) c in
        let e = tally-cells_of (λ v. v == b) k (to_list t) h.sorted in
        let f = h.bag (λ j v. (j == k) && (v == b)) in
        omega (arith, n, e, f, z, count-and_le (λ u. (info u).pos == k) (λ u. u == b) queue)

  pub Bounded-mono :
      (m n : ℕ) (queue : List ℕ) → m ≤ n → Bounded info m queue → Bounded info n queue
  Bounded-mono m n [] l b = tt
  Bounded-mono m n (u ∷ us) l b = ((b.0.0, omega arith), Bounded-mono m n us l b.1)

  -- What overlapped_check_and_insert can come to.
  pub data CheckedInserted (s : Overlapped) (queue : List ℕ) (b : ℕ) (memory_ok : Bool)
      : Option (Bool × Overlapped) → Type 0 where
    inserted :
        (s' : Overlapped)
        → Serial info s' (b ∷ queue)
        → s'.delayed b ≡ ltb 0 (count (overlaps info b) queue)
        → CheckedInserted s queue b memory_ok (some (true, s'))
    failed :
        (s' : Overlapped)
        → memory_ok ≡ false
        → s'.data_map ≡ s.data_map
        → Serial info s' queue
        → CheckedInserted s queue b memory_ok (some (false, s'))

  module _ (rb : RbTree (List ℕ)) (fuel : ℕ) {s : Overlapped} {queue : List ℕ}
      (i : Serial info s queue) (b : ℕ) (new : count (λ u. u == b) queue ≡ 0)
      (pointer : b ≢ invalid_val) (fits : (info b).pos + (info b).len < u64_mod)
      (fresh : s.delayed b ≡ false) (few : suc (length queue) < 2 ^ 31)
      (enough : length queue ≤ fuel) where
    abbrev after_count : ℕ → Overlapped
    after_count n = record s {
      n_overlapped = put s.n_overlapped b n;
      delayed = if is_positive n then put s.delayed b true else s.delayed;
    }

    after_add :
        (n : ℕ) (cell_ok head_ok node_ok : Bool) (r : Status × Multimap)
        → n ≡ count (overlaps info b) queue
        → MultimapAdded s.data_map ((info b).pos) b cell_ok head_ok node_ok r
        → CheckedInserted s queue b
            (cell_ok && head_ok && node_ok)
            (some (insert_counted info rb fuel (after_count n) b r))
    after_add n cell_ok head_ok node_ok r e (refused x) = absurd (pointer x)
    after_add n cell_ok head_ok node_ok r e (exists x) =
        absurd (contains-absent i.holds b ((info b).pos) new x)
    after_add n cell_ok head_ok node_ok r e (no_memory x) =
        failed (record (after_count n) { data_map = s.data_map }) (ground (arith, x)) refl
          (record {
            holds = i.holds;
            bounded = i.bounded;
            waits = Waits-put s.n_overlapped b n queue new i.waits;
            few = i.few;
          })
    after_add n cell_ok head_ok node_ok r e (added t' x y c) =
        inserted
          (record (after_count n) { data_map = t'; max_sectors = max s.max_sectors ((info b).len) })
          (record {
            holds = Holds-added i.holds b new c;
            bounded = (
              (fits, omega arith),
              Bounded-mono s.max_sectors (max s.max_sectors ((info b).len)) queue (omega arith)
                  i.bounded,
            );
            waits = (ground (arith, e), Waits-put s.n_overlapped b n queue new i.waits);
            few = few;
          })
          (is_delayed (count-length info (overlaps info b) queue))
      where
        is_delayed :
            count (overlaps info b) queue ≤ length queue
            → (if is_positive n then put s.delayed b true else s.delayed) b
              ≡ ltb 0 (count (overlaps info b) queue)
        is_delayed l = ground (arith, e, fresh, few)

    -- With the invariant, a bio wrapper that is new, and fuel for one step per bio wrapper there:
    -- overlapped_check_and_insert returns; it puts the bio wrapper after the others with its number of
    -- overlapping older ones, marks it as delayed if there are any, and keeps the invariant; or memory
    -- was lacking, and the multimap and the invariant are as before.
    pub overlapped_check_and_insert-Serial :
        (cell_ok head_ok node_ok : Bool)
        → CheckedInserted s queue b
            (cell_ok && head_ok && node_ok)
            (overlapped_check_and_insert info rb fuel s b cell_ok head_ok node_ok)
    unfolding overlapped_check_and_insert
    overlapped_check_and_insert-Serial cell_ok head_ok node_ok =
        rw
          (
            counted i.holds rb fuel s.max_sectors b fits i.bounded i.few enough,
            overlapped_check_and_insert,
          )
          (after_add (count (overlaps info b) queue) cell_ok head_ok node_ok
            (multimap_add rb s.data_map ((info b).pos) b cell_ok head_ok node_ok) refl
            (multimap_add-MultimapAdded rb s.data_map i.holds.sorted i.holds.full ((info b).pos) b
              cell_ok head_ok node_ok))
