-- ===== src/Pending/Sources.antt =====
-- The list of pending_check_and_copy (module/pending_io.c): its members and its order.
use mathlib.Core.Option
use walb_driver.Common.{
  ℕ, ◌+◌, ◌≤◌, ◌<◌, ◌≡◌, refl, sym, ap, subst, ◌∙◌, inl, inr, Bool, true, false, not, ◌&&◌, Option,
  some, List, [], ◌∷◌, All, arith, Bool-cases, length, ltb, ◌==◌, if◌then◌else◌, u64_mod,
}
use walb_driver.Biow.{Biow, bio_wrapper_end}
use walb_driver.Treemap.{to_list, RbTree}
use walb_driver.Treemap.Scan.{flat}
use walb_driver.Treemap.Multimap.{contains}
use walb_driver.Treemap.Tally.{one_if, count, tally, in_range, fold_where}
use walb_driver.Treemap.Range.{scan-fold_where}
use walb_driver.Overlapped.{start_pos}
use walb_driver.Overlapped.Serial.{overlaps, Holds, Bounded, count-cong, overlaps-in_range}
use walb_driver.Overlapped.Insert.{Holds-length}
use walb_driver.Overlapped.Members.{count-member, count-once, All-and}
use walb_driver.Pending.{Pending, Found, insert_by_loop, insert_to_sorted, collect, pending_sources}

module _ (info : ℕ → Biow) where
  -- Sorted by lsid.
  abbrev pub Ascending : List ℕ → Type 0
  Ascending [] = Unit
  Ascending (v ∷ vs) = All (λ u. (info v).lsid ≤ (info u).lsid) vs × Ascending vs

  insert_to_sorted-loop :
      (b : ℕ) (vs : List ℕ) → insert_to_sorted info b vs ≡ insert_by_loop info b vs
  insert_to_sorted-loop b [] = refl
  insert_to_sorted-loop b (v ∷ vs) = ground arith

  All-insert :
      (m b : ℕ) (vs : List ℕ)
      → m ≤ (info b).lsid
      → All (λ u. m ≤ (info u).lsid) vs
      → All (λ u. m ≤ (info u).lsid) (insert_by_loop info b vs)
  All-insert m b [] l a = (l, tt)
  All-insert m b (v ∷ vs) l a = elim (Bool-cases (ltb ((info b).lsid) ((info v).lsid))) [
    | inl e ↦ rw e (l, a)
    | inr e ↦ rw e (a.0, All-insert m b vs l a.1)
  ]

  All-mono :
      (m n : ℕ) (vs : List ℕ)
      → m ≤ n
      → All (λ u. n ≤ (info u).lsid) vs
      → All (λ u. m ≤ (info u).lsid) vs
  All-mono m n [] l a = tt
  All-mono m n (v ∷ vs) l a = (omega (arith, l, a.0), All-mono m n vs l a.1)

  insert-Ascending : (b : ℕ) (vs : List ℕ) → Ascending vs → Ascending (insert_by_loop info b vs)
  insert-Ascending b [] a = (tt, tt)
  insert-Ascending b (v ∷ vs) a = elim (Bool-cases (ltb ((info b).lsid) ((info v).lsid))) [
    | inl e ↦
        let l : (info b).lsid ≤ (info v).lsid = ground (arith, e) in
        rw e ((l, All-mono ((info b).lsid) ((info v).lsid) vs l a.0), a)
    | inr e ↦
        rw e (All-insert ((info v).lsid) b vs (ground (arith, e)) a.0, insert-Ascending b vs a.1)
  ]

  insert-count :
      (u b : ℕ) (vs : List ℕ)
      → count (λ v. v == u) (insert_by_loop info b vs) ≡ one_if (b == u) + count (λ v. v == u) vs
  insert-count u b [] = refl
  insert-count u b (v ∷ vs) = elim (Bool-cases (ltb ((info b).lsid) ((info v).lsid))) [
    | inl e ↦ rw e refl
    | inr e ↦ rw e (omega (arith, insert-count u b vs))
  ]

  -- What the loop picks.
  abbrev pub picks : ℕ → ℕ → Bool
  picks b v = not ((info v).discard) && overlaps info b v

  module _ (b : ℕ) (p : ℕ → ℕ → Bool) where
    collect-Ascending :
        (s : Found) (v : ℕ) → Ascending s.biow_list → Ascending (collect info b s v).biow_list
    collect-Ascending s v a = elim (Bool-cases (picks b v)) [
      | inl e ↦ rw e (
          subst Ascending (sym (insert_to_sorted-loop v s.biow_list))
            (insert-Ascending v s.biow_list a))
      | inr e ↦ rw e a
    ]

    collect-count :
        (u : ℕ) (s : Found) (v : ℕ)
        → count (λ w. w == u) (collect info b s v).biow_list
          ≡ one_if (picks b v && (v == u)) + count (λ w. w == u) s.biow_list
    collect-count u s v = elim (Bool-cases (picks b v)) [
      | inl e ↦ rw e (
          ap (count (λ w. w == u)) (insert_to_sorted-loop v s.biow_list)
          ∙ insert-count u v s.biow_list)
      | inr e ↦ rw e (omega arith)
    ]

    fold-Ascending :
        (s : Found) (es : List (ℕ × ℕ))
        → Ascending s.biow_list
        → Ascending (fold_where p (collect info b) s es).biow_list
    fold-Ascending s [] a = a
    fold-Ascending s ((k, v) ∷ es) a =
        go (p k v) (fold-Ascending (collect info b s v) es (collect-Ascending s v a))
          (fold-Ascending s es a)
      where
        go :
            (x : Bool)
            → Ascending (fold_where p (collect info b) (collect info b s v) es).biow_list
            → Ascending (fold_where p (collect info b) s es).biow_list
            → Ascending
                (fold_where p (collect info b) (if x then collect info b s v else s) es).biow_list
        go true f g = f
        go false f g = g

    fold-collect :
        (u : ℕ) (s : Found) (es : List (ℕ × ℕ))
        → count (λ v. v == u) (fold_where p (collect info b) s es).biow_list
          ≡ tally (λ k v. (p k v && picks b v) && (v == u)) es + count (λ v. v == u) s.biow_list
    fold-collect u s [] = omega arith
    fold-collect u s ((k, v) ∷ es) =
        go (p k v) (fold-collect u (collect info b s v) es) (fold-collect u s es)
      where
        rest : ℕ
        rest = tally (λ k v. (p k v && picks b v) && (v == u)) es

        go :
            (x : Bool)
            → count (λ v. v == u) (fold_where p (collect info b) (collect info b s v) es).biow_list
              ≡ rest + count (λ v. v == u) (collect info b s v).biow_list
            → count (λ v. v == u) (fold_where p (collect info b) s es).biow_list
              ≡ rest + count (λ v. v == u) s.biow_list
            → count
                (λ v. v == u)
                (fold_where p (collect info b) (if x then collect info b s v else s) es).biow_list
              ≡ one_if ((x && picks b v) && (v == u)) + rest + count (λ v. v == u) s.biow_list
        go true f g = omega (arith, f, collect-count u s v)
        go false f g = omega (arith, g)

  -- What pending_check_and_copy copies from.
  pub record Collected (s : Pending) (queue : List ℕ) (b : ℕ) (r : Option (List ℕ)) : Type 0 where
    pub sources : List ℕ
    pub returns : r ≡ some sources
    pub ascending : Ascending sources
    pub members : (u : ℕ) → count (λ v. v == u) sources ≡ one_if (contains u queue && picks b u)

  module _ (rb : RbTree (List ℕ)) (fuel : ℕ) (s : Pending) {queue : List ℕ}
      (h : Holds info s.data_map queue) (bounded : Bounded info s.max_sectors queue) (b : ℕ)
      (fits : (info b).pos + (info b).len < u64_mod) (enough : length queue ≤ fuel) where
    abbrev start : ℕ
    start = start_pos s.max_sectors (info b)

    abbrev end : ℕ
    end = bio_wrapper_end (info b)

    abbrev empty : Found
    empty = record { n_overlapped_bios = 0; biow_list = [] }

    abbrev all_pairs : List (ℕ × ℕ)
    all_pairs = flat (to_list s.data_map)

    picks-in_range :
        (vs : List ℕ)
        → All
            (λ v. (in_range start end ((info v).pos) v && overlaps info b v) ≡ overlaps info b v)
            vs
        → All (λ v. (in_range start end ((info v).pos) v && picks b v) ≡ picks b v) vs
    picks-in_range [] a = tt
    picks-in_range (v ∷ vs) a = (ground (arith, a.0), picks-in_range vs a.1)

    picked :
        (u : ℕ)
        → tally (λ k v. (in_range start end k v && picks b v) && (v == u)) all_pairs
          ≡ one_if (contains u queue && picks b u)
    picked u =
        h.bag (λ k v. (in_range start end k v && picks b v) && (v == u))
        ∙ count-cong info (λ v. (in_range start end ((info v).pos) v && picks b v) && (v == u))
            (λ v. picks b v && (v == u)) queue
            (All-and (λ v. in_range start end ((info v).pos) v && picks b v) (picks b) (λ v. v == u)
              queue
              (picks-in_range queue (overlaps-in_range info s.max_sectors b queue fits bounded)))
        ∙ count-member (picks b) u queue
        ∙ ground (arith, count-once u queue (h.once u))

    -- With the pending writes in the multimap, their lengths below the bound, and fuel for one step per
    -- pending write: pending_check_and_copy copies from exactly the pending writes that overlap the
    -- read and are no discards, each once, in the order of their lsids.
    pub pending_sources-Collected : Collected s queue b (pending_sources info rb fuel s b)
    unfolding pending_sources
    pending_sources-Collected = record {
      sources = (fold_where (in_range start end) (collect info b) empty all_pairs).biow_list;
      returns = ap (Option.map (λ (r : Found). r.biow_list)) (
          scan-fold_where start end (collect info b) rb s.data_map fuel empty h.sorted h.full
            (omega (arith, Holds-length info h, enough)));
      ascending = fold-Ascending b (in_range start end) empty all_pairs tt;
      members = λ u. omega (arith, fold-collect b (in_range start end) u empty all_pairs, picked u);
    }
