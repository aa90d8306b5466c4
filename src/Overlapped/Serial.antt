-- ===== src/Overlapped/Serial.antt =====
-- The invariant of the overlapped data (module/overlapped_io.c), with the bio wrappers in the order in
-- which they came, the newest first.
use walb_driver.Common.{
  ℕ, ◌+◌, ◌^◌, ◌≤◌, ◌<◌, ◌≡◌, refl, Bool, true, ◌&&◌, List, [], ◌∷◌, All, arith, length, leb, ltb,
  ◌==◌, u64_mod,
}
use walb_driver.Biow.{Biow, bio_wrapper_end, bio_wrapper_is_overlap}
use walb_driver.Treemap.{to_list}
use walb_driver.Treemap.Lists.{IsSorted}
use walb_driver.Treemap.Scan.{IsFull, flat}
use walb_driver.Treemap.Multimap.{Multimap}
use walb_driver.Treemap.Tally.{count, tally}
use walb_driver.Overlapped.{Overlapped, start_pos}

module _ (info : ℕ → Biow) where
  abbrev pub overlaps : ℕ → ℕ → Bool
  overlaps b v = bio_wrapper_is_overlap (info b) (info v)

  -- The multimap holds the bio wrappers of the list, each once, under their positions.
  pub record Holds (t : Multimap) (queue : List ℕ) : Type 0 where
    pub sorted : IsSorted (to_list t)
    pub full : IsFull (to_list t)
    pub bag :
        (p : ℕ → ℕ → Bool) → tally p (flat (to_list t)) ≡ count (λ u. p ((info u).pos) u) queue
    pub once : (v : ℕ) → count (λ u. u == v) queue ≤ 1

  -- The positions and lengths do not wrap, and no length is above the bound.
  abbrev pub Bounded : ℕ → List ℕ → Type 0
  Bounded m queue = All (λ u. ((info u).pos + (info u).len < u64_mod) × ((info u).len ≤ m)) queue

  -- n_overlapped is the number of the older bio wrappers that overlap.
  abbrev pub Waits : (ℕ → ℕ) → List ℕ → Type 0
  Waits n [] = Unit
  Waits n (u ∷ older) = (n u ≡ count (overlaps u) older) × Waits n older

  pub record Serial (s : Overlapped) (queue : List ℕ) : Type 0 where
    pub holds : Holds s.data_map queue
    pub bounded : Bounded s.max_sectors queue
    pub waits : Waits s.n_overlapped queue
    pub few : length queue < 2 ^ 31

  -- A predicate that holds of the members.
  pub count-cong :
      (p q : ℕ → Bool) (vs : List ℕ) → All (λ u. p u ≡ q u) vs → count p vs ≡ count q vs
  count-cong p q [] h = refl
  count-cong p q (v ∷ vs) h = rw h.0 (omega (arith, count-cong p q vs h.1))

  pub count-length : (p : ℕ → Bool) (vs : List ℕ) → count p vs ≤ length vs
  count-length p [] = omega arith
  count-length p (v ∷ vs) = ground (arith, count-length p vs)

  pub tally-length : (es : List (ℕ × ℕ)) → tally (λ k v. true) es ≡ length es
  tally-length [] = refl
  tally-length (e ∷ es) = omega (arith, tally-length es)

  pub count_all : (vs : List ℕ) → count (λ u. true) vs ≡ length vs
  count_all [] = refl
  count_all (v ∷ vs) = omega (arith, count_all vs)

  -- What overlaps starts in the range that the driver searches.
  pub overlaps-in_range :
      (m b : ℕ) (queue : List ℕ)
      → (info b).pos + (info b).len < u64_mod
      → Bounded m queue
      → All
          (λ u.
            ((leb (start_pos m (info b)) ((info u).pos)
                && ltb ((info u).pos) (bio_wrapper_end (info b)))
              && overlaps b u)
            ≡ overlaps b u)
          queue
  overlaps-in_range m b [] h k = tt
  overlaps-in_range m b (u ∷ us) h k = (ground arith, overlaps-in_range m b us h k.1)
