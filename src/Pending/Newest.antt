-- ===== src/Pending/Newest.antt =====
-- What a read gets from the copies of pending_check_and_copy (module/pending_io.c): each sector comes
-- from the last bio wrapper of the list that covers it.
use walb_driver.Common.{
  ℕ, ◌+◌, ◌≤◌, ◌<◌, ◌≡◌, refl, subst, inl, inr, Bool, true, false, ◌&&◌, Option, none, some, List,
  [], ◌∷◌, All, arith, Bool-cases, length, leb, ltb, ◌==◌, if◌then◌else◌, u64_mod,
}
use walb_driver.Biow.{Biow, bio_wrapper_end}
use walb_driver.Treemap.{RbTree}
use walb_driver.Treemap.Multimap.{contains}
use walb_driver.Treemap.Tally.{one_if, count}
use walb_driver.Overlapped.Serial.{Holds, Bounded}
use walb_driver.Pending.{Pending, pending_sources}
use walb_driver.Pending.Sources.{Ascending, picks, pending_sources-Collected}

module _ (info : ℕ → Biow) where
  abbrev pub covers : ℕ → ℕ → Bool
  covers v x = leb ((info v).pos) x && ltb x (bio_wrapper_end (info v))

  -- The copy that a sector keeps when the copies are made one after the other.
  abbrev pub last_covering : ℕ → List ℕ → Option ℕ
  last_covering x [] = none
  last_covering x (v ∷ vs) = elim (last_covering x vs) [
    | some u ↦ some u
    | none ↦ if covers v x then some v else none
  ]

  -- Where a sector of a read comes from, among the pending writes that are no discards.
  pub data ReadFrom (queue : List ℕ) (x : ℕ) : Option ℕ → Type 0 where
    nobody :
        ((v : ℕ) → contains v queue ≡ true → (info v).discard ≡ false → covers v x ≡ false)
        → ReadFrom queue x none
    newest :
        (u : ℕ)
        → contains u queue ≡ true
        → (info u).discard ≡ false
        → covers u x ≡ true
        → ((v : ℕ)
            → contains v queue ≡ true
            → (info v).discard ≡ false
            → covers v x ≡ true
            → (info v).lsid ≤ (info u).lsid)
        → ReadFrom queue x (some u)

  All-at : (P : ℕ → Type 0) (v : ℕ) (vs : List ℕ) → All P vs → 1 ≤ count (λ u. u == v) vs → P v
  All-at P v [] a l = absurd (omega (arith, l))
  All-at P v (u ∷ us) a l = elim (Bool-cases (u == v)) [
    | inl e ↦ subst P (ground (arith, e)) a.0
    | inr e ↦ All-at P v us a.1 (ground (arith, e, l))
  ]

  -- The result of the search for the last one.
  pub data Last (x : ℕ) (vs : List ℕ) : Option ℕ → Type 0 where
    uncovered : All (λ v. covers v x ≡ false) vs → Last x vs none
    covered :
        (u : ℕ)
        → 1 ≤ count (λ v. v == u) vs
        → covers u x ≡ true
        → All (λ v. covers v x ≡ true → (info v).lsid ≤ (info u).lsid) vs
        → Last x vs (some u)

  last_covering-Last : (x : ℕ) (vs : List ℕ) → Ascending info vs → Last x vs (last_covering x vs)
  last_covering-Last x [] a = uncovered tt
  last_covering-Last x (v ∷ vs) a = go (last_covering x vs) (last_covering-Last x vs a.1)
    where
      alone :
          All (λ w. covers w x ≡ false) vs
          → (b : Bool) → covers v x ≡ b
          → Last x (v ∷ vs) (if b then some v else none)
      alone n false e = uncovered (e, n)
      alone n true e = covered v (ground arith) e ((λ _. omega arith), absent vs n)
        where
          absent :
              (ws : List ℕ)
              → All (λ w. covers w x ≡ false) ws
              → All (λ w. covers w x ≡ true → (info w).lsid ≤ (info v).lsid) ws
          absent [] n = tt
          absent (w ∷ ws) n = ((λ c. ground (arith, n.0, c)), absent ws n.1)

      go :
          (r : Option ℕ)
          → Last x vs r
          → Last x
              (v ∷ vs)
              (elim r [ some u ↦ some u | none ↦ if covers v x then some v else none ])
      go r (uncovered n) = alone n (covers v x) refl
      go r (covered u l c n) =
          covered u (ground (arith, l)) c
            ((λ _. All-at (λ w. (info v).lsid ≤ (info w).lsid) u vs a.0 l), n)

  module _ (rb : RbTree (List ℕ)) (fuel : ℕ) (s : Pending) {queue : List ℕ}
      (h : Holds info s.data_map queue) (bounded : Bounded info s.max_sectors queue) (b : ℕ)
      (fits : (info b).pos + (info b).len < u64_mod) (enough : length queue ≤ fuel) where
    read_from :
        (x : ℕ) (l : List ℕ)
        → Ascending info l
        → ((u : ℕ) → count (λ v. v == u) l ≡ one_if (contains u queue && picks info b u))
        → covers b x ≡ true
        → ReadFrom queue x (last_covering x l)
    read_from x l a members inside = go (last_covering x l) (last_covering-Last x l a)
      where
        there :
            (v : ℕ)
            → contains v queue ≡ true
            → (info v).discard ≡ false
            → covers v x ≡ true
            → 1 ≤ count (λ u. u == v) l
        there v c d e = ground (arith, members v, c, d, e, inside)

        go : (r : Option ℕ) → Last x l r → ReadFrom queue x r
        go r (uncovered n) = nobody (λ v c d. elim (Bool-cases (covers v x)) [
          | inl e ↦
              absurd (ground (arith, e, All-at (λ w. covers w x ≡ false) v l n (there v c d e)))
          | inr e ↦ e
        ])
        go r (covered u k e n) =
            newest u (ground (arith, members u, k)) (ground (arith, members u, k)) e (λ v c d f.
              All-at (λ w. covers w x ≡ true → (info w).lsid ≤ (info u).lsid) v l n (there v c d f)
                f)

    -- With the pending writes in the multimap, their lengths below the bound, and fuel for one step per
    -- pending write: pending_check_and_copy comes to a list of copies, after which each sector of the
    -- read comes from the write of the greatest lsid among all pending writes that cover it and are no
    -- discards, or from none if there is no such write.
    pub pending_sources-newest :
        (l : List ℕ) × (pending_sources info rb fuel s b ≡ some l)
        × ((x : ℕ) → covers b x ≡ true → ReadFrom queue x (last_covering x l))
    pending_sources-newest =
        let c = pending_sources-Collected info rb fuel s h bounded b fits enough in
        (c.sources, c.returns, λ x inside. read_from x c.sources c.ascending c.members inside)
