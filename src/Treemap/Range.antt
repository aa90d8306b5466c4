-- ===== src/Treemap/Range.antt =====
-- The loops over a multimap as folds over all pairs, with a test on the key.
use walb_driver.Common.{
  ℕ, ◌≤◌, ◌<◌, ◌≡◌, refl, ap, ◌∙◌, inl, inr, Bool, false, some, List, [], ◌∷◌, ◌++◌, All,
  All-append, length-append, arith, Bool-cases, length, leb, ltb, if◌then◌else◌,
}
use walb_driver.Treemap.{to_list, RbTree}
use walb_driver.Treemap.Lists.{Over, IsSorted}
use walb_driver.Treemap.Multimap.{Multimap}
use walb_driver.Treemap.Scan.{IsFull, pairs, flat, fold_before, from_key, scan}
use walb_driver.Treemap.Scanned.{scan-fold_before}
use walb_driver.Treemap.Tally.{in_range, fold_where}

-- The keys do not fall.
abbrev pub Rising : List (ℕ × ℕ) → Type 0
Rising [] = Unit
Rising (e ∷ es) = All (λ (x : ℕ × ℕ). e.0 ≤ x.0) es × Rising es

fold_where-none :
    {S : Type 0} (p : ℕ → ℕ → Bool) (visit : S → ℕ → S) (s : S) (es : List (ℕ × ℕ))
    → All (λ (e : ℕ × ℕ). p e.0 e.1 ≡ false) es
    → fold_where p visit s es ≡ s
fold_where-none p visit s [] n = refl
fold_where-none p visit s (e ∷ es) n = rw n.0 (fold_where-none p visit s es n.1)

fold_where-append :
    {S : Type 0} (p : ℕ → ℕ → Bool) (visit : S → ℕ → S) (s : S) (xs ys : List (ℕ × ℕ))
    → fold_where p visit s (xs ++ ys) ≡ fold_where p visit (fold_where p visit s xs) ys
fold_where-append p visit s [] ys = refl
fold_where-append p visit s (x ∷ xs) ys =
    fold_where-append p visit (if p x.0 x.1 then visit s x.1 else s) xs ys

above_end :
    (start end k : ℕ) (es : List (ℕ × ℕ))
    → end ≤ k
    → All (λ (x : ℕ × ℕ). k ≤ x.0) es
    → All (λ (e : ℕ × ℕ). in_range start end e.0 e.1 ≡ false) es
above_end start end k [] h r = tt
above_end start end k (e ∷ es) h r = (ground arith, above_end start end k es h r.1)

fold_before-where :
    {S : Type 0} (start end : ℕ) (visit : S → ℕ → S) (s : S) (es : List (ℕ × ℕ))
    → Rising es
    → All (λ (x : ℕ × ℕ). start ≤ x.0) es
    → fold_before end visit s es ≡ fold_where (in_range start end) visit s es
fold_before-where start end visit s [] r a = refl
fold_before-where start end visit s ((k, v) ∷ es) r a = elim (Bool-cases (ltb k end)) [
  | inl h ↦ ground (arith, h, fold_before-where start end visit (visit s v) es r.1 a.1)
  | inr h ↦ ground (
    arith,
    h,
    fold_where-none (in_range start end) visit s es
        (above_end start end k es (ground (arith, h)) r.0),
  )
]

module _ (k : ℕ) where
  pairs_above :
      (vs : List ℕ) (ys : List (ℕ × ℕ))
      → All (λ (x : ℕ × ℕ). k ≤ x.0) ys
      → All (λ (x : ℕ × ℕ). k ≤ x.0) (pairs k vs ++ ys)
  pairs_above [] ys a = a
  pairs_above (v ∷ vs) ys a = (omega arith, pairs_above vs ys a)

  Rising-pairs :
      (vs : List ℕ) (ys : List (ℕ × ℕ))
      → All (λ (x : ℕ × ℕ). k ≤ x.0) ys
      → Rising ys
      → Rising (pairs k vs ++ ys)
  Rising-pairs [] ys a r = r
  Rising-pairs (v ∷ vs) ys a r = (pairs_above vs ys a, Rising-pairs vs ys a r)

  pairs_below :
      (start end : ℕ) (vs : List ℕ)
      → k < start
      → All (λ (e : ℕ × ℕ). in_range start end e.0 e.1 ≡ false) (pairs k vs)
  pairs_below start end [] h = tt
  pairs_below start end (v ∷ vs) h = (ground arith, pairs_below start end vs h)

flat_above :
    (d : ℕ) (es : List (ℕ × List ℕ))
    → All (λ (e : ℕ × List ℕ). d ≤ e.0) es
    → All (λ (x : ℕ × ℕ). d ≤ x.0) (flat es)
flat_above d [] a = tt
flat_above d ((k, vs) ∷ es) a =
    All-append (λ (x : ℕ × ℕ). d ≤ x.0) (pairs k vs) (flat es) (here vs) (flat_above d es a.1)
  where
    here : (vs : List ℕ) → All (λ (x : ℕ × ℕ). d ≤ x.0) (pairs k vs)
    here [] = tt
    here (v ∷ vs) = (a.0, here vs)

pub Over-above : (k : ℕ) (es : List (ℕ × List ℕ)) → Over k es → All (λ (e : ℕ × List ℕ). k ≤ e.0) es
Over-above k [] o = tt
Over-above k (e ∷ es) o = (omega arith, Over-above k es o.1)

at_least :
    (d k : ℕ) (es : List (ℕ × List ℕ)) → d ≤ k → Over k es → All (λ (e : ℕ × List ℕ). d ≤ e.0) es
at_least d k [] h o = tt
at_least d k (e ∷ es) h o = (omega arith, at_least d k es h o.1)

pub Rising-flat : (es : List (ℕ × List ℕ)) → IsSorted es → Rising (flat es)
Rising-flat [] s = tt
Rising-flat ((k, vs) ∷ es) s =
    Rising-pairs k vs (flat es) (flat_above k es (Over-above k es s.0)) (Rising-flat es s.1)

module _ {S : Type 0} (start end : ℕ) (visit : S → ℕ → S) where
  from_key-where :
      (es : List (ℕ × List ℕ)) (s : S)
      → IsSorted es
      → fold_before end visit s (flat (from_key start es))
        ≡ fold_where (in_range start end) visit s (flat es)
  from_key-where [] s o = refl
  from_key-where ((k, vs) ∷ es) s o = elim (Bool-cases (leb start k)) [
    | inl h ↦ rw h (
        fold_before-where start end visit s (flat ((k, vs) ∷ es)) (Rising-flat ((k, vs) ∷ es) o) (
          flat_above start ((k, vs) ∷ es)
            (ground (arith, h), at_least start k es (ground (arith, h)) o.0)))
    | inr h ↦
        rw
          (
            h,
            fold_where-append (in_range start end) visit s (pairs k vs) (flat es),
            fold_where-none (in_range start end) visit s (pairs k vs)
                (pairs_below k start end vs (ground (arith, h))),
          )
          (from_key-where es s o.1)
  ]

  pub from_key_short :
      (es : List (ℕ × List ℕ)) → length (flat (from_key start es)) ≤ length (flat es)
  from_key_short [] = omega arith
  from_key_short ((k, vs) ∷ es) = elim (Bool-cases (leb start k)) [
    | inl h ↦ rw h (omega arith)
    | inr h ↦ rw h (omega (arith, length-append (pairs k vs) (flat es), from_key_short es))
  ]

  -- In a multimap whose keys are sorted and whose nodes have cells, a cursor search from a start and
  -- the loop while the key lies below an end visit exactly the values of the keys in that range, in
  -- order. Fuel for one step per pair is enough.
  pub scan-fold_where :
      (rb : RbTree (List ℕ)) (t : Multimap) (fuel : ℕ) (s : S)
      → IsSorted (to_list t)
      → IsFull (to_list t)
      → length (flat (to_list t)) ≤ fuel
      → scan rb t fuel start end visit s
        ≡ some (fold_where (in_range start end) visit s (flat (to_list t)))
  scan-fold_where rb t fuel s o f l =
      scan-fold_before rb t o f start end visit fuel s (omega (arith, from_key_short (to_list t)))
      ∙ ap some (from_key-where (to_list t) s o)
