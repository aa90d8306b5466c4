-- ===== src/Treemap/Values.antt =====
-- How multimap_add, multimap_del and multimap_del_key change the entries of a multimap: at one key
-- the cells are others, and no key is left without cells.
use mathlib.Core.Option
use walb_driver.Common.{
  ℕ, ◌<◌, ◌≡◌, ◌≢◌, refl, sym, ap, subst, ◌⊎◌, inl, inr, List, [], ◌∷◌, ◌++◌, arith, ◌==◌,
  if◌then◌else◌,
}
use walb_driver.Treemap.{leaf, node, to_list, remove}
use walb_driver.Treemap.Lists.{Under, Over, IsSorted, Over-mono}
use walb_driver.Treemap.Map.{assoc}
use walb_driver.Treemap.Effects.{assoc-Over}
use walb_driver.Treemap.Multimap.{Multimap, set_cells}
use walb_driver.Treemap.Scan.{IsFull}
use walb_driver.Treemap.Search.{compare_cases}

abbrev pub cells_of : ℕ → List (ℕ × List ℕ) → List ℕ
cells_of k es = Option.get_or (assoc k es) []

-- The entry of a key with these cells, or no entry without cells.
abbrev pub block : ℕ → List ℕ → List (ℕ × List ℕ)
block k [] = []
block k (v ∷ vs) = (k, v ∷ vs) ∷ []

-- The place of a key in sorted entries.
pub record Spot (k : ℕ) (es : List (ℕ × List ℕ)) : Type 0 where
  pub pre : List (ℕ × List ℕ)
  pub post : List (ℕ × List ℕ)
  pub under : Under k pre
  pub over : Over k post
  pub eq : es ≡ pre ++ (block k (cells_of k es) ++ post)

-- Two lists of entries differ in the cells of one key only.
pub record Changed (k : ℕ) (vs us : List ℕ) (es fs : List (ℕ × List ℕ)) : Type 0 where
  pub pre : List (ℕ × List ℕ)
  pub post : List (ℕ × List ℕ)
  pub under : Under k pre
  pub over : Over k post
  pub old : es ≡ pre ++ (block k vs ++ post)
  pub new : fs ≡ pre ++ (block k us ++ post)

cells_of-here :
    (k j : ℕ) (vs : List ℕ) (es : List (ℕ × List ℕ)) → k ≡ j → cells_of k ((j, vs) ∷ es) ≡ vs
cells_of-here k j vs es e = ground arith

cells_of-there :
    (k j : ℕ) (vs : List ℕ) (es : List (ℕ × List ℕ))
    → j < k
    → cells_of k ((j, vs) ∷ es) ≡ cells_of k es
cells_of-there k j vs es l = ground arith

pub cells_of-Over : (k : ℕ) (es : List (ℕ × List ℕ)) → Over k es → cells_of k es ≡ []
cells_of-Over k es o = rw (assoc-Over k es o) refl

pub spot : (k : ℕ) (es : List (ℕ × List ℕ)) → IsSorted es → IsFull es → Spot k es
spot k [] s f = record { pre = []; post = []; under = tt; over = tt; eq = refl }
spot k ((j, []) ∷ es) s f = absurd (f.0 refl)
spot k ((j, v ∷ vs) ∷ es) s f = choose (compare_cases k j) (spot k es s.1 f.1)
  where
    choose : (k < j) ⊎ (j < k) ⊎ (k ≡ j) → Spot k es → Spot k ((j, v ∷ vs) ∷ es)
    choose (inl l) r = record {
      pre = [];
      post = (j, v ∷ vs) ∷ es;
      under = tt;
      over = (l, Over-mono k j es l s.0);
      eq = rw (cells_of-Over k ((j, v ∷ vs) ∷ es) (l, Over-mono k j es l s.0)) refl;
    }
    choose (inr (inl g)) r = record {
      pre = (j, v ∷ vs) ∷ r.pre;
      post = r.post;
      under = (g, r.under);
      over = r.over;
      eq = rw (cells_of-there k j (v ∷ vs) es g) (ap (λ x. (j, v ∷ vs) ∷ x) r.eq);
    }
    choose (inr (inr e)) r = record {
      pre = [];
      post = es;
      under = tt;
      over = subst (λ x. Over x es) (sym e) s.0;
      eq = rw (cells_of-here k j (v ∷ vs) es e, e) refl;
    }

-- A write to the cells of one key, in the list of entries.
abbrev pub set_list : ℕ → List ℕ → List (ℕ × List ℕ) → List (ℕ × List ℕ)
set_list k us [] = []
set_list k us ((j, vs) ∷ es) = (j, if j == k then us else vs) ∷ set_list k us es

pub set_list-append :
    (k : ℕ) (us : List ℕ) (xs ys : List (ℕ × List ℕ))
    → set_list k us (xs ++ ys) ≡ set_list k us xs ++ set_list k us ys
set_list-append k us [] ys = refl
set_list-append k us ((j, vs) ∷ xs) ys =
    ap (λ l. (j, if j == k then us else vs) ∷ l) (set_list-append k us xs ys)

pub to_list-set_cells :
    (t : Multimap) (k : ℕ) (us : List ℕ) → to_list (set_cells t k us) ≡ set_list k us (to_list t)
unfolding set_cells
to_list-set_cells leaf k us = refl
to_list-set_cells (node l j vs r) k us =
    rw (to_list-set_cells l k us, to_list-set_cells r k us)
      (sym (set_list-append k us (to_list l) ((j, vs) ∷ to_list r)))

pub set_list-Under :
    (k : ℕ) (us : List ℕ) (es : List (ℕ × List ℕ)) → Under k es → set_list k us es ≡ es
set_list-Under k us [] u = refl
set_list-Under k us ((j, vs) ∷ es) u = ground (arith, set_list-Under k us es u.1)

pub set_list-Over :
    (k : ℕ) (us : List ℕ) (es : List (ℕ × List ℕ)) → Over k es → set_list k us es ≡ es
set_list-Over k us [] u = refl
set_list-Over k us ((j, vs) ∷ es) u = ground (arith, set_list-Over k us es u.1)

pub remove-at :
    (k : ℕ) (vs : List ℕ) (xs ys : List (ℕ × List ℕ))
    → Under k xs
    → remove k (xs ++ (k, vs) ∷ ys) ≡ xs ++ ys
remove-at k vs [] ys u = ground arith
remove-at k vs ((j, us) ∷ xs) ys u = ground (arith, remove-at k vs xs ys u.1)

-- The key-value pairs by a spot, with other cells.
pub set_list-Spot :
    (k : ℕ) (us : List ℕ) {es : List (ℕ × List ℕ)} (p : Spot k es)
    → cells_of k es ≢ []
    → us ≢ []
    → set_list k us es ≡ p.pre ++ (block k us ++ p.post)
set_list-Spot k us {es} p n m = go (cells_of k es) us p.eq n m
  where
    go :
        (vs us : List ℕ)
        → es ≡ p.pre ++ (block k vs ++ p.post)
        → vs ≢ []
        → us ≢ []
        → set_list k us es ≡ p.pre ++ (block k us ++ p.post)
    go [] us e n m = absurd (n refl)
    go (v ∷ vs) [] e n m = absurd (m refl)
    go (v ∷ vs) (u ∷ us) e n m =
        rw
          (
            e,
            set_list-append k (u ∷ us) p.pre ((k, v ∷ vs) ∷ p.post),
            set_list-Under k (u ∷ us) p.pre p.under,
            set_list-Over k (u ∷ us) p.post p.over,
          )
          (ground arith)

pub remove-Spot :
    (k : ℕ) {es : List (ℕ × List ℕ)} (p : Spot k es)
    → cells_of k es ≢ []
    → remove k es ≡ p.pre ++ p.post
remove-Spot k {es} p n = go (cells_of k es) p.eq n
  where
    go :
        (vs : List ℕ)
        → es ≡ p.pre ++ (block k vs ++ p.post)
        → vs ≢ []
        → remove k es ≡ p.pre ++ p.post
    go [] e n = absurd (n refl)
    go (v ∷ vs) e n = rw e (remove-at k (v ∷ vs) p.pre p.post p.under)
