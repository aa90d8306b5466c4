-- ===== src/Treemap/Lists.antt =====
-- Sorted lists of entries: what splitting them at a node gives.
use walb_driver.Common.{ℕ, ◌<◌, List, [], ◌∷◌, ◌++◌, All, All-append, arith}
use walb_driver.Treemap.{remove}

module _ {A : Type 0} where
  abbrev pub Under : ℕ → List (ℕ × A) → Type 0
  Under k es = All (λ (e : ℕ × A). e.0 < k) es

  abbrev pub Over : ℕ → List (ℕ × A) → Type 0
  Over k es = All (λ (e : ℕ × A). k < e.0) es

  -- The keys rise strictly.
  abbrev pub IsSorted : List (ℕ × A) → Type 0
  IsSorted [] = Unit
  IsSorted (e ∷ es) = Over e.0 es × IsSorted es

  pub Over-mono : (j k : ℕ) (es : List (ℕ × A)) → j < k → Over k es → Over j es
  Over-mono j k [] l o = tt
  Over-mono j k (e ∷ es) l o = (omega arith, Over-mono j k es l o.1)

  pub Under-mono : (j k : ℕ) (es : List (ℕ × A)) → j < k → Under j es → Under k es
  Under-mono j k [] l o = tt
  Under-mono j k (e ∷ es) l o = (omega arith, Under-mono j k es l o.1)

  pub Over-split : (k : ℕ) (xs ys : List (ℕ × A)) → Over k (xs ++ ys) → Over k xs × Over k ys
  Over-split k [] ys o = (tt, o)
  Over-split k (x ∷ xs) ys o = let r = Over-split k xs ys o.1 in ((o.0, r.0), r.1)

  -- The two sides of an entry in a sorted list.
  pub IsSorted-split :
      (xs : List (ℕ × A)) (k : ℕ) (v : A) (ys : List (ℕ × A))
      → IsSorted (xs ++ (k, v) ∷ ys)
      → Under k xs × Over k ys × IsSorted xs × IsSorted ys
  IsSorted-split [] k v ys s = (tt, s.0, tt, s.1)
  IsSorted-split (x ∷ xs) k v ys s =
      let r = IsSorted-split xs k v ys s.1 in
      let o = Over-split x.0 xs ((k, v) ∷ ys) s.0 in ((o.1.0, r.0), r.1, (o.0, r.2), r.3)

  -- Putting a list together again.
  pub IsSorted-join :
      (xs : List (ℕ × A)) (k : ℕ) (v : A) (ys : List (ℕ × A))
      → Under k xs
      → Over k ys
      → IsSorted xs
      → IsSorted ys
      → IsSorted (xs ++ (k, v) ∷ ys)
  IsSorted-join [] k v ys u o s t = (o, t)
  IsSorted-join (x ∷ xs) k v ys u o s t = (
    All-append (λ (e : ℕ × A). x.0 < e.0) xs ((k, v) ∷ ys) s.0 (u.0, Over-mono x.0 k ys u.0 o),
    IsSorted-join xs k v ys u.1 o s.1 t,
  )

  pub Over-remove : (j k : ℕ) (es : List (ℕ × A)) → Over j es → Over j (remove k es)
  Over-remove j k [] o = tt
  Over-remove j k (e ∷ es) o = ground (arith, Over-remove j k es o.1)

  pub remove-IsSorted : (k : ℕ) (es : List (ℕ × A)) → IsSorted es → IsSorted (remove k es)
  remove-IsSorted k [] s = tt
  remove-IsSorted k (e ∷ es) s = ground (arith, remove-IsSorted k es s.1, Over-remove e.0 k es s.0)
