-- ===== src/Treemap/Tally.antt =====
-- Counting in a multimap: what a change of the cells of one key does to every count, and a loop over
-- a range of keys as a fold over all pairs.
use walb_driver.Common.{
  ℕ, ◌+◌, ◌<◌, ◌≡◌, ◌≢◌, refl, subst, Bool, true, false, ◌&&◌, List, [], ◌∷◌, ◌++◌, All-append,
  arith, leb, ltb, ◌==◌, if◌then◌else◌,
}
use walb_driver.Treemap.Lists.{Under, Over, IsSorted, IsSorted-join, Over-mono}
use walb_driver.Treemap.Effects.{IsSorted-append}
use walb_driver.Treemap.Multimap.{delete}
use walb_driver.Treemap.Scan.{IsFull, pairs, flat}
use walb_driver.Treemap.Values.{cells_of, cells_of-Over, block, Changed}

abbrev pub one_if : Bool → ℕ
one_if b = if b then 1 else 0

abbrev pub count : (ℕ → Bool) → List ℕ → ℕ
count p [] = 0
count p (v ∷ vs) = one_if (p v) + count p vs

abbrev pub tally : (ℕ → ℕ → Bool) → List (ℕ × ℕ) → ℕ
tally p [] = 0
tally p (e ∷ es) = one_if (p e.0 e.1) + tally p es

-- The fold over the pairs that a test picks.
abbrev pub fold_where : {S : Type 0} → (ℕ → ℕ → Bool) → (S → ℕ → S) → S → List (ℕ × ℕ) → S
fold_where p visit s [] = s
fold_where p visit s (e ∷ es) = fold_where p visit (if p e.0 e.1 then visit s e.1 else s) es

-- The keys of a range.
abbrev pub in_range : ℕ → ℕ → ℕ → ℕ → Bool
in_range start end k v = leb start k && ltb k end

pub tally-append :
    (p : ℕ → ℕ → Bool) (xs ys : List (ℕ × ℕ)) → tally p (xs ++ ys) ≡ tally p xs + tally p ys
tally-append p [] ys = omega arith
tally-append p (e ∷ xs) ys = omega (arith, tally-append p xs ys)

tally-pairs : (p : ℕ → ℕ → Bool) (k : ℕ) (vs : List ℕ) → tally p (pairs k vs) ≡ count (p k) vs
tally-pairs p k [] = refl
tally-pairs p k (v ∷ vs) = omega (arith, tally-pairs p k vs)

flat_append_tally :
    (p : ℕ → ℕ → Bool) (xs ys : List (ℕ × List ℕ))
    → tally p (flat (xs ++ ys)) ≡ tally p (flat xs) + tally p (flat ys)
flat_append_tally p [] ys = omega arith
flat_append_tally p ((k, vs) ∷ xs) ys = omega (
  arith,
  tally-append p (pairs k vs) (flat (xs ++ ys)),
  tally-append p (pairs k vs) (flat xs),
  flat_append_tally p xs ys,
)

tally-block :
    (p : ℕ → ℕ → Bool) (k : ℕ) (vs : List ℕ) → tally p (flat (block k vs)) ≡ count (p k) vs
tally-block p k [] = refl
tally-block p k (v ∷ vs) =
    omega (arith, tally-append p (pairs k (v ∷ vs)) [], tally-pairs p k (v ∷ vs))

IsSorted-gap :
    (k : ℕ) (xs ys : List (ℕ × List ℕ))
    → Under k xs
    → Over k ys
    → IsSorted xs
    → IsSorted ys
    → IsSorted (xs ++ ys)
IsSorted-gap k [] ys u o s t = t
IsSorted-gap k (x ∷ xs) ys u o s t = (
  All-append (λ (e : ℕ × List ℕ). x.0 < e.0) xs ys s.0 (Over-mono x.0 k ys u.0 o),
  IsSorted-gap k xs ys u.1 o s.1 t,
)

IsFull-split : (xs ys : List (ℕ × List ℕ)) → IsFull (xs ++ ys) → IsFull xs × IsFull ys
IsFull-split [] ys f = (tt, f)
IsFull-split (x ∷ xs) ys f = let r = IsFull-split xs ys f.1 in ((f.0, r.0), r.1)

IsFull-block : (k : ℕ) (vs : List ℕ) → IsFull (block k vs)
IsFull-block k [] = tt
IsFull-block k (v ∷ vs) = ((λ e. ground (arith, e)), tt)

module _ {k : ℕ} {vs us : List ℕ} {es fs : List (ℕ × List ℕ)} (c : Changed k vs us es fs) where
  tally_parts :
      (p : ℕ → ℕ → Bool) (ws : List ℕ)
      → tally p (flat (c.pre ++ (block k ws ++ c.post)))
        ≡ tally p (flat c.pre) + count (p k) ws + tally p (flat c.post)
  tally_parts p ws = omega (
    arith,
    flat_append_tally p c.pre (block k ws ++ c.post),
    flat_append_tally p (block k ws) c.post,
    tally-block p k ws,
  )

  -- Every count changes by what it counts at the key.
  pub tally-Changed :
      (p : ℕ → ℕ → Bool) → tally p (flat es) + count (p k) us ≡ tally p (flat fs) + count (p k) vs
  tally-Changed p = rw (c.old, c.new) (omega (arith, tally_parts p vs, tally_parts p us))

  pub Changed-IsSorted : IsSorted es → IsSorted fs
  Changed-IsSorted s = rw c.new (put us (rw c.old at s))
    where
      again :
          (ws : List ℕ)
          → IsSorted c.pre
          → IsSorted c.post
          → IsSorted (c.pre ++ (block k ws ++ c.post))
      again [] a b = IsSorted-gap k c.pre c.post c.under c.over a b
      again (w ∷ ws) a b = IsSorted-join c.pre k (w ∷ ws) c.post c.under c.over a b

      put :
          (ws : List ℕ)
          → IsSorted (c.pre ++ (block k vs ++ c.post))
          → IsSorted (c.pre ++ (block k ws ++ c.post))
      put ws s =
          let r = IsSorted-append c.pre (block k vs ++ c.post) s in
          again ws r.0 (IsSorted-append (block k vs) c.post r.1).1

  pub Changed-IsFull : IsFull es → IsFull fs
  Changed-IsFull f =
      let r = IsFull-split c.pre (block k vs ++ c.post) (rw c.old at f) in
      rw c.new (
        All-append (λ (e : ℕ × List ℕ). e.1 ≢ []) c.pre (block k us ++ c.post) r.0
          (All-append (λ (e : ℕ × List ℕ). e.1 ≢ []) (block k us) c.post (IsFull-block k us)
            (IsFull-split (block k vs) c.post r.1).1))

pub count-delete :
    (p : ℕ → Bool) (v : ℕ) (vs : List ℕ)
    → count p vs ≡ count p (delete v vs) + (if p v then count (λ u. u == v) vs else 0)
count-delete p v [] = ground arith
count-delete p v (u ∷ us) = ground (arith, count-delete p v us)

count-and :
    (b : Bool) (q : ℕ → Bool) (vs : List ℕ)
    → count (λ v. b && q v) vs ≡ (if b then count q vs else 0)
count-and b q [] = ground arith
count-and b q (v ∷ vs) = ground (arith, count-and b q vs)

-- The cells of a key, counted among all pairs.
pub tally-cells_of :
    (q : ℕ → Bool) (k : ℕ) (es : List (ℕ × List ℕ))
    → IsSorted es
    → tally (λ j v. (j == k) && q v) (flat es) ≡ count q (cells_of k es)
tally-cells_of q k [] s = refl
tally-cells_of q k ((j, vs) ∷ es) s = omega (
  arith,
  tally-append (λ i v. (i == k) && q v) (pairs j vs) (flat es),
  tally-pairs (λ i v. (i == k) && q v) j vs,
  here (j == k) refl,
  tally-cells_of q k es s.1,
)
  where
    here :
        (b : Bool)
        → (j == k) ≡ b
        → count (λ v. (j == k) && q v) vs + count q (cells_of k es)
          ≡ count q (cells_of k ((j, vs) ∷ es))
    here true e =
        rw
          (
            count-and (j == k) q vs,
            e,
            cells_of-Over k es (subst (λ x. Over x es) (ground (arith, e)) s.0),
          )
          (omega arith)
    here false e = rw (count-and (j == k) q vs, e) (omega arith)
