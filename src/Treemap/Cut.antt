-- ===== src/Treemap/Cut.antt =====
-- The entries of a multimap from a key on, and the key that a search for it finds.
use walb_driver.Common.{ℕ, ◌≡◌, refl, ap, inl, inr, List, [], ◌∷◌, ◌++◌, arith, Bool-cases, leb}
use walb_driver.Treemap.{keys, head?}
use walb_driver.Treemap.Lists.{Under}
use walb_driver.Treemap.Scan.{from_key}
use walb_driver.Treemap.Search.{first_where}

module _ (start : ℕ) where
  -- The entries from the start on, and those before it.
  pub record Cut (es : List (ℕ × List ℕ)) : Type 0 where
    pub low : List (ℕ × List ℕ)
    pub eq : es ≡ low ++ from_key start es
    pub below : Under start low
    pub first : first_where (λ k. leb start k) (keys es) ≡ head? (keys (from_key start es))

  pub cut : (es : List (ℕ × List ℕ)) → Cut es
  cut [] = record { low = []; eq = refl; below = tt; first = refl }
  cut ((k, vs) ∷ es) =
      let r = cut es in
      elim (Bool-cases (leb start k)) [
        | inl h ↦ record { low = []; eq = rw h refl; below = tt; first = rw h refl }
        | inr h ↦ record {
          low = (k, vs) ∷ r.low;
          eq = rw h (ap (λ l. (k, vs) ∷ l) r.eq);
          below = (ground arith, r.below);
          first = rw h r.first;
        }
      ]
