-- ===== src/Treemap/Walks.antt =====
-- The loops over all nodes of a map: map_n_items and map_empty end, with fuel for one round a node.
use mathlib.Core.List.{append_assoc}
use walb_driver.Common.{
  ℕ, zero, suc, ◌+◌, ◌≤◌, ◌≡◌, refl, sym, ap, ◌∙◌, none, some, List, [], ◌∷◌, ◌++◌, arith, length,
  true,
}
use walb_driver.Treemap.{Tree, to_list, RbTree, keys, head?, after, remove}
use walb_driver.Treemap.Lists.{IsSorted, IsSorted-split}
use walb_driver.Treemap.Found.{after-split}
use walb_driver.Treemap.Map.{map_is_empty, count_nodes, map_n_items, erase_nodes, map_empty}

module _ {A : Type 0} (rb : RbTree A) where
  next_of :
      (t : Tree A) (pre post : List (ℕ × A)) (n : ℕ) (v : A)
      → IsSorted (to_list t)
      → to_list t ≡ pre ++ (n, v) ∷ post
      → rb.next t n ≡ head? (keys post)
  next_of t pre post n v s e =
      rb.next_after t n
      ∙ (ap (λ es. after n (keys es)) e
          ∙ after-split pre post n v (IsSorted-split pre n v post (rw e at s)).0)

  count_nodes-length :
      (post pre : List (ℕ × A)) (t : Tree A) (fuel count : ℕ)
      → IsSorted (to_list t)
      → to_list t ≡ pre ++ post
      → length post ≤ fuel
      → count_nodes rb fuel t (head? (keys post)) count ≡ some (count + length post)
  unfolding count_nodes
  count_nodes-length [] pre t zero count s e h = ap some (omega arith)
  count_nodes-length [] pre t (suc fuel) count s e h = ap some (omega arith)
  count_nodes-length ((n, v) ∷ post) pre t zero count s e h = absurd (omega arith)
  count_nodes-length ((n, v) ∷ post) pre t (suc fuel) count s e h =
      rw (next_of t pre post n v s e) (
        count_nodes-length post (pre ++ (n, v) ∷ []) t fuel (count + 1) s
          (e ∙ sym (append_assoc pre ((n, v) ∷ []) post)) (omega arith)
        ∙ ap some (omega arith))

  -- map_n_items counts the entries of a sorted tree, with fuel for one round a node.
  pub map_n_items-length :
      (t : Tree A) (fuel : ℕ)
      → IsSorted (to_list t)
      → length (to_list t) ≤ fuel
      → map_n_items rb fuel t ≡ some (length (to_list t))
  unfolding map_n_items
  map_n_items-length t fuel s h =
      rw (rb.first_head t)
        (count_nodes-length (to_list t) [] t fuel 0 s refl h ∙ ap some (omega arith))

  erase_nodes-empty :
      (es : List (ℕ × A)) (t : Tree A) (fuel : ℕ)
      → to_list t ≡ es
      → length es ≤ fuel
      → (t' : Tree A) × (erase_nodes rb fuel t (head? (keys es)) ≡ some t') × (to_list t' ≡ [])
  unfolding erase_nodes
  erase_nodes-empty [] t zero e h = (t, refl, e)
  erase_nodes-empty [] t (suc fuel) e h = (t, refl, e)
  erase_nodes-empty ((n, v) ∷ es) t zero e h = absurd (omega arith)
  erase_nodes-empty ((n, v) ∷ es) t (suc fuel) e h = rw next (
      erase_nodes-empty es (rb.erase n t) fuel
        (rb.to_list-erase n t ∙ (ap (remove n) e ∙ ground arith)) (omega arith))
    where
      next : rb.next t n ≡ head? (keys es)
      next = rb.next_after t n ∙ (ap (λ xs. after n (keys xs)) e ∙ ground arith)

  -- map_empty ends with fuel for one round a node, and the tree is then empty.
  pub map_empty-empties :
      (t : Tree A) (fuel : ℕ)
      → length (to_list t) ≤ fuel
      → (t' : Tree A) × (map_empty rb fuel t ≡ some t') × (map_is_empty rb t' ≡ true)
  unfolding map_empty map_is_empty
  map_empty-empties t fuel h =
      let r = erase_nodes-empty (to_list t) t fuel refl h in
      (
        r.0,
        rw (rb.first_head t) r.1,
        first_none (rb.first_head r.0 ∙ ap (λ es. head? (keys es)) r.2),
      )
    where
      first_none : {t' : Tree A} → rb.first t' ≡ none → map_is_empty rb t' ≡ true
      first_none e = rw (e, map_is_empty)
