-- ===== src/Tests/Trees.antt =====
-- A red-black tree library (<linux/rbtree.h>) that satisfies the laws the driver relies on: a tree that
-- is never balanced.
use walb_driver.Common.{ℕ, ◌≡◌, refl, none, List, [], ◌∷◌, ap}
use walb_driver.Treemap.{
  Tree, leaf, node, to_list, RbTree, keys, head?, last_of, after, before, remove,
}

abbrev pub from_list : {A : Type 0} → List (ℕ × A) → Tree A
from_list [] = leaf
from_list ((k, v) ∷ es) = node leaf k v (from_list es)

pub to_list-from_list : {A : Type 0} (es : List (ℕ × A)) → to_list (from_list es) ≡ es
to_list-from_list [] = refl
to_list-from_list ((k, v) ∷ es) = ap (λ l. (k, v) ∷ l) (to_list-from_list es)

abbrev pub unbalanced : {A : Type 0} → RbTree A
unbalanced = record {
  insert_color = λ k t. t;
  erase = λ k t. from_list (remove k (to_list t));
  first = λ t. head? (keys (to_list t));
  last = λ t. last_of none (keys (to_list t));
  next = λ t k. after k (keys (to_list t));
  prev = λ t k. before none k (keys (to_list t));
  to_list-insert_color = λ k t. refl;
  to_list-erase = λ k t. to_list-from_list (remove k (to_list t));
  first_head = λ t. refl;
  last_end = λ t. refl;
  next_after = λ t k. refl;
  prev_before = λ t k. refl;
}

-- A multimap with two values under one key.
abbrev pub three_keys : Tree (List ℕ)
three_keys = node (node leaf 10 (1 ∷ []) leaf) 20 (3 ∷ 2 ∷ []) (node leaf 30 (4 ∷ []) leaf)
