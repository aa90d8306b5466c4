-- ===== src/Treemap/Map.antt =====
-- The map_* functions of module/treemap.c. An allocation takes its outcome as an argument.
use Prim.Native.Nat.{compare, Ordering}
use mathlib.Core.Option
use walb_driver.Common.{
  ℕ, zero, suc, ◌+◌, ◌-◌, ◌^◌, Bool, true, false, Option, none, some, List, [], ◌∷◌, ◌==◌,
  if◌then◌else◌,
}
use walb_driver.Treemap.{Tree, leaf, node, to_list, RbTree}
use walb_driver.Treemap.Lookup.{map_lookup_node}

-- 0, -ENOMEM, -EEXIST and -EINVAL.
pub data Status : Type 0 where
  ok enomem eexist einval : Status

-- TREEMAP_INVALID_VAL
abbrev pub invalid_val : ℕ
invalid_val = 2 ^ 64 - 1

-- The value in the node of a key, read through a pointer to the node.
abbrev pub assoc : {A : Type 0} → ℕ → List (ℕ × A) → Option A
assoc k [] = none
assoc k ((j, v) ∷ es) = if j == k then some v else assoc k es

abbrev pub node_val : {A : Type 0} → Tree A → ℕ → Option A
node_val t k = assoc k (to_list t)

-- The loop of map_add and rb_link_node: the tree with a new leaf node, or none if the key is there.
unfoldable pub link_node : {A : Type 0} → Tree A → ℕ → A → Option (Tree A)
link_node leaf key val = some (node leaf key val leaf)
link_node (node l k v r) key val = elim (compare key k) [
  | Ordering.lt ↦ Option.map (λ l'. node l' k v r) (link_node l key val)
  | Ordering.gt ↦ Option.map (λ r'. node l k v r') (link_node r key val)
  | Ordering.eq ↦ none
]

module _ {A : Type 0} (rb : RbTree A) where
  -- map_add for a value that is a pointer, so not the invalid value. `node_ok`: alloc_node succeeds.
  unfoldable pub map_insert : Tree A → ℕ → A → Bool → Status × Tree A
  map_insert t key val node_ok = elim (link_node t key val) [
    | none ↦ (eexist, t)
    | some t' ↦ if node_ok then (ok, rb.insert_color key t') else (enomem, t)
  ]

  -- map_del for a pointer value.
  unfoldable pub map_remove : Tree A → ℕ → Option A × Tree A
  map_remove t key = elim (map_lookup_node rb t key) [
    | none ↦ (none, t)
    | some n ↦ (node_val t n, rb.erase n t)
  ]

  unfoldable pub map_is_empty : Tree A → Bool
  map_is_empty t = elim (rb.first t) [ none ↦ true | some n ↦ false ]

  -- The loop of map_n_items. `none` means that the fuel ran out.
  unfoldable pub count_nodes : ℕ → Tree A → Option ℕ → ℕ → Option ℕ
  count_nodes fuel t none count = some count
  count_nodes zero t (some n) count = none
  count_nodes (suc fuel) t (some n) count = count_nodes fuel t (rb.next t n) (count + 1)

  unfoldable pub map_n_items : ℕ → Tree A → Option ℕ
  unfolding count_nodes
  map_n_items fuel t = count_nodes fuel t (rb.first t) 0

  -- The loop of map_empty: the next node is read before its predecessor is erased.
  unfoldable pub erase_nodes : ℕ → Tree A → Option ℕ → Option (Tree A)
  erase_nodes fuel t none = some t
  erase_nodes zero t (some n) = none
  erase_nodes (suc fuel) t (some n) = erase_nodes fuel (rb.erase n t) (rb.next t n)

  unfoldable pub map_empty : ℕ → Tree A → Option (Tree A)
  unfolding erase_nodes
  map_empty fuel t = erase_nodes fuel t (rb.first t)

module _ (rb : RbTree ℕ) where
  unfoldable pub map_add : Tree ℕ → ℕ → ℕ → Bool → Status × Tree ℕ
  map_add t key val node_ok =
      if val == invalid_val then (einval, t) else map_insert rb t key val node_ok

  unfoldable pub map_lookup : Tree ℕ → ℕ → ℕ
  map_lookup t key = elim (map_lookup_node rb t key) [
    | none ↦ invalid_val
    | some n ↦ Option.get_or (node_val t n) invalid_val
  ]

  unfoldable pub map_del : Tree ℕ → ℕ → ℕ × Tree ℕ
  map_del t key = let (v, t') = map_remove rb t key in (Option.get_or v invalid_val, t')
