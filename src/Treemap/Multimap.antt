-- ===== src/Treemap/Multimap.antt =====
-- The multimap_* functions of module/treemap.c. The value of a node is the hash list of its cells,
-- here a list of values, newest first. An allocation takes its outcome as an argument.
use mathlib.Core.Option
use walb_driver.Common.{
  ℕ, zero, suc, ◌+◌, Bool, false, not, ◌||◌, Option, none, some, List, [], ◌∷◌, length, ◌==◌,
  if◌then◌else◌,
}
use walb_driver.Treemap.{Tree, leaf, node, RbTree}
use walb_driver.Treemap.Lookup.{map_lookup_node}
use walb_driver.Treemap.Map.{
  Status, ok, enomem, eexist, einval, invalid_val, node_val, map_insert, map_remove, map_is_empty,
}

abbrev pub Multimap : Type 0
Multimap = Tree (List ℕ)

-- A write to the cells of the node of a key, through a pointer to the node.
unfoldable pub set_cells : Multimap → ℕ → List ℕ → Multimap
set_cells leaf key vs = leaf
set_cells (node l k us r) key vs =
    node (set_cells l key vs) k (if k == key then vs else us) (set_cells r key vs)

-- The search loops of multimap_add_oldkey and multimap_del.
abbrev pub contains : ℕ → List ℕ → Bool
contains v [] = false
contains v (u ∷ us) = u == v || contains v us

abbrev pub delete : ℕ → List ℕ → List ℕ
delete v [] = []
delete v (u ∷ us) = if u == v then delete v us else u ∷ delete v us

-- multimap_lookup: the cells of a key.
unfoldable pub multimap_lookup : RbTree (List ℕ) → Multimap → ℕ → Option (List ℕ)
multimap_lookup rb t key = Option.bind (map_lookup_node rb t key) (λ n. node_val t n)

unfoldable pub multimap_lookup_any : RbTree (List ℕ) → Multimap → ℕ → ℕ
multimap_lookup_any rb t key = elim (multimap_lookup rb t key) [
  | none ↦ invalid_val
  | some [] ↦ invalid_val
  | some (v ∷ vs) ↦ v
]

unfoldable pub multimap_lookup_n : RbTree (List ℕ) → Multimap → ℕ → ℕ
multimap_lookup_n rb t key = elim (multimap_lookup rb t key) [ none ↦ 0 | some vs ↦ length vs ]

-- multimap_add_oldkey, at the node `n` with the cells `vs`.
unfoldable pub multimap_add_oldkey : Multimap → ℕ → List ℕ → ℕ → Status × Multimap
multimap_add_oldkey t n vs val =
    if contains val vs then (eexist, t) else (ok, set_cells t n (val ∷ vs))

-- multimap_add_newkey: `head_ok` and `node_ok` are the outcomes of alloc_cell_head and alloc_node.
unfoldable pub multimap_add_newkey :
    RbTree (List ℕ) → Multimap → ℕ → ℕ → Bool → Bool → Status × Multimap
multimap_add_newkey rb t key val head_ok node_ok =
    if head_ok then map_insert rb t key (val ∷ []) node_ok else (enomem, t)

unfoldable pub multimap_add :
    RbTree (List ℕ) → Multimap → ℕ → ℕ → (cell_ok head_ok node_ok : Bool) → Status × Multimap
multimap_add rb t key val cell_ok head_ok node_ok =
    if val == invalid_val
    then (einval, t)
    else if not cell_ok
    then (enomem, t)
    else elim (multimap_lookup rb t key) [
      | some vs ↦ multimap_add_oldkey t key vs val
      | none ↦ multimap_add_newkey rb t key val head_ok node_ok
    ]

-- The end of multimap_del: a node with no cells left is erased.
unfoldable pub put_back : RbTree (List ℕ) → Multimap → ℕ → List ℕ → Multimap
put_back rb t key [] = (map_remove rb t key).1
put_back rb t key (v ∷ vs) = set_cells t key (v ∷ vs)

unfoldable pub multimap_del : RbTree (List ℕ) → Multimap → ℕ → ℕ → ℕ × Multimap
multimap_del rb t key val = elim (multimap_lookup rb t key) [
  | none ↦ (invalid_val, t)
  | some vs ↦ (if contains val vs then val else invalid_val, put_back rb t key (delete val vs))
]

unfoldable pub multimap_del_key : RbTree (List ℕ) → Multimap → ℕ → ℕ × Multimap
multimap_del_key rb t key =
    let (vs, t') = map_remove rb t key in (elim vs [ none ↦ 0 | some us ↦ length us ], t')

unfoldable pub multimap_is_empty : RbTree (List ℕ) → Multimap → Bool
multimap_is_empty rb t = map_is_empty rb t

-- The loop of multimap_n_items. `none` means that the fuel ran out.
unfoldable pub count_cells : RbTree (List ℕ) → ℕ → Multimap → Option ℕ → ℕ → Option ℕ
count_cells rb fuel t none count = some count
count_cells rb zero t (some n) count = none
count_cells rb (suc fuel) t (some n) count =
    count_cells rb fuel t (rb.next t n)
      (count + (elim (node_val t n) [ none ↦ 0 | some vs ↦ length vs ]))

unfoldable pub multimap_n_items : RbTree (List ℕ) → ℕ → Multimap → Option ℕ
unfolding count_cells
multimap_n_items rb fuel t = count_cells rb fuel t (rb.first t) 0
