-- ===== src/Treemap/Lookup.antt =====
-- map_lookup_node_detail, map_lookup_node and the walks map_first, map_last, map_next, map_prev.
use Prim.Native.Nat.{compare, Ordering}
use walb_driver.Common.{ℕ, Option, none, some, ltb, ◌==◌, if◌then◌else◌}
use walb_driver.Treemap.{Tree, leaf, node, RbTree}

-- MAP_SEARCH_BEGIN and so on.
pub data SearchFlag : Type 0 where
  search_begin search_end search_eq search_lt search_le search_gt search_ge : SearchFlag

-- The loop: the last node visited on the way to the key, and the node of the key if there is one.
unfoldable pub last_visited : {A : Type 0} → Tree A → ℕ → Option ℕ → Option ℕ
last_visited leaf key t = t
last_visited (node l k v r) key t = elim (compare key k) [
  | Ordering.lt ↦ last_visited l key (some k)
  | Ordering.gt ↦ last_visited r key (some k)
  | Ordering.eq ↦ some k
]

module _ {A : Type 0} (rb : RbTree A) where
  -- The switch behind the loop, with the return inside the loop for an equal key.
  unfoldable pub choose : Tree A → ℕ → SearchFlag → ℕ → Option ℕ
  choose tmap key search_begin t = none
  choose tmap key search_end t = none
  choose tmap key search_eq t = if t == key then some t else none
  choose tmap key search_lt t =
      if t == key then rb.prev tmap t else if ltb t key then some t else rb.prev tmap t
  choose tmap key search_le t =
      if t == key then some t else if ltb t key then some t else rb.prev tmap t
  choose tmap key search_gt t =
      if t == key then rb.next tmap t else if ltb t key then rb.next tmap t else some t
  choose tmap key search_ge t =
      if t == key then some t else if ltb t key then rb.next tmap t else some t

  unfoldable pub map_lookup_node_detail : Tree A → ℕ → SearchFlag → Option ℕ
  map_lookup_node_detail tmap key flag = elim (last_visited tmap key none) [
    | none ↦ none
    | some t ↦ choose tmap key flag t
  ]

  unfoldable pub map_lookup_node : Tree A → ℕ → Option ℕ
  map_lookup_node tmap key = map_lookup_node_detail tmap key search_eq

  unfoldable pub map_first : Tree A → Option ℕ
  map_first tmap = rb.first tmap

  unfoldable pub map_last : Tree A → Option ℕ
  map_last tmap = rb.last tmap

  -- A null node has no neighbours.
  unfoldable pub map_next : Tree A → Option ℕ → Option ℕ
  map_next tmap none = none
  map_next tmap (some t) = rb.next tmap t

  unfoldable pub map_prev : Tree A → Option ℕ → Option ℕ
  map_prev tmap none = none
  map_prev tmap (some t) = rb.prev tmap t
