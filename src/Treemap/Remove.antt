-- ===== src/Treemap/Remove.antt =====
-- The map operations against a partial function from keys to values, for trees with sorted entries:
-- adding, removing, looking up; and the loops that count and erase all nodes.
use walb_driver.Common.{
  ℕ, ◌≡◌, refl, ap, ◌∙◌, inl, inr, Bool, true, false, Option, none, some, List, [], ◌∷◌, arith,
  ◌==◌, if◌then◌else◌, Option-cases,
}
use walb_driver.Treemap.{Tree, to_list, RbTree, keys, remove}
use walb_driver.Treemap.Lists.{IsSorted, remove-IsSorted}
use walb_driver.Treemap.Lookup.{map_lookup_node, search_eq}
use walb_driver.Treemap.Search.{first_where}
use walb_driver.Treemap.Found.{map_lookup_node_detail-wanted}
use walb_driver.Treemap.Map.{Status, ok, enomem, eexist, assoc, node_val, map_insert, map_remove}
use walb_driver.Treemap.Effects.{
  Linked, there, hung, link_node-Linked, assoc-Inserted, Inserted-IsSorted, assoc-Over,
}

abbrev pub key_if : {A : Type 0} → ℕ → Option A → Option ℕ
key_if k none = none
key_if k (some v) = some k

module _ {A : Type 0} where
  first_where-assoc :
      (k : ℕ) (es : List (ℕ × A)) → first_where (λ j. j == k) (keys es) ≡ key_if k (assoc k es)
  first_where-assoc k [] = refl
  first_where-assoc k (e ∷ es) = ground (arith, first_where-assoc k es)

  -- In sorted entries a key stands once.
  assoc-remove :
      (j k : ℕ) (es : List (ℕ × A))
      → IsSorted es
      → assoc j (remove k es) ≡ (if k == j then none else assoc j es)
  assoc-remove j k [] s = ground arith
  assoc-remove j k (e ∷ es) s = ground (arith, assoc-remove j k es s.1, assoc-Over e.0 es s.0)

module _ {A : Type 0} (rb : RbTree A) (t : Tree A) (sorted : IsSorted (to_list t)) where
  pub map_lookup_node_assoc : (key : ℕ) → map_lookup_node rb t key ≡ key_if key (node_val t key)
  unfolding map_lookup_node
  map_lookup_node_assoc key =
      map_lookup_node_detail-wanted rb t sorted key search_eq ∙ first_where-assoc key (to_list t)

  -- map_remove returns the value of the key, if any, takes that one entry out, and leaves the
  -- entries sorted.
  pub map_remove_lem :
      (key : ℕ)
      → ((map_remove rb t key).0 ≡ node_val t key)
        × ((j : ℕ) → node_val (map_remove rb t key).1 j ≡ (if key == j then none else node_val t j))
        × IsSorted (to_list (map_remove rb t key).1)
  unfolding map_remove
  map_remove_lem key = elim (Option-cases (node_val t key)) [
    | inl e ↦
        rw (map_lookup_node_assoc key ∙ ap (key_if key) e, map_remove, e)
          (refl, λ j. absent j e, sorted)
    | inr (v, e) ↦
        rw (map_lookup_node_assoc key ∙ ap (key_if key) e, map_remove, rb.to_list-erase key t)
          (refl, λ j. assoc-remove j key (to_list t) sorted, remove-IsSorted key (to_list t) sorted)
  ]
    where
      absent :
          (j : ℕ)
          → assoc key (to_list t) ≡ none
          → assoc j (to_list t) ≡ (if key == j then none else assoc j (to_list t))
      absent j e = ground (arith, e)

  -- What an insertion can come to.
  pub data MapInserted (key : ℕ) (val : A) (node_ok : Bool) : Status × Tree A → Type 0 where
    added :
        (t' : Tree A)
        → node_ok ≡ true
        → node_val t key ≡ none
        → IsSorted (to_list t')
        → ((j : ℕ) → node_val t' j ≡ (if key == j then some val else node_val t j))
        → MapInserted key val node_ok (ok, t')
    exists : (v : A) → node_val t key ≡ some v → MapInserted key val node_ok (eexist, t)
    no_memory : node_ok ≡ false → MapInserted key val node_ok (enomem, t)

  -- map_insert adds exactly the one entry where the key is new and memory is there; it reports a key
  -- that exists, and lack of memory, and then leaves the tree alone.
  pub map_insert-MapInserted :
      (key : ℕ) (val : A) (node_ok : Bool)
      → MapInserted key val node_ok (map_insert rb t key val node_ok)
  unfolding map_insert
  map_insert-MapInserted key val node_ok = go (link_node-Linked t key val sorted) node_ok
    where
      go :
          Linked t key val
          → (node_ok : Bool) → MapInserted key val node_ok (map_insert rb t key val node_ok)
      go (there v e f) b = rw (e, map_insert) (exists v f)
      go (hung t' e i) false = rw (e, map_insert) (no_memory refl)
      go (hung t' e i) true =
          rw (e, map_insert)
            (added (rb.insert_color key t') refl (assoc-Inserted key key val i).0
              (rw (rb.to_list-insert_color key t') (Inserted-IsSorted sorted i))
              (λ j. rw (rb.to_list-insert_color key t') (assoc-Inserted j key val i).1))
