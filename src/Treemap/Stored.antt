-- ===== src/Treemap/Stored.antt =====
-- multimap_add, multimap_del and multimap_del_key of module/treemap.c against the cells of the keys.
use mathlib.Core.Option
use walb_driver.Common.{
  ℕ, ◌≡◌, ◌≢◌, refl, ap, subst, ◌∙◌, ◌⊎◌, inl, inr, Bool, true, false, not, ◌&&◌, none, some, List,
  [], ◌∷◌, ◌++◌, arith, Bool-cases, Option-cases, length, ◌==◌, if◌then◌else◌,
}
use walb_driver.Treemap.{to_list, RbTree}
use walb_driver.Treemap.Lists.{IsSorted}
use walb_driver.Treemap.Map.{
  Status, ok, enomem, eexist, einval, invalid_val, assoc, node_val, map_insert, map_remove,
}
use walb_driver.Treemap.Effects.{Linked, there, hung, link_node-Linked}
use walb_driver.Treemap.Remove.{map_lookup_node_assoc, key_if, map_remove_lem}
use walb_driver.Treemap.Multimap.{
  Multimap, set_cells, contains, delete, multimap_lookup, multimap_add, multimap_add_oldkey,
  multimap_add_newkey, put_back, multimap_del, multimap_del_key,
}
use walb_driver.Treemap.Scan.{IsFull}
use walb_driver.Treemap.Values.{
  cells_of, block, spot, Changed, to_list-set_cells, set_list-Spot, remove-Spot,
}

assoc-full :
    (k : ℕ) (vs : List ℕ) (es : List (ℕ × List ℕ)) → IsFull es → assoc k es ≡ some vs → vs ≢ []
assoc-full k vs [] f e = absurd (ground (arith, e))
assoc-full k vs ((j, us) ∷ es) f e = elim (Bool-cases (j == k)) [
  | inl h ↦ subst (λ x. x ≢ []) (ground (arith, e, h)) f.0
  | inr h ↦ assoc-full k vs es f.1 (ground (arith, e, h))
]

-- What multimap_add can come to.
pub data MultimapAdded (t : Multimap) (key val : ℕ) (cell_ok head_ok node_ok : Bool)
    : Status × Multimap → Type 0 where
  refused : val ≡ invalid_val → MultimapAdded t key val cell_ok head_ok node_ok (einval, t)
  no_memory :
      (cell_ok ≡ false) ⊎ (((head_ok && node_ok) ≡ false) × (cells_of key (to_list t) ≡ []))
      → MultimapAdded t key val cell_ok head_ok node_ok (enomem, t)
  exists :
      contains val (cells_of key (to_list t)) ≡ true
      → MultimapAdded t key val cell_ok head_ok node_ok (eexist, t)
  added :
      (t' : Multimap)
      → val ≢ invalid_val
      → contains val (cells_of key (to_list t)) ≡ false
      → Changed key
          (cells_of key (to_list t))
          (val ∷ cells_of key (to_list t))
          (to_list t)
          (to_list t')
      → MultimapAdded t key val cell_ok head_ok node_ok (ok, t')

module _ (rb : RbTree (List ℕ)) (t : Multimap) (sorted : IsSorted (to_list t))
    (full : IsFull (to_list t)) where
  multimap_lookup-node_val : (key : ℕ) → multimap_lookup rb t key ≡ node_val t key
  unfolding multimap_lookup Option.bind
  multimap_lookup-node_val key = elim (Option-cases (node_val t key)) [
    | inl e ↦ rw (map_lookup_node_assoc rb t sorted key, e) refl
    | inr (v, e) ↦ rw (map_lookup_node_assoc rb t sorted key, e) e
  ]

  module _ (key : ℕ) where
    -- A write to the cells of a key that is there.
    set_cells-Changed :
        (us : List ℕ)
        → cells_of key (to_list t) ≢ []
        → us ≢ []
        → Changed key (cells_of key (to_list t)) us (to_list t) (to_list (set_cells t key us))
    set_cells-Changed us n m =
        let p = spot key (to_list t) sorted full in
        record {
          pre = p.pre;
          post = p.post;
          under = p.under;
          over = p.over;
          old = p.eq;
          new = to_list-set_cells t key us ∙ set_list-Spot key us p n m;
        }

    add_old :
        (val : ℕ) (cell_ok head_ok node_ok : Bool)
        → val ≢ invalid_val
        → cells_of key (to_list t) ≢ []
        → MultimapAdded t key val cell_ok head_ok node_ok
            (multimap_add_oldkey t key (cells_of key (to_list t)) val)
    unfolding multimap_add_oldkey
    add_old val cell_ok head_ok node_ok n m =
        elim (Bool-cases (contains val (cells_of key (to_list t)))) [
          | inl h ↦ rw (h, multimap_add_oldkey) (exists h)
          | inr h ↦
              rw (h, multimap_add_oldkey)
                (added (set_cells t key (val ∷ cells_of key (to_list t))) n h
                  (set_cells-Changed (val ∷ cells_of key (to_list t)) m (λ e. ground (arith, e))))
        ]

    add_new :
        (val : ℕ) (head_ok node_ok : Bool)
        → val ≢ invalid_val
        → node_val t key ≡ none
        → MultimapAdded t key val true head_ok node_ok
            (multimap_add_newkey rb t key val head_ok node_ok)
    unfolding multimap_add_newkey map_insert
    add_new val false node_ok n e = no_memory (inr (refl, rw e refl))
    add_new val true node_ok n e = go (link_node-Linked t key (val ∷ []) sorted) node_ok
      where
        go :
            Linked t key (val ∷ [])
            → (node_ok : Bool)
            → MultimapAdded t key val true true node_ok (map_insert rb t key (val ∷ []) node_ok)
        go (there v l f) b = absurd (ground (arith, e, f))
        go (hung t' l i) false = rw (l, map_insert) (no_memory (inr (refl, rw e refl)))
        go (hung t' l i) true =
            rw (l, map_insert)
              (added (rb.insert_color key t') n (rw e refl) (
                rw e (record {
                  pre = i.pre;
                  post = i.post;
                  under = i.under;
                  over = i.over;
                  old = i.old;
                  new = rb.to_list-insert_color key t' ∙ i.new;
                })))

    pub multimap_add-MultimapAdded :
        (val : ℕ) (cell_ok head_ok node_ok : Bool)
        → MultimapAdded t key val cell_ok head_ok node_ok
            (multimap_add rb t key val cell_ok head_ok node_ok)
    unfolding multimap_add
    multimap_add-MultimapAdded val cell_ok head_ok node_ok =
        elim (Bool-cases (val == invalid_val)) [
          | inl h ↦ rw (h, multimap_add) (refused (ground (arith, h)))
          | inr h ↦ rw (h, multimap_add) (with_cell cell_ok (ground (arith, h)))
        ]
      where
        with_cell :
            (cell_ok : Bool)
            → val ≢ invalid_val
            → MultimapAdded t key val cell_ok head_ok node_ok (
                if not cell_ok then (enomem, t) else elim (multimap_lookup rb t key) [
                  | some vs ↦ multimap_add_oldkey t key vs val
                  | none ↦ multimap_add_newkey rb t key val head_ok node_ok
                ])
        with_cell false n = no_memory (inl refl)
        with_cell true n = elim (Option-cases (node_val t key)) [
          | inl e ↦ rw (multimap_lookup-node_val key ∙ e) (add_new val head_ok node_ok n e)
          | inr (vs, e) ↦ rw (multimap_lookup-node_val key ∙ e) (
              subst
                (λ us.
                  MultimapAdded t key val true head_ok node_ok (multimap_add_oldkey t key us val))
                (rw e refl)
                (add_old val true head_ok node_ok n (rw e (assoc-full key vs (to_list t) full e))))
        ]

    stay :
        (us : List ℕ)
        → cells_of key (to_list t) ≡ us
        → Changed key (cells_of key (to_list t)) us (to_list t) (to_list t)
    stay us e =
        let p = spot key (to_list t) sorted full in
        record {
          pre = p.pre;
          post = p.post;
          under = p.under;
          over = p.over;
          old = p.eq;
          new = p.eq ∙ ap (λ xs. p.pre ++ (block key xs ++ p.post)) e;
        }

    map_remove-Changed :
        Changed key (cells_of key (to_list t)) [] (to_list t) (to_list (map_remove rb t key).1)
    unfolding map_remove
    map_remove-Changed = elim (Option-cases (node_val t key)) [
      | inl e ↦
          rw (map_lookup_node_assoc rb t sorted key ∙ ap (key_if key) e, map_remove)
            (stay [] (rw e refl))
      | inr (vs, e) ↦
          rw (map_lookup_node_assoc rb t sorted key ∙ ap (key_if key) e, map_remove)
            (erased (rw e (assoc-full key vs (to_list t) full e)))
    ]
      where
        erased :
            cells_of key (to_list t) ≢ []
            → Changed key (cells_of key (to_list t)) [] (to_list t) (to_list (rb.erase key t))
        erased n =
            let p = spot key (to_list t) sorted full in
            record {
              pre = p.pre;
              post = p.post;
              under = p.under;
              over = p.over;
              old = p.eq;
              new = rb.to_list-erase key t ∙ remove-Spot key p n;
            }

    put_back-Changed :
        (us : List ℕ)
        → cells_of key (to_list t) ≢ []
        → Changed key (cells_of key (to_list t)) us (to_list t) (to_list (put_back rb t key us))
    unfolding put_back
    put_back-Changed [] n = map_remove-Changed
    put_back-Changed (u ∷ us) n = set_cells-Changed (u ∷ us) n (λ e. ground (arith, e))

    -- multimap_del returns the value if the key has it, and the invalid value if not; it takes the
    -- value out of the key's cells, the key out if none is left, and changes nothing else.
    pub multimap_del-Changed :
        (val : ℕ)
        → ((multimap_del rb t key val).0
            ≡ (if contains val (cells_of key (to_list t)) then val else invalid_val))
          × Changed key
              (cells_of key (to_list t))
              (delete val (cells_of key (to_list t)))
              (to_list t)
              (to_list (multimap_del rb t key val).1)
    unfolding multimap_del
    multimap_del-Changed val = elim (Option-cases (node_val t key)) [
      | inl e ↦
          rw (multimap_lookup-node_val key ∙ e, multimap_del)
            (rw e refl, stay (delete val (cells_of key (to_list t))) (rw e refl))
      | inr (vs, e) ↦
          rw (multimap_lookup-node_val key ∙ e, multimap_del)
            (subst
              (λ us.
                ((if contains val us then val else invalid_val)
                  ≡ (if contains val (cells_of key (to_list t)) then val else invalid_val))
                × Changed key (cells_of key (to_list t)) (delete val (cells_of key (to_list t)))
                    (to_list t) (to_list (put_back rb t key (delete val us))))
              (rw e refl)
              (
                refl,
                put_back-Changed (delete val (cells_of key (to_list t)))
                    (rw e (assoc-full key vs (to_list t) full e)),
              ))
    ]

    -- multimap_del_key returns how many values the key has, takes the key out with all of them, and
    -- changes nothing else.
    pub multimap_del_key-Changed :
        ((multimap_del_key rb t key).0 ≡ length (cells_of key (to_list t)))
        × Changed key
            (cells_of key (to_list t))
            []
            (to_list t)
            (to_list (multimap_del_key rb t key).1)
    unfolding multimap_del_key
    multimap_del_key-Changed = (
      rw ((map_remove_lem rb t sorted key).0, multimap_del_key) (ground arith),
      map_remove-Changed,
    )
