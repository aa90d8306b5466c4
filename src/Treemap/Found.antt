-- ===== src/Treemap/Found.antt =====
-- The switch of map_lookup_node_detail picks, from a node that borders the place of the key, what
-- the search flag asks for.
use mathlib.Core.List.{append-nil}
use walb_driver.Common.{
  ℕ, ◌≡◌, refl, sym, ap, subst, ◌∙◌, Option, none, some, List, [], ◌∷◌, ◌++◌, arith, leb, ltb, ◌==◌,
  if◌then◌else◌,
}
use walb_driver.Treemap.{Tree, to_list, RbTree, keys, head?, last_of, after, before}
use walb_driver.Treemap.Lists.{Under, Over, IsSorted, IsSorted-split}
use walb_driver.Treemap.Lookup.{
  SearchFlag, search_begin, search_end, search_eq, search_lt, search_le, search_gt, search_ge,
  last_visited, choose, map_lookup_node_detail,
}
use walb_driver.Treemap.Search.{
  first_where, last_where, wanted, Split, alone, Walked, nothing, at, walk,
}

-- Of two ends, the later.
abbrev or_else : Option ℕ → Option ℕ → Option ℕ
or_else none d = d
or_else (some x) d = some x

or_else-none : (o : Option ℕ) → or_else o none ≡ o
or_else-none none = refl
or_else-none (some x) = refl

module _ {A : Type 0} where
  first_ge-split :
      (pre post : List (ℕ × A)) (n : ℕ) (v : A) (key : ℕ)
      → Under key pre
      → Over key post
      → (first_where (λ k. leb key k) (keys (pre ++ (n, v) ∷ post))
          ≡ (if leb key n then some n else head? (keys post)))
        × (first_where (λ k. ltb key k) (keys (pre ++ (n, v) ∷ post))
            ≡ (if ltb key n then some n else head? (keys post)))
        × (first_where (λ k. k == key) (keys (pre ++ (n, v) ∷ post))
            ≡ (if n == key then some n else none))
  first_ge-split [] [] n v key u o = (ground arith, ground arith, ground arith)
  first_ge-split [] (e ∷ post) n v key u o =
      (ground arith, ground arith, ground (arith, none_over key post o.1))
    where
      none_over :
          (key : ℕ) (es : List (ℕ × A)) → Over key es → first_where (λ k. k == key) (keys es) ≡ none
      none_over key [] o = refl
      none_over key (e ∷ es) o = ground (arith, none_over key es o.1)
  first_ge-split (e ∷ pre) post n v key u o =
      let r = first_ge-split pre post n v key u.1 o in
      (ground (arith, r.0), ground (arith, r.1), ground (arith, r.2))

  last-Over :
      (key : ℕ) (es : List (ℕ × A))
      → Over key es
      → (last_where (λ k. leb k key) (keys es) ≡ none)
        × (last_where (λ k. ltb k key) (keys es) ≡ none)
  last-Over key [] o = (refl, refl)
  last-Over key (e ∷ es) o =
      let r = last-Over key es o.1 in (ground (arith, r.0), ground (arith, r.1))

  last_le-split :
      (pre post : List (ℕ × A)) (n : ℕ) (v : A) (key : ℕ)
      → Under key pre
      → Over key post
      → (d : Option ℕ)
      → (or_else (last_where (λ k. leb k key) (keys (pre ++ (n, v) ∷ post))) d
          ≡ (if leb n key then some n else last_of d (keys pre)))
        × (or_else (last_where (λ k. ltb k key) (keys (pre ++ (n, v) ∷ post))) d
            ≡ (if ltb n key then some n else last_of d (keys pre)))
  last_le-split [] post n v key u o d =
      let r = last-Over key post o in (ground (arith, r.0), ground (arith, r.1))
  last_le-split (e ∷ pre) post n v key u o d =
      let r = last_le-split pre post n v key u.1 o (some e.0) in
      (ground (arith, r.0), ground (arith, r.1))

  pub after-split :
      (pre post : List (ℕ × A)) (n : ℕ) (v : A)
      → Under n pre
      → after n (keys (pre ++ (n, v) ∷ post)) ≡ head? (keys post)
  after-split [] post n v u = ground arith
  after-split (e ∷ pre) post n v u = ground (arith, after-split pre post n v u.1)

  pub before-split :
      (pre post : List (ℕ × A)) (n : ℕ) (v : A) (d : Option ℕ)
      → Under n pre
      → before d n (keys (pre ++ (n, v) ∷ post)) ≡ last_of d (keys pre)
  before-split [] post n v d u = ground arith
  before-split (e ∷ pre) post n v d u = ground (arith, before-split pre post n v (some e.0) u.1)

module _ {A : Type 0} (rb : RbTree A) (tmap : Tree A) (sorted : IsSorted (to_list tmap)) where
  -- The kernel's walks, at a node that splits the list.
  neighbours :
      (pre post : List (ℕ × A)) (n : ℕ) (v : A)
      → to_list tmap ≡ pre ++ (n, v) ∷ post
      → (rb.next tmap n ≡ head? (keys post)) × (rb.prev tmap n ≡ last_of none (keys pre))
  neighbours pre post n v e =
      let u = (IsSorted-split pre n v post (rw e at sorted)).0 in
      (
        rb.next_after tmap n ∙ (ap (λ es. after n (keys es)) e ∙ after-split pre post n v u),
        rb.prev_before tmap n
            ∙ (ap (λ es. before none n (keys es)) e ∙ before-split pre post n v none u),
      )

  choose-wanted :
      (key n : ℕ) (flag : SearchFlag)
      → Split (to_list tmap) key n
      → choose rb tmap key flag n ≡ wanted flag key (keys (to_list tmap))
  unfolding choose
  choose-wanted key n search_begin s = refl
  choose-wanted key n search_end s = refl
  choose-wanted key n search_eq s =
      rw s.eq (sym (first_ge-split s.pre s.post n s.val key s.under s.over).2)
  choose-wanted key n search_lt s =
      let nb = neighbours s.pre s.post n s.val s.eq in
      let r = last_le-split s.pre s.post n s.val key s.under s.over none in
      rw (nb.1, s.eq)
        (ground
          (arith, r.1, or_else-none (wanted search_lt key (keys (s.pre ++ (n, s.val) ∷ s.post)))))
  choose-wanted key n search_le s =
      let nb = neighbours s.pre s.post n s.val s.eq in
      let r = last_le-split s.pre s.post n s.val key s.under s.over none in
      rw (nb.1, s.eq)
        (ground
          (arith, r.0, or_else-none (wanted search_le key (keys (s.pre ++ (n, s.val) ∷ s.post)))))
  choose-wanted key n search_gt s =
      let nb = neighbours s.pre s.post n s.val s.eq in
      let r = first_ge-split s.pre s.post n s.val key s.under s.over in
      rw (nb.0, s.eq) (ground (arith, r.1))
  choose-wanted key n search_ge s =
      let nb = neighbours s.pre s.post n s.val s.eq in
      let r = first_ge-split s.pre s.post n s.val key s.under s.over in
      rw (nb.0, s.eq) (ground (arith, r.0))

  -- In a tree whose entries are sorted, map_lookup_node_detail returns what its search flag asks for:
  -- the node of the key, or the nearest one below or above, with or without the key itself, and no
  -- node for the flags that ignore the key.
  pub map_lookup_node_detail-wanted :
      (key : ℕ) (flag : SearchFlag)
      → map_lookup_node_detail rb tmap key flag ≡ wanted flag key (keys (to_list tmap))
  unfolding map_lookup_node_detail
  map_lookup_node_detail-wanted key flag = from_walk (
      subst (λ es. Walked es key (last_visited tmap key none)) (append-nil (to_list tmap))
        (walk tmap [] [] key none sorted tt tt (alone refl refl refl)))
    where
      empty_wanted : (flag : SearchFlag) → wanted flag key [] ≡ none
      empty_wanted search_begin = refl
      empty_wanted _ = refl

      from_walk :
          Walked (to_list tmap) key (last_visited tmap key none)
          → map_lookup_node_detail rb tmap key flag ≡ wanted flag key (keys (to_list tmap))
      from_walk (nothing e t) = rw (t, map_lookup_node_detail, e) (sym (empty_wanted flag))
      from_walk (at n s t) = rw (t, map_lookup_node_detail) (choose-wanted key n flag s)
