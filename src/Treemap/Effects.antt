-- ===== src/Treemap/Effects.antt =====
-- What map_add, map_del and map_lookup do to a map, seen as a partial function from keys to values.
use mathlib.Core.List.{append_assoc}
use walb_driver.Common.{
  ℕ, ◌<◌, ◌≡◌, ◌≢◌, refl, sym, ◌∙◌, ◌⊎◌, inl, inr, none, some, List, [], ◌∷◌, ◌++◌, All-append,
  arith, ◌==◌, if◌then◌else◌,
}
use walb_driver.Treemap.{Tree, leaf, node, to_list}
use walb_driver.Treemap.Lists.{
  Under, Over, IsSorted, IsSorted-split, IsSorted-join, Over-mono, Under-mono, Over-split,
}
use walb_driver.Treemap.Search.{compare_cases}
use walb_driver.Treemap.Map.{assoc, link_node}

module _ {A : Type 0} where
  -- The list `us` with the entry `(k, v)` put in its place.
  pub record Inserted (k : ℕ) (v : A) (us vs : List (ℕ × A)) : Type 0 where
    pub pre : List (ℕ × A)
    pub post : List (ℕ × A)
    pub old : us ≡ pre ++ post
    pub new : vs ≡ pre ++ (k, v) ∷ post
    pub under : Under k pre
    pub over : Over k post

  module _ (l r : Tree A) (k : ℕ) (v : A) (key : ℕ) (val : A) where
    linked_left :
        (l' : Tree A)
        → key < k
        → link_node l key val ≡ some l'
        → link_node (node l k v r) key val ≡ some (node l' k v r)
    unfolding link_node
    linked_left l' h e = ground arith

    linked_right :
        (r' : Tree A)
        → k < key
        → link_node r key val ≡ some r'
        → link_node (node l k v r) key val ≡ some (node l k v r')
    unfolding link_node
    linked_right r' h e = ground arith

    unlinked :
        ((key < k) × (link_node l key val ≡ none))
          ⊎ ((k < key) × (link_node r key val ≡ none))
          ⊎ (key ≡ k)
        → link_node (node l k v r) key val ≡ none
    unfolding link_node
    unlinked h = ground arith

  pub assoc-Over : (k : ℕ) (ys : List (ℕ × A)) → Over k ys → assoc k ys ≡ none
  assoc-Over k [] o = refl
  assoc-Over k (y ∷ ys) o = ground (arith, assoc-Over k ys o.1)

  pub assoc-append-Under :
      (k : ℕ) (xs ys : List (ℕ × A)) → Under k xs → assoc k (xs ++ ys) ≡ assoc k ys
  assoc-append-Under k [] ys u = refl
  assoc-append-Under k (x ∷ xs) ys u = ground (arith, assoc-append-Under k xs ys u.1)

  pub assoc-append-Over :
      (k : ℕ) (xs ys : List (ℕ × A)) → Over k ys → assoc k (xs ++ ys) ≡ assoc k xs
  assoc-append-Over k [] ys o = assoc-Over k ys o
  assoc-append-Over k (x ∷ xs) ys o = ground (arith, assoc-append-Over k xs ys o)

  assoc-append_ne :
      (j k : ℕ) (v : A) (xs ys : List (ℕ × A))
      → k ≢ j
      → assoc j (xs ++ (k, v) ∷ ys) ≡ assoc j (xs ++ ys)
  assoc-append_ne j k v [] ys h = ground arith
  assoc-append_ne j k v (x ∷ xs) ys h = ground (arith, assoc-append_ne j k v xs ys h)

  -- After an insertion, the key has the value and the other keys have theirs.
  pub assoc-Inserted :
      (j k : ℕ) (v : A) {us vs : List (ℕ × A)}
      → Inserted k v us vs
      → (assoc k us ≡ none) × (assoc j vs ≡ (if k == j then some v else assoc j us))
  assoc-Inserted j k v i = (
    rw (i.old, assoc-append-Under k i.pre i.post i.under) (assoc-Over k i.post i.over),
    rw (i.old, i.new)
        (ground (
          arith,
          assoc-append_ne j k v i.pre i.post,
          assoc-append-Under k i.pre ((k, v) ∷ i.post) i.under,
        )),
  )

  pub IsSorted-append : (xs ys : List (ℕ × A)) → IsSorted (xs ++ ys) → IsSorted xs × IsSorted ys
  IsSorted-append [] ys s = (tt, s)
  IsSorted-append (x ∷ xs) ys s =
      let r = IsSorted-append xs ys s.1 in ((((Over-split x.0 xs ys s.0)).0, r.0), r.1)

  pub Inserted-IsSorted :
      {k : ℕ} {v : A} {us vs : List (ℕ × A)} → IsSorted us → Inserted k v us vs → IsSorted vs
  Inserted-IsSorted {k} {v} s i =
      let p = IsSorted-append i.pre i.post (rw i.old at s) in
      rw i.new (IsSorted-join i.pre k v i.post i.under i.over p.0 p.1)

  pub data Linked (t : Tree A) (key : ℕ) (val : A) : Type 0 where
    there : (v : A) → link_node t key val ≡ none → assoc key (to_list t) ≡ some v → Linked t key val
    hung :
        (t' : Tree A)
        → link_node t key val ≡ some t'
        → Inserted key val (to_list t) (to_list t')
        → Linked t key val

  pub link_node-Linked : (t : Tree A) (key : ℕ) (val : A) → IsSorted (to_list t) → Linked t key val
  unfolding link_node
  link_node-Linked leaf key val s =
      hung (node leaf key val leaf) refl
        (record { pre = []; post = []; old = refl; new = refl; under = tt; over = tt })
  link_node-Linked (node l k v r) key val s =
      choose (link_node-Linked l key val p.2) (link_node-Linked r key val p.3) (compare_cases key k)
    where
      p : Under k (to_list l) × Over k (to_list r) × IsSorted (to_list l) × IsSorted (to_list r)
      p = IsSorted-split (to_list l) k v (to_list r) s

      choose :
          Linked l key val
          → Linked r key val
          → (key < k) ⊎ (k < key) ⊎ (key ≡ k)
          → Linked (node l k v r) key val
      choose (there w e f) right (inl lt) = there w (unlinked l r k v key val (inl (lt, e))) (
          assoc-append-Over key (to_list l) ((k, v) ∷ to_list r)
            (lt, Over-mono key k (to_list r) lt p.1)
          ∙ f)
      choose (hung l' e i) right (inl lt) =
          hung (node l' k v r) (linked_left l r k v key val l' lt e) (record {
            pre = i.pre;
            post = i.post ++ (k, v) ∷ to_list r;
            old = rw i.old (append_assoc i.pre i.post ((k, v) ∷ to_list r));
            new = rw i.new (append_assoc i.pre ((key, val) ∷ i.post) ((k, v) ∷ to_list r));
            under = i.under;
            over =
                All-append (λ (e : ℕ × A). key < e.0) i.post ((k, v) ∷ to_list r) i.over
                  (lt, Over-mono key k (to_list r) lt p.1);
          })
      choose left (there w e f) (inr (inl gt)) =
          there w (unlinked l r k v key val (inr (inl (gt, e)))) (
            assoc-append-Under key (to_list l) ((k, v) ∷ to_list r)
              (Under-mono k key (to_list l) gt p.0)
            ∙ ground (arith, f))
      choose left (hung r' e i) (inr (inl gt)) =
          hung (node l k v r') (linked_right l r k v key val r' gt e) (record {
            pre = to_list l ++ (k, v) ∷ i.pre;
            post = i.post;
            old = rw i.old (sym (append_assoc (to_list l) ((k, v) ∷ i.pre) i.post));
            new = rw i.new (sym (append_assoc (to_list l) ((k, v) ∷ i.pre) ((key, val) ∷ i.post)));
            under =
                All-append (λ (e : ℕ × A). e.0 < key) (to_list l) ((k, v) ∷ i.pre)
                  (Under-mono k key (to_list l) gt p.0) (gt, i.under);
            over = i.over;
          })
      choose left right (inr (inr e)) =
          there v (unlinked l r k v key val (inr (inr e)))
            (rw e (assoc-append-Under k (to_list l) ((k, v) ∷ to_list r) p.0 ∙ ground arith))
