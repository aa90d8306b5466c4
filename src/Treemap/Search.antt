-- ===== src/Treemap/Search.antt =====
-- map_lookup_node_detail against a search of the sorted list of keys, for every search flag.
use mathlib.Core.List.{append_assoc}
use walb_driver.Common.{
  ℕ, ◌<◌, ◌≡◌, refl, sym, subst, ◌⊎◌, inl, inr, Bool, Option, none, some, List, [], ◌∷◌, ◌++◌,
  All-append, arith, leb, ltb, ◌==◌, if◌then◌else◌,
}
use walb_driver.Treemap.{Tree, leaf, node, to_list}
use walb_driver.Treemap.Lists.{Under, Over, IsSorted, IsSorted-split, Over-mono, Under-mono}
use walb_driver.Treemap.Lookup.{
  SearchFlag, search_begin, search_end, search_eq, search_lt, search_le, search_gt, search_ge,
  last_visited,
}

abbrev pub first_where : (ℕ → Bool) → List ℕ → Option ℕ
first_where p [] = none
first_where p (k ∷ ks) = if p k then some k else first_where p ks

abbrev pub last_where : (ℕ → Bool) → List ℕ → Option ℕ
last_where p [] = none
last_where p (k ∷ ks) = elim (last_where p ks) [
  | some x ↦ some x
  | none ↦ if p k then some k else none
]

-- What each search flag asks for, in a rising list of keys.
abbrev pub wanted : SearchFlag → ℕ → List ℕ → Option ℕ
wanted search_begin key ks = none
wanted search_end key ks = none
wanted search_eq key ks = first_where (λ k. k == key) ks
wanted search_lt key ks = last_where (λ k. ltb k key) ks
wanted search_le key ks = last_where (λ k. leb k key) ks
wanted search_gt key ks = first_where (λ k. ltb key k) ks
wanted search_ge key ks = first_where (λ k. leb key k) ks

pub compare_cases : (a b : ℕ) → (a < b) ⊎ (b < a) ⊎ (a ≡ b)
compare_cases a b = ground arith

module _ {A : Type 0} where
  module _ (l r : Tree A) (k : ℕ) (v : A) (key : ℕ) (t : Option ℕ) where
    visited_left : key < k → last_visited (node l k v r) key t ≡ last_visited l key (some k)
    unfolding last_visited
    visited_left h = ground arith

    visited_right : k < key → last_visited (node l k v r) key t ≡ last_visited r key (some k)
    unfolding last_visited
    visited_right h = ground arith

    visited_here : key ≡ k → last_visited (node l k v r) key t ≡ some k
    unfolding last_visited
    visited_here h = ground arith

  -- A node beside which the key belongs, or which has the key.
  pub record Split (es : List (ℕ × A)) (key n : ℕ) : Type 0 where
    pub pre : List (ℕ × A)
    pub val : A
    pub post : List (ℕ × A)
    pub eq : es ≡ pre ++ (n, val) ∷ post
    pub under : Under key pre
    pub over : Over key post

  -- The last node visited borders the place that the walk has come to.
  pub data Borders (pre post : List (ℕ × A)) (t : Option ℕ) : Type 0 where
    alone : pre ≡ [] → post ≡ [] → t ≡ none → Borders pre post t
    left :
        (p : List (ℕ × A)) (n : ℕ) (v : A)
        → pre ≡ p ++ (n, v) ∷ []
        → t ≡ some n
        → Borders pre post t
    right : (n : ℕ) (v : A) (q : List (ℕ × A)) → post ≡ (n, v) ∷ q → t ≡ some n → Borders pre post t

  pub data Walked (es : List (ℕ × A)) (key : ℕ) (t : Option ℕ) : Type 0 where
    nothing : es ≡ [] → t ≡ none → Walked es key t
    at : (n : ℕ) → Split es key n → t ≡ some n → Walked es key t

  Under-last : (key : ℕ) (p : List (ℕ × A)) (e : ℕ × A) → Under key (p ++ e ∷ []) → Under key p
  Under-last key [] e u = tt
  Under-last key (x ∷ p) e u = (u.0, Under-last key p e u.1)

  leaf-Walked :
      (pre post : List (ℕ × A)) (key : ℕ) (t : Option ℕ)
      → Under key pre
      → Over key post
      → Borders pre post t
      → Walked (pre ++ post) key t
  leaf-Walked pre post key t u o (alone e f g) = nothing (rw (e, f)) g
  leaf-Walked pre post key t u o (left p n v e g) =
      at n
        (record {
          pre = p;
          val = v;
          post = post;
          eq = rw (e, append_assoc);
          under = Under-last key p (n, v) (rw e at u);
          over = o;
        })
        g
  leaf-Walked pre post key t u o (right n v q e g) =
      let o' : Over key ((n, v) ∷ q) = rw e at o in
      at n (record { pre = pre; val = v; post = q; eq = rw e; under = u; over = o'.1 }) g

  regroup_left :
      (pre l r post : List (ℕ × A)) (e : ℕ × A)
      → pre ++ (l ++ (e ∷ (r ++ post))) ≡ pre ++ ((l ++ e ∷ r) ++ post)
  regroup_left pre l r post e = simp append_assoc

  regroup_right :
      (pre l r post : List (ℕ × A)) (e : ℕ × A)
      → (pre ++ (l ++ e ∷ [])) ++ (r ++ post) ≡ pre ++ ((l ++ e ∷ r) ++ post)
  regroup_right pre l r post e = simp append_assoc

  regroup_here :
      (pre l r post : List (ℕ × A)) (e : ℕ × A)
      → pre ++ ((l ++ e ∷ r) ++ post) ≡ (pre ++ l) ++ e ∷ (r ++ post)
  regroup_here pre l r post e = simp append_assoc

  pub walk :
      (t : Tree A) (pre post : List (ℕ × A)) (key : ℕ) (last : Option ℕ)
      → IsSorted (to_list t)
      → Under key pre
      → Over key post
      → Borders pre post last
      → Walked (pre ++ (to_list t ++ post)) key (last_visited t key last)
  unfolding last_visited
  walk leaf pre post key last s u o b = leaf-Walked pre post key last u o b
  walk (node l k v r) pre post key last s u o b =
      pick (compare_cases key k)
        (λ lt.
          subst (λ es. Walked es key (last_visited l key (some k)))
            (regroup_left pre (to_list l) (to_list r) post (k, v))
            (walk l pre ((k, v) ∷ (to_list r ++ post)) key (some k) p.2 u
              (
                lt,
                All-append (λ (e : ℕ × A). key < e.0) (to_list r) post
                    (Over-mono key k (to_list r) lt p.1) o,
              )
              (right k v (to_list r ++ post) refl refl)))
        (λ gt.
          subst (λ es. Walked es key (last_visited r key (some k)))
            (regroup_right pre (to_list l) (to_list r) post (k, v))
            (walk r (pre ++ (to_list l ++ (k, v) ∷ [])) post key (some k) p.3
              (All-append (λ (e : ℕ × A). e.0 < key) pre (to_list l ++ (k, v) ∷ []) u
                (All-append (λ (e : ℕ × A). e.0 < key) (to_list l) ((k, v) ∷ [])
                  (Under-mono k key (to_list l) gt p.0) (gt, tt)))
              o
              (left (pre ++ to_list l) k v (sym (append_assoc pre (to_list l) ((k, v) ∷ [])))
                refl)))
    where
      p : Under k (to_list l) × Over k (to_list r) × IsSorted (to_list l) × IsSorted (to_list r)
      p = IsSorted-split (to_list l) k v (to_list r) s

      here : key ≡ k → Split (pre ++ ((to_list l ++ (k, v) ∷ to_list r) ++ post)) key k
      here e = record {
        pre = pre ++ to_list l;
        val = v;
        post = to_list r ++ post;
        eq = regroup_here pre (to_list l) (to_list r) post (k, v);
        under = All-append (λ (e : ℕ × A). e.0 < key) pre (to_list l) u (rw e p.0);
        over = All-append (λ (e : ℕ × A). key < e.0) (to_list r) post (rw e p.1) o;
      }

      pick :
          (key < k) ⊎ (k < key) ⊎ (key ≡ k)
          → (key < k
              → Walked
                  (pre ++ ((to_list l ++ (k, v) ∷ to_list r) ++ post))
                  key
                  (last_visited l key (some k)))
          → (k < key
              → Walked
                  (pre ++ ((to_list l ++ (k, v) ∷ to_list r) ++ post))
                  key
                  (last_visited r key (some k)))
          → Walked
              (pre ++ ((to_list l ++ (k, v) ∷ to_list r) ++ post))
              key
              (last_visited (node l k v r) key last)
      pick (inl lt) f g = rw (visited_left l r k v key last lt) (f lt)
      pick (inr (inl gt)) f g = rw (visited_right l r k v key last gt) (g gt)
      pick (inr (inr e)) f g = rw (visited_here l r k v key last e) (at k (here e) refl)
