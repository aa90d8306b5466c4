-- ===== src/Overlapped/Members.antt =====
-- The overlapped data without one bio wrapper (module/overlapped_io.c): the multimap and the counts.
use walb_driver.Common.{
  ℕ, ◌+◌, ◌^◌, ◌≤◌, ◌<◌, ◌≡◌, refl, sym, ap, subst, ◌∙◌, inl, inr, Bool, true, false, ◌&&◌, List,
  [], ◌∷◌, All, arith, Bool-cases, length, ◌==◌, if◌then◌else◌, u64_mod, sub_u32,
}
use walb_driver.Biow.{Biow, bio_wrapper_end}
use walb_driver.Treemap.{to_list}
use walb_driver.Treemap.Scan.{flat}
use walb_driver.Treemap.Multimap.{Multimap, delete, contains}
use walb_driver.Treemap.Values.{cells_of, Changed}
use walb_driver.Treemap.Tally.{
  one_if, count, count-delete, in_range, tally-Changed, Changed-IsSorted, Changed-IsFull,
  tally-cells_of,
}
use walb_driver.Overlapped.{start_pos}
use walb_driver.Overlapped.Notify.{overlaps-sym, visits}
use walb_driver.Treemap.{RbTree, head?, keys}
use walb_driver.Treemap.Multimap.{multimap_is_empty}
use walb_driver.Treemap.Map.{map_is_empty}
use walb_driver.Overlapped.Insert.{Holds-length}
use mathlib.Core.Option.{none, some}
use walb_driver.Overlapped.Serial.{
  overlaps, Holds, Bounded, Waits, count-cong, count-length, overlaps-in_range,
}

-- The list without a member.
module _ (b : ℕ) where
  pub delete-same : (vs : List ℕ) → count (λ u. u == b) vs ≡ 0 → delete b vs ≡ vs
  delete-same [] z = refl
  delete-same (v ∷ vs) z = ground (arith, delete-same vs, z)

  pub delete-length : (vs : List ℕ) → length (delete b vs) ≤ length vs
  delete-length [] = omega arith
  delete-length (v ∷ vs) = ground (arith, delete-length vs)

  pub All-delete : (P : ℕ → Type 0) (vs : List ℕ) → All P vs → All P (delete b vs)
  All-delete P [] a = tt
  All-delete P (v ∷ vs) a = elim (Bool-cases (v == b)) [
    | inl e ↦ rw e (All-delete P vs a.1)
    | inr e ↦ rw e (a.0, All-delete P vs a.1)
  ]

-- What holds of every member holds of all.
pub All-members :
    (P : ℕ → Type 0) (vs : List ℕ) → ((u : ℕ) → 1 ≤ count (λ v. v == u) vs → P u) → All P vs
All-members P [] f = tt
All-members P (v ∷ vs) f = (f v (ground arith), All-members P vs (λ u l. f u (ground (arith, l))))

pub count-once :
    (u : ℕ) (vs : List ℕ)
    → count (λ v. v == u) vs ≤ 1
    → count (λ v. v == u) vs ≡ one_if (contains u vs)
count-once u [] l = refl
count-once u (v ∷ vs) l = ground (arith, count-once u vs, l)

-- A test on a member.
pub count-member :
    (q : ℕ → Bool) (u : ℕ) (vs : List ℕ)
    → count (λ v. q v && (v == u)) vs ≡ (if q u then count (λ v. v == u) vs else 0)
count-member q u [] = ground arith
count-member q u (v ∷ vs) = elim (Bool-cases (v == u)) [
  | inl e ↦ ground (arith, e, ap q (v_is_u e), count-member q u vs)
  | inr e ↦ ground (arith, e, count-member q u vs)
]
  where
    v_is_u : (v == u) ≡ true → v ≡ u
    v_is_u e = ground (arith, e)

pub All-and :
    (f g q : ℕ → Bool) (vs : List ℕ)
    → All (λ v. f v ≡ g v) vs
    → All (λ v. (f v && q v) ≡ (g v && q v)) vs
All-and f g q [] a = tt
All-and f g q (v ∷ vs) a = (ap (λ x. x && q v) a.0, All-and f g q vs a.1)

module _ (info : ℕ → Biow) where
  module _ {t : Multimap} {queue : List ℕ} (h : Holds info t queue) (b : ℕ) where
    -- How often the loop meets a bio wrapper.
    pub visits-count :
        (m u : ℕ)
        → (info b).pos + (info b).len < u64_mod
        → Bounded info m queue
        → visits info b
            (in_range (start_pos m (info b)) (bio_wrapper_end (info b)))
            u
            (flat (to_list t))
          ≡ (if overlaps info b u then count (λ v. v == u) queue else 0)
    visits-count m u w bd =
        h.bag (λ k v.
          (in_range (start_pos m (info b)) (bio_wrapper_end (info b)) k v && overlaps info b v)
          && (v == u))
        ∙ count-cong info
            (λ v.
              (in_range (start_pos m (info b)) (bio_wrapper_end (info b)) ((info v).pos) v
                && overlaps info b v)
              && (v == u))
            (λ v. overlaps info b v && (v == u)) queue
            (All-and
              (λ v.
                in_range (start_pos m (info b)) (bio_wrapper_end (info b)) ((info v).pos) v
                && overlaps info b v)
              (overlaps info b) (λ v. v == u) queue (overlaps-in_range info m b queue w bd))
        ∙ count-member (overlaps info b) u queue

  module _ {t : Multimap} {queue : List ℕ} (h : Holds info t queue) (b : ℕ)
      (there : count (λ u. u == b) queue ≡ 1) where
    count-here : count (λ u. u == b) (cells_of ((info b).pos) (to_list t)) ≡ 1
    count-here =
        sym (tally-cells_of (λ u. u == b) ((info b).pos) (to_list t) h.sorted)
        ∙ h.bag (λ j v. (j == (info b).pos) && (v == b))
        ∙ count-member (λ v. (info v).pos == (info b).pos) b queue
        ∙ ground (arith, there)

    pub Holds-deleted :
        {t' : Multimap}
        → Changed
            ((info b).pos)
            (cells_of ((info b).pos) (to_list t))
            (delete b (cells_of ((info b).pos) (to_list t)))
            (to_list t)
            (to_list t')
        → Holds info t' (delete b queue)
    Holds-deleted {t'} c = record {
      sorted = Changed-IsSorted c h.sorted;
      full = Changed-IsFull c h.full;
      bag = λ p. ground (
        arith,
        tally-Changed c p,
        h.bag p,
        count-delete (p ((info b).pos)) b (cells_of ((info b).pos) (to_list t)),
        count-delete (λ u. p ((info u).pos) u) b queue,
        there,
        count-here,
      );
      once = λ v. ground (arith, count-delete (λ u. u == v) b queue, h.once v);
    }

  -- The counts of the others, lowered where they overlap.
  abbrev pub Lowered : (ℕ → ℕ) → (ℕ → ℕ) → ℕ → ℕ → Type 0
  Lowered n n' b u = n' u ≡ (if overlaps info b u then sub_u32 (n u) 1 else n u)

  Waits-same :
      (n n' : ℕ → ℕ) (b : ℕ) (vs : List ℕ)
      → count (overlaps info b) vs ≡ 0
      → All (Lowered n n' b) vs
      → Waits info n vs
      → Waits info n' vs
  Waits-same n n' b [] z a w = tt
  Waits-same n n' b (v ∷ vs) z a w =
      (ground (arith, z, a.0, w.0), Waits-same n n' b vs (ground (arith, z)) a.1 w.1)

  pub Waits-delete :
      (n n' : ℕ → ℕ) (b : ℕ) (vs : List ℕ)
      → count (λ u. u == b) vs ≡ 1
      → n b ≡ 0
      → length vs < 2 ^ 31
      → All (Lowered n n' b) (delete b vs)
      → Waits info n vs
      → Waits info n' (delete b vs)
  Waits-delete n n' b [] o z l a w = tt
  Waits-delete n n' b (v ∷ vs) o z l a w = elim (Bool-cases (v == b)) [
    | inl e ↦
        let d : delete b (v ∷ vs) ≡ vs = found e in
        subst (Waits info n') (sym d) (
          Waits-same n n' b vs
            (sym (subst (λ x. n x ≡ count (overlaps info x) vs) {y = b} (ground (arith, e)) w.0)
              ∙ z)
            (subst (All (Lowered n n' b)) d a) w.1)
    | inr e ↦
        let d : delete b (v ∷ vs) ≡ v ∷ delete b vs = rw e refl in
        let a' = subst (All (Lowered n n' b)) d a in
        subst (Waits info n') (sym d) (
          ground (
            arith,
            a'.0,
            w.0,
            count-delete (overlaps info v) b vs,
            overlaps-sym info b v,
            o,
            e,
            l,
            count-length info (overlaps info v) vs,
          ),
          Waits-delete n n' b vs (ground (arith, o, e)) z (omega (arith, l)) a'.1 w.1,
        )
  ]
    where
      found : (v == b) ≡ true → delete b (v ∷ vs) ≡ vs
      found e = rw e (delete-same b vs (ground (arith, o, e)))

  multimap_is_empty-nil :
      (rb : RbTree (List ℕ)) (t : Multimap) → multimap_is_empty rb t ≡ true → to_list t ≡ []
  unfolding multimap_is_empty map_is_empty
  multimap_is_empty-nil rb t e =
      go (to_list t) (ap (λ n. elim n [ none ↦ true | some k ↦ false ]) (sym (rb.first_head t)) ∙ e)
    where
      go :
          (es : List (ℕ × List ℕ))
          → (elim (head? (keys es)) [ none ↦ true | some k ↦ false ]) ≡ true
          → es ≡ []
      go [] h = refl
      go (x ∷ es) h = absurd (ground (arith, h))

  pub Bounded-kept :
      (m b : ℕ) (queue : List ℕ) → Bounded info m queue → Bounded info m (delete b queue)
  Bounded-kept m b queue k =
      All-delete b (λ u. ((info u).pos + (info u).len < u64_mod) × ((info u).len ≤ m)) queue k

  -- The bound is reset when the multimap is empty.
  pub Bounded-delete :
      (rb : RbTree (List ℕ)) {t : Multimap} (m b : ℕ) (queue : List ℕ)
      → Bounded info m queue
      → Holds info t (delete b queue)
      → Bounded info (if multimap_is_empty rb t then 0 else m) (delete b queue)
  Bounded-delete rb {t} m b queue k held = go (multimap_is_empty rb t) refl
    where
      nobody : (vs : List ℕ) → length vs ≡ 0 → Bounded info 0 vs
      nobody [] l = tt
      nobody (v ∷ vs) l = absurd (omega (arith, l))

      go :
          (x : Bool)
          → multimap_is_empty rb t ≡ x
          → Bounded info (if x then 0 else m) (delete b queue)
      go false e = Bounded-kept m b queue k
      go true e = nobody (delete b queue) (
          sym (Holds-length info held) ∙ ap (λ es. length (flat es)) (multimap_is_empty-nil rb t e))
