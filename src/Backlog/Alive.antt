-- ===== src/Backlog/Alive.antt =====
-- The writes in flight (module/io.c): the sum of their sectors, and those of them that stand in the pending
-- data, which are no discards and not overwritten.
use walb_driver.Common.{
  ℕ, ◌+◌, ◌≤◌, ◌<◌, ◌≡◌, refl, sym, ap, subst, inl, inr, Bool, true, false, ◌&&◌, ◌||◌, List, [],
  ◌∷◌, All, arith, Bool-cases, length, ◌==◌, if◌then◌else◌, u32_mod,
}
use walb_driver.Biow.{Biow}
use walb_driver.Treemap.Multimap.{contains, delete}
use walb_driver.Treemap.Tally.{count}
use walb_driver.Pending.{is_fully_overwritten}
use walb_driver.Pending.Keep.{IsPending}
use walb_driver.Pending.Overwritten.{survivors}
use walb_driver.Overlapped.Members.{delete-same}
use walb_driver.Backlog.{Backlog, weight}

module _ (info : ℕ → Biow) where
  abbrev pub total : List ℕ → ℕ
  total [] = 0
  total (u ∷ us) = weight (info u) + total us

  -- The writes in flight that stand in the pending data.
  abbrev pub alive : (ℕ → Bool) → List ℕ → List ℕ
  alive overwritten [] = []
  alive overwritten (u ∷ us) =
      if (info u).discard || overwritten u then alive overwritten us else u ∷ alive overwritten us

  pub record IsBacklog (s : Backlog) (flight : List ℕ) : Type 0 where
    pub sectors : s.pending_sectors ≡ total flight
    pub pending : IsPending info s.pending (alive s.overwritten flight)
    pub once : (v : ℕ) → count (λ u. u == v) flight ≤ 1
    pub small : total flight < u32_mod
    pub positive : All (λ u. 0 < (info u).len) flight

  pub count-alive :
      (o : ℕ → Bool) (v : ℕ) (us : List ℕ)
      → count (λ u. u == v) (alive o us) ≤ count (λ u. u == v) us
  count-alive o v [] = omega arith
  count-alive o v (u ∷ us) = elim (Bool-cases ((info u).discard || o u)) [
    | inl e ↦ rw e (ground (arith, count-alive o v us))
    | inr e ↦ rw e (ground (arith, count-alive o v us))
  ]

  pub length-alive : (o : ℕ → Bool) (us : List ℕ) → length (alive o us) ≤ length us
  length-alive o [] = omega arith
  length-alive o (u ∷ us) = elim (Bool-cases ((info u).discard || o u)) [
    | inl e ↦ rw e (omega (arith, length-alive o us))
    | inr e ↦ rw e (omega (arith, length-alive o us))
  ]

  pub All-alive : (P : ℕ → Type 0) (o : ℕ → Bool) (us : List ℕ) → All P us → All P (alive o us)
  All-alive P o [] a = tt
  All-alive P o (u ∷ us) a = elim (Bool-cases ((info u).discard || o u)) [
    | inl e ↦ rw e (All-alive P o us a.1)
    | inr e ↦ rw e (a.0, All-alive P o us a.1)
  ]

  -- A member that is alive.
  pub count-alive_same :
      (o : ℕ → Bool) (v : ℕ) (us : List ℕ)
      → ((info v).discard || o v) ≡ false
      → count (λ u. u == v) (alive o us) ≡ count (λ u. u == v) us
  count-alive_same o v [] e = refl
  count-alive_same o v (u ∷ us) e = elim (Bool-cases (u == v)) [
    | inl f ↦
        let d : ((info u).discard || o u) ≡ false =
          subst (λ x. ((info x).discard || o x) ≡ false) (sym (u_is_v f)) e in
        rw d (omega (arith, count-alive_same o v us e))
    | inr f ↦ elim (Bool-cases ((info u).discard || o u)) [
      | inl d ↦ rw d (ground (arith, f, count-alive_same o v us e))
      | inr d ↦ rw d (omega (arith, count-alive_same o v us e))
    ]
  ]
    where
      u_is_v : (u == v) ≡ true → u ≡ v
      u_is_v f = ground (arith, f)

  -- The survivors are those that are alive afterwards.
  pub alive-survivors :
      (b : ℕ) (o o' : ℕ → Bool) (us all : List ℕ)
      → ((u : ℕ) → o' u ≡ (o u || (contains u all && is_fully_overwritten info b u)))
      → All (λ u. ((info u).discard || o u) ≡ false → contains u all ≡ true) us
      → alive o' us ≡ survivors info b (alive o us)
  alive-survivors b o o' [] all m a = refl
  alive-survivors b o o' (u ∷ us) all m a =
      go ((info u).discard || o u) refl (is_fully_overwritten info b u) refl
        (alive-survivors b o o' us all m a.1)
    where
      go :
          (x : Bool)
          → ((info u).discard || o u) ≡ x
          → (y : Bool) → is_fully_overwritten info b u ≡ y
          → alive o' us ≡ survivors info b (alive o us)
          → (if (info u).discard || o' u then alive o' us else u ∷ alive o' us)
            ≡ survivors info b (if x then alive o us else u ∷ alive o us)
      go true e y f ih = rw (already e) ih
        where
          already : ((info u).discard || o u) ≡ true → ((info u).discard || o' u) ≡ true
          already e = ground (arith, m u, e)
      go false e true f ih = rw (gone, f) ih
        where
          gone : ((info u).discard || o' u) ≡ true
          gone = ground (arith, m u, a.0 e, f)
      go false e false f ih = rw (left, f) (ap (λ l. u ∷ l) ih)
        where
          left : ((info u).discard || o' u) ≡ false
          left = ground (arith, m u, e, f)

  pub alive-delete :
      (o : ℕ → Bool) (b : ℕ) (us : List ℕ) → alive o (delete b us) ≡ delete b (alive o us)
  alive-delete o b [] = refl
  alive-delete o b (u ∷ us) = elim (Bool-cases ((info u).discard || o u)) [
    | inl e ↦ ground (arith, e, alive-delete o b us)
    | inr e ↦ ground (arith, e, alive-delete o b us)
  ]

  pub count-dead :
      (o : ℕ → Bool) (v : ℕ) (us : List ℕ)
      → ((info v).discard || o v) ≡ true
      → count (λ u. u == v) (alive o us) ≡ 0
  count-dead o v [] e = refl
  count-dead o v (u ∷ us) e = elim (Bool-cases ((info u).discard || o u)) [
    | inl d ↦ rw d (count-dead o v us e)
    | inr d ↦ rw d (ground (arith, other d, count-dead o v us e))
  ]
    where
      other : ((info u).discard || o u) ≡ false → (u == v) ≡ false
      other d = elim (Bool-cases (u == v)) [
        | inl f ↦ absurd (
            ground (
              arith,
              d,
              subst (λ x. ((info x).discard || o x) ≡ true) {y = u} (ground (arith, f)) e,
            ))
        | inr f ↦ f
      ]

  pub total-delete :
      (b : ℕ) (us : List ℕ)
      → count (λ u. u == b) us ≡ 1
      → total us ≡ weight (info b) + total (delete b us)
  total-delete b [] o = absurd (omega (arith, o))
  total-delete b (u ∷ us) o = elim (Bool-cases (u == b)) [
    | inl e ↦ rw (e, delete-same b us (ground (arith, o, e))) (weight_same e)
    | inr e ↦ rw e (omega (arith, total-delete b us (ground (arith, o, e))))
  ]
    where
      weight_same : (u == b) ≡ true → weight (info u) + total us ≡ weight (info b) + total us
      weight_same e = ap (λ x. weight (info x) + total us) {y = b} (ground (arith, e))
