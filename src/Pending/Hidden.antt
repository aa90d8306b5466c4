-- ===== src/Pending/Hidden.antt =====
-- What pending_delete_fully_overwritten (module/pending_io.c) deletes, no read misses: the newest write
-- covers all of it.
use walb_driver.Common.{
  ℕ, ◌+◌, ◌≤◌, ◌<◌, ◌≡◌, refl, sym, ap, ◌∙◌, inl, inr, Bool, true, false, not, ◌&&◌, ◌||◌, Option,
  some, List, [], ◌∷◌, All, arith, Bool-cases, length, ◌==◌, if◌then◌else◌, u64_mod,
}
use walb_driver.Biow.{Biow}
use walb_driver.Treemap.{RbTree}
use walb_driver.Treemap.Multimap.{contains}
use walb_driver.Pending.{
  Pending, Overwriting, is_fully_overwritten, pending_delete_fully_overwritten, pending_sources,
}
use walb_driver.Pending.Keep.{IsPending}
use walb_driver.Pending.Newest.{
  covers, last_covering, ReadFrom, nobody, newest, pending_sources-newest,
}
use walb_driver.Pending.Overwritten.{survivors, pending_delete_fully_overwritten-Overwrote}

module _ (info : ℕ → Biow) (b : ℕ) where
  contains-survivors :
      (u : ℕ) (us : List ℕ)
      → contains u (survivors info b us) ≡ (contains u us && not (is_fully_overwritten info b u))
  contains-survivors u [] = refl
  contains-survivors u (v ∷ us) =
      go (is_fully_overwritten info b v) refl (v == u) refl (contains-survivors u us)
    where
      v_is_u : (v == u) ≡ true → v ≡ u
      v_is_u f = ground (arith, f)

      go :
          (x : Bool)
          → is_fully_overwritten info b v ≡ x
          → (y : Bool) → (v == u) ≡ y
          → contains u (survivors info b us)
            ≡ (contains u us && not (is_fully_overwritten info b u))
          → contains u (if x then survivors info b us else v ∷ survivors info b us)
            ≡ ((y || contains u us) && not (is_fully_overwritten info b u))
      go true e true f ih =
          rw ih (ground (arith, sym e ∙ ap (is_fully_overwritten info b) (v_is_u f)))
      go true e false f ih = ih
      go false e true f ih =
          rw f (ground (arith, sym e ∙ ap (is_fully_overwritten info b) (v_is_u f)))
      go false e false f ih = rw f ih

  length-survivors : (us : List ℕ) → length (survivors info b us) ≤ length us
  length-survivors [] = omega arith
  length-survivors (u ∷ us) = elim (Bool-cases (is_fully_overwritten info b u)) [
    | inl e ↦ rw e (omega (arith, length-survivors us))
    | inr e ↦ rw e (omega (arith, length-survivors us))
  ]

  covers_more :
      (u x : ℕ)
      → is_fully_overwritten info b u ≡ true
      → covers info u x ≡ true
      → covers info b x ≡ true
  covers_more u x o c = ground arith

  not_itself : is_fully_overwritten info b b ≡ false
  not_itself = ground arith

  module _ (queue : List ℕ) (there : contains b queue ≡ true) (plain : (info b).discard ≡ false)
      (last : (v : ℕ) → contains v queue ≡ true → (info v).lsid ≤ (info b).lsid) where
    survivors-ReadFrom :
        (x : ℕ) {r : Option ℕ}
        → ReadFrom info (survivors info b queue) x r
        → ReadFrom info queue x r
    survivors-ReadFrom x (nobody n) = nobody (λ v c d.
        elim (Bool-cases (is_fully_overwritten info b v)) [
          | inl o ↦ elim (Bool-cases (covers info v x)) [
            | inl k ↦ absurd (
                ground (
                  arith,
                  covers_more v x o k,
                  n b (ground (arith, contains-survivors b queue, not_itself, there)) plain,
                ))
            | inr k ↦ k
          ]
          | inr o ↦ n v (ground (arith, contains-survivors v queue, c, o)) d
        ])
    survivors-ReadFrom x (newest u c no_discard k n) =
        newest u (ground (arith, contains-survivors u queue, c)) no_discard k (λ v c' d k'.
          elim (Bool-cases (is_fully_overwritten info b v)) [
            | inl o ↦ ground (
              arith,
              covers_more v x o k',
              last v c',
              n b (ground (arith, contains-survivors b queue, not_itself, there)) plain,
            )
            | inr o ↦ n v (ground (arith, contains-survivors v queue, c', o)) d k'
          ])

    module _ (rb : RbTree (List ℕ)) (fuel : ℕ) (s : Pending) (overwritten : ℕ → Bool)
        (i : IsPending info s queue) (fits : (info b).pos + (info b).len < u64_mod)
        (positive : All (λ u. 0 < (info u).len) queue) (enough : length queue ≤ fuel) where
      -- With the invariant, lengths that are not zero, enough fuel, and `b` the newest of the pending
      -- writes and no discard: after pending_delete_fully_overwritten for `b`, pending_check_and_copy
      -- still gives each sector of any read the newest of all the pending writes that cover it and are no
      -- discards, the deleted ones included.
      pub pending_delete_fully_overwritten-sources :
          (r : ℕ)
          → (info r).pos + (info r).len < u64_mod
          → (t : Overwriting) × (pending_delete_fully_overwritten info rb fuel
                (record { data_map = s.data_map; overwritten = overwritten })
                b
              ≡ some t)
            × (l : List ℕ) × (pending_sources info rb fuel (record s { data_map = t.data_map }) r
                ≡ some l)
            × ((x : ℕ) → covers info r x ≡ true → ReadFrom info queue x (last_covering info x l))
      pending_delete_fully_overwritten-sources r fit =
          let o =
            pending_delete_fully_overwritten-Overwrote info b rb fuel s overwritten queue i fits
              positive enough in
          let n =
            pending_sources-newest info rb fuel (record s { data_map = o.result.data_map })
              o.pending.holds o.pending.bounded r fit (omega (arith, length-survivors queue)) in
          (o.result, o.returns, n.0, n.1, λ x inside. survivors-ReadFrom x (n.2 x inside))
