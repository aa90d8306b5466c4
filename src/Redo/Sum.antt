-- ===== src/Redo/Sum.antt =====
-- calc_checksum_for_redo (module/redo.c) against the checksum of the data in one piece.
use walb_driver.Common.{
  ℕ, zero, suc, ◌+◌, ◌-◌, ◌*◌, ◌/◌, ◌≤◌, ◌≡◌, refl, sym, ap, ◌∙◌, inl, inr, true, List, [], ◌∷◌,
  ◌++◌, All, min, length, arith, leb, Bool-cases,
}
use walb_driver.Block.{is_valid_pbs, n_lb_in_pb}
use walb_driver.Checksum.{checksum, checksum_partial, checksum_finish, sum_words}
use walb_driver.Checksum.Total.{encode, checksum_partial-append}
use walb_driver.Redo.{LogBlock, sum_blocks, calc_checksum_for_redo}

-- A block of the log is a physical block of whole words.
pub record IsBlock (pbs : ℕ) (b : LogBlock) : Type 0 where
  pub words : List ℕ
  pub bytes : b.bytes ≡ encode words
  pub size : 4 * length words ≡ pbs

abbrev pub all_bytes : List LogBlock → List ℕ
all_bytes [] = []
all_bytes (b ∷ bs) = b.bytes ++ all_bytes bs

pub pbs_lb : (pbs : ℕ) → is_valid_pbs pbs ≡ true → n_lb_in_pb pbs * 512 ≡ pbs
unfolding is_valid_pbs n_lb_in_pb
pbs_lb pbs v = ground arith

nothing_left : (sum : ℕ) (bytes : List ℕ) → checksum_partial sum bytes 0 ≡ sum
unfolding checksum_partial
nothing_left sum bytes = refl

module _ (pbs : ℕ) (v : is_valid_pbs pbs ≡ true) where
  no_sum : (bs : List LogBlock) (sum : ℕ) → sum_blocks pbs 0 sum bs ≡ sum
  no_sum [] sum = refl
  no_sum (b ∷ bs) sum =
      let none_left : min (n_lb_in_pb pbs) 0 ≡ 0 = omega arith in
      rw (none_left, nothing_left sum b.bytes) (no_sum bs sum)

  -- The words of a block and of some of what stands behind it.
  part :
      (us rest : List ℕ) (sum n : ℕ)
      → 4 * length us ≡ pbs
      → n_lb_in_pb pbs ≤ n
      → checksum_partial sum (encode us ++ rest) (n * 512)
        ≡ checksum_partial (checksum_partial sum (encode us) pbs) rest ((n - n_lb_in_pb pbs) * 512)
  part us rest sum n e l =
      let split : n * 512 ≡ 4 * length us + (n - n_lb_in_pb pbs) * 512 =
        omega (arith, pbs_lb pbs v) in
      ap (checksum_partial sum (encode us ++ rest)) split
      ∙ checksum_partial-append us rest sum ((n - n_lb_in_pb pbs) * 512)
      ∙ ap
          (λ k.
            checksum_partial (checksum_partial sum (encode us) k) rest ((n - n_lb_in_pb pbs) * 512))
          e

  sum_words-start :
      (us rest : List ℕ) (sum m : ℕ)
      → m ≤ length us
      → sum_words m sum (encode us ++ rest) ≡ sum_words m sum (encode us)
  sum_words-start us rest sum zero l = refl
  sum_words-start [] rest sum (suc m) l = absurd (omega arith)
  sum_words-start (u ∷ us) rest sum (suc m) l = sum_words-start us rest _ m (omega arith)

  start :
      (us rest : List ℕ) (sum n : ℕ)
      → 4 * length us ≡ pbs
      → n ≤ n_lb_in_pb pbs
      → checksum_partial sum (encode us ++ rest) (n * 512)
        ≡ checksum_partial sum (encode us) (n * 512)
  unfolding checksum_partial
  start us rest sum n e l = sum_words-start us rest sum (n * 512 / 4) (omega (arith, pbs_lb pbs v))

  sum_blocks-all :
      (bs : List LogBlock) (n sum : ℕ)
      → All (IsBlock pbs) bs
      → n ≤ length bs * n_lb_in_pb pbs
      → sum_blocks pbs n sum bs ≡ checksum_partial sum (all_bytes bs) (n * 512)
  sum_blocks-all [] n sum a l = let e : n ≡ 0 = omega arith in rw e (sym (nothing_left sum []))
  sum_blocks-all (b ∷ bs) n sum a l = elim (Bool-cases (leb n (n_lb_in_pb pbs))) [
    | inl f ↦ last (ground (arith, f))
    | inr f ↦ more (ground (arith, f)) (
        sum_blocks-all bs (n - n_lb_in_pb pbs) (checksum_partial sum (encode a.0.words) pbs) a.1
          (omega (arith, l)))
  ]
    where
      last :
          n ≤ n_lb_in_pb pbs
          → sum_blocks pbs n sum (b ∷ bs) ≡ checksum_partial sum (all_bytes (b ∷ bs)) (n * 512)
      last k =
          let m : min (n_lb_in_pb pbs) n ≡ n = omega arith in
          let d : n - n ≡ 0 = omega arith in
          rw (m, d, a.0.bytes)
            (no_sum bs (checksum_partial sum (encode a.0.words) (n * 512))
              ∙ sym (start a.0.words (all_bytes bs) sum n a.0.size k))

      more :
          n_lb_in_pb pbs ≤ n
          → sum_blocks pbs (n - n_lb_in_pb pbs) (checksum_partial sum (encode a.0.words) pbs) bs
            ≡ checksum_partial
                (checksum_partial sum (encode a.0.words) pbs)
                (all_bytes bs)
                ((n - n_lb_in_pb pbs) * 512)
          → sum_blocks pbs n sum (b ∷ bs) ≡ checksum_partial sum (all_bytes (b ∷ bs)) (n * 512)
      more k rest =
          let m : min (n_lb_in_pb pbs) n ≡ n_lb_in_pb pbs = omega arith in
          rw (m, a.0.bytes, pbs_lb pbs v)
            (rest ∙ sym (part a.0.words (all_bytes bs) sum n a.0.size k))

  -- calc_checksum_for_redo of the blocks of a write is the checksum of the data in one piece, for a valid
  -- block size, blocks of whole words, and enough of them.
  pub calc_checksum_for_redo-checksum :
      (bs : List LogBlock) (n_lb salt : ℕ)
      → All (IsBlock pbs) bs
      → n_lb ≤ length bs * n_lb_in_pb pbs
      → calc_checksum_for_redo pbs n_lb salt bs ≡ checksum (all_bytes bs) (n_lb * 512) salt
  unfolding calc_checksum_for_redo checksum
  calc_checksum_for_redo-checksum bs n_lb salt a l =
      ap checksum_finish (sum_blocks-all bs n_lb salt a l)
