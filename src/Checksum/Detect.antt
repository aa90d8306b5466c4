-- ===== src/Checksum/Detect.antt =====
-- What the checksum of a block is for: a block that holds its own checksum sums to zero, as the
-- readers of super sectors and logpack headers test, and a change of one word is noticed.
use walb_driver.Common.{
  ℕ, ◌+◌, ◌-◌, ◌*◌, ◌%◌, ◌<◌, ◌≡◌, ◌≢◌, sym, ◌∙◌, List, ◌∷◌, ◌++◌, length, All, All-append, u32_mod,
  arith,
}
use walb_driver.Checksum.{checksum}
use walb_driver.Checksum.Total.{IsWord, encode, total, total-append, checksum-total}

-- A block with the word `w` between two parts.
abbrev pub around : List ℕ → ℕ → List ℕ → List ℕ
around us w vs = us ++ w ∷ vs

abbrev pub checksum_around : List ℕ → ℕ → List ℕ → ℕ → ℕ
checksum_around us w vs salt = checksum (encode (around us w vs)) (4 * length (around us w vs)) salt

module _ (us vs : List ℕ) (hu : All IsWord us) (hv : All IsWord vs) where
  around-total :
      (w salt : ℕ)
      → w < u32_mod
      → salt < u32_mod
      → checksum_around us w vs salt
        ≡ (u32_mod - (salt + (total us + (w + total vs))) % u32_mod) % u32_mod
  around-total w salt hw hs = rw (
    checksum-total (around us w vs) salt (All-append IsWord us (w ∷ vs) hu (hw, hv)) hs,
    total-append us (w ∷ vs),
  )

negate_sum :
    (c s tu tv : ℕ)
    → c ≡ (u32_mod - (s + (tu + (0 + tv))) % u32_mod) % u32_mod
    → (c < u32_mod) × ((u32_mod - (s + (tu + (c + tv))) % u32_mod) % u32_mod ≡ 0)
negate_sum c s tu tv e = omega arith

differ :
    (a b s tu tv : ℕ)
    → a < u32_mod
    → b < u32_mod
    → (u32_mod - (s + (tu + (a + tv))) % u32_mod) % u32_mod
      ≡ (u32_mod - (s + (tu + (b + tv))) % u32_mod) % u32_mod
    → a ≡ b
differ a b s tu tv ha hb e = omega arith

-- Put in place of a zero word, the checksum of a block makes the checksum of the block zero,
-- wherever that word stands.
pub checksum_sealed :
    (us vs : List ℕ) (salt : ℕ)
    → All IsWord us
    → All IsWord vs
    → salt < u32_mod
    → checksum_around us (checksum_around us 0 vs salt) vs salt ≡ 0
checksum_sealed us vs salt hu hv hs =
    let c = checksum_around us 0 vs salt in
    let n =
      negate_sum c salt (total us) (total vs) (around-total us vs hu hv 0 salt (omega arith) hs) in
    around-total us vs hu hv c salt n.0 hs ∙ n.1

-- Two blocks that differ in exactly one word have different checksums.
pub checksum_detects :
    (us vs : List ℕ) (a b salt : ℕ)
    → All IsWord us
    → All IsWord vs
    → a < u32_mod
    → b < u32_mod
    → salt < u32_mod
    → a ≢ b
    → checksum_around us a vs salt ≢ checksum_around us b vs salt
checksum_detects us vs a b salt hu hv ha hb hs ne e =
    let sum_a = around-total us vs hu hv a salt ha hs in
    let sum_b = around-total us vs hu hv b salt hb hs in
    ne (differ a b salt (total us) (total vs) ha hb (sym sum_a ∙ (e ∙ sum_b)))
