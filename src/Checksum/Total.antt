-- ===== src/Checksum/Total.antt =====
-- The loop of `checksum_partial` against the plain sum of the words, modulo 2 ^ 32. A block of whole
-- words is the encoding of a list of `u32`.
use walb_driver.Common.{
  ℕ, suc, ◌+◌, ◌-◌, ◌*◌, ◌/◌, ◌%◌, ◌<◌, ◌≡◌, refl, ◌∙◌, ap, List, [], ◌∷◌, ◌++◌, length, All,
  u32_mod, add_u32, arith,
}
use walb_driver.Checksum.{le32, sum_words, checksum_partial, checksum}

abbrev pub IsWord : ℕ → Type 0
IsWord w = w < u32_mod

-- The bytes of a list of words.
abbrev pub encode : List ℕ → List ℕ
encode [] = []
encode (w ∷ ws) = (w % 256) ∷ (w / 256 % 256) ∷ (w / 65536 % 256) ∷ (w / 16777216 % 256) ∷ encode ws

-- The words of a list of bytes.
abbrev pub words_of : List ℕ → List ℕ
words_of (b0 ∷ b1 ∷ b2 ∷ b3 ∷ p) = le32 b0 b1 b2 b3 ∷ words_of p
words_of p = []

-- The sum of the words, with no wrap.
abbrev pub total : List ℕ → ℕ
total [] = 0
total (w ∷ ws) = w + total ws

pub total-append : (us vs : List ℕ) → total (us ++ vs) ≡ total us + total vs
total-append [] vs = omega arith
total-append (u ∷ us) vs = omega (arith, total-append us vs)

le32-bytes :
    (w : ℕ) → IsWord w → le32 (w % 256) (w / 256 % 256) (w / 65536 % 256) (w / 16777216 % 256) ≡ w
le32-bytes w h = omega arith

pub words_of-encode : (ws : List ℕ) → All IsWord ws → words_of (encode ws) ≡ ws
words_of-encode [] h = refl
words_of-encode (w ∷ ws) h = rw (le32-bytes w h.0) (ap (λ l. w ∷ l) (words_of-encode ws h.1))

shift : (s a t : ℕ) → (add_u32 s a + t) % u32_mod ≡ (s + (a + t)) % u32_mod
shift s a t = omega arith

sum_words-total :
    (ws : List ℕ) (sum : ℕ)
    → All IsWord ws
    → sum < u32_mod
    → sum_words (length ws) sum (encode ws) ≡ (sum + total ws) % u32_mod
sum_words-total [] sum h k = omega arith
sum_words-total (w ∷ ws) sum h k =
    rw (le32-bytes w h.0)
      (sum_words-total ws (add_u32 sum w) h.1 (omega arith) ∙ shift sum w (total ws))

pub checksum_partial-total :
    (ws : List ℕ) (sum : ℕ)
    → All IsWord ws
    → sum < u32_mod
    → checksum_partial sum (encode ws) (4 * length ws) ≡ (sum + total ws) % u32_mod
unfolding checksum_partial
checksum_partial-total ws sum h k =
    let rounds : 4 * length ws / 4 ≡ length ws = omega arith in
    rw rounds (sum_words-total ws sum h k)

-- The checksum is the negated sum of the words and the salt.
pub checksum-total :
    (ws : List ℕ) (salt : ℕ)
    → All IsWord ws
    → salt < u32_mod
    → checksum (encode ws) (4 * length ws) salt ≡ (u32_mod - (salt + total ws) % u32_mod) % u32_mod
unfolding checksum
checksum-total ws salt h k = rw (checksum_partial-total ws salt h k) (omega arith)

sum_words-append :
    (us : List ℕ) (rest : List ℕ) (sum m : ℕ)
    → sum_words (length us + m) sum (encode us ++ rest)
      ≡ sum_words m (sum_words (length us) sum (encode us)) rest
sum_words-append [] rest sum m = ap (λ n. sum_words n sum rest) (omega arith)
sum_words-append (u ∷ us) rest sum m =
    let rounds : length (u ∷ us) + m ≡ suc (length us + m) = omega arith in
    rw rounds (sum_words-append us rest (add_u32 sum _) m)

-- The sum may be taken in pieces: over a block of whole words and on over what follows is over the
-- whole. The second piece may have any bytes and any size.
pub checksum_partial-append :
    (us rest : List ℕ) (sum size : ℕ)
    → checksum_partial sum (encode us ++ rest) (4 * length us + size)
      ≡ checksum_partial (checksum_partial sum (encode us) (4 * length us)) rest size
unfolding checksum_partial
checksum_partial-append us rest sum size =
    let all : (4 * length us + size) / 4 ≡ length us + size / 4 = omega arith in
    let one : 4 * length us / 4 ≡ length us = omega arith in
    rw (all, one) (sum_words-append us rest sum (size / 4))
