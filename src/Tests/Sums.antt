-- ===== src/Tests/Sums.antt =====
-- The checksum of include/linux/walb/checksum.h over concrete words.
use walb_driver.Common.{ℕ, ◌≡◌, ◌≢◌, List, [], ◌∷◌, All, arith}
use walb_driver.Checksum.Total.{IsWord}
use walb_driver.Checksum.Detect.{checksum_around, checksum_sealed, checksum_detects}

abbrev first_words : List ℕ
first_words = 4000000000 ∷ 77 ∷ []

abbrev last_words : List ℕ
last_words = 900000000 ∷ []

first-IsWord : All IsWord first_words
first-IsWord = (omega arith, (omega arith, tt))

last-IsWord : All IsWord last_words
last-IsWord = (omega arith, tt)

checksum_sealed_example :
    checksum_around first_words (checksum_around first_words 0 last_words 5) last_words 5 ≡ 0
checksum_sealed_example =
    checksum_sealed first_words last_words 5 first-IsWord last-IsWord (omega arith)

checksum_detects_example :
    checksum_around first_words 1 last_words 5 ≢ checksum_around first_words 2 last_words 5
checksum_detects_example =
    checksum_detects first_words last_words 1 2 5 first-IsWord last-IsWord (omega arith)
      (omega arith) (omega arith) (λ e. omega (arith, e))
