-- ===== src/Redo/Kept.antt =====
-- The records of a logpack header that redo keeps (module/redo.c), and their sizes counted once more.
use walb_driver.Common.{
  ℕ, zero, suc, ◌+◌, ◌%◌, ◌≤◌, ◌<◌, ◌≡◌, refl, ap, subst, ◌∙◌, inl, inr, true, List, [], ◌∷◌, All,
  take, length, arith, Bool-cases, if◌then◌else◌, u16_mod, test_bit_u32,
}
use walb_driver.Block.{capacity_pb}
use walb_driver.Logpack.{
  LogRecord, log_record_init, log_record_discard, log_record_padding, are_records_of,
}
use walb_driver.Logpack.Shape.{physical_size, Laid, Unused}
use walb_driver.Redo.{clear_records, total_of, paddings_of}

-- The records that are kept, at most `k` of them, stay; those behind them are zero.
pub take-clear_records : (k n : ℕ) (rs : List LogRecord) → take k (clear_records k n rs) ≡ take k rs
take-clear_records zero n rs = refl
take-clear_records (suc k) n [] = refl
take-clear_records (suc k) n (r ∷ rs) = ap (λ l. r ∷ l) (take-clear_records k n rs)

pub length-clear_records :
    (k n : ℕ) (rs : List LogRecord) → length (clear_records k n rs) ≡ length rs
length-clear_records k n [] = refl
length-clear_records (suc k) n (r ∷ rs) = ap suc (length-clear_records k n rs)
length-clear_records zero zero (r ∷ rs) = refl
length-clear_records zero (suc n) (r ∷ rs) = ap suc (length-clear_records zero n rs)

pub All-clear_records :
    (P : LogRecord → Type 0) (k n : ℕ) (rs : List LogRecord)
    → P log_record_init
    → All P rs
    → All P (clear_records k n rs)
All-clear_records P k n [] i a = tt
All-clear_records P (suc k) n (r ∷ rs) i a = (a.0, All-clear_records P k n rs i a.1)
All-clear_records P zero zero (r ∷ rs) i a = a
All-clear_records P zero (suc n) (r ∷ rs) i a = (i, All-clear_records P zero n rs i a.1)

pub Unused-clear_records :
    (k n : ℕ) (rs : List LogRecord) → Unused (k + n) rs → Unused k (clear_records k n rs)
Unused-clear_records k n [] u = tt
Unused-clear_records (suc k) n (r ∷ rs) u =
    Unused-clear_records k n rs
      (subst (λ m. Unused m (r ∷ rs)) {x = suc k + n} {y = suc (k + n)} (omega arith) u)
Unused-clear_records zero zero (r ∷ rs) u = u
Unused-clear_records zero (suc n) (r ∷ rs) u = (
  refl,
  Unused-clear_records zero n rs (
      subst (λ m. Unused m rs) {x = n} {y = 0 + n} (omega arith)
        (subst (λ m. Unused m (r ∷ rs)) {x = 0 + suc n} {y = suc n} (omega arith) u)),
)

pub are_records_of-clear_records :
    (lsid k n m : ℕ) (rs : List LogRecord)
    → k ≤ m
    → are_records_of lsid m rs ≡ true
    → are_records_of lsid k (clear_records k n rs) ≡ true
unfolding are_records_of
are_records_of-clear_records lsid zero n m rs l e = refl
are_records_of-clear_records lsid (suc k) n zero rs l e = absurd (omega arith)
are_records_of-clear_records lsid (suc k) n (suc m) [] l e = e
are_records_of-clear_records lsid (suc k) n (suc m) (r ∷ rs) l e =
    ground (arith, are_records_of-clear_records lsid k n m rs)

-- Physical blocks of the first records, and paddings among them, with no wrap.
abbrev pub size_of : ℕ → ℕ → List LogRecord → ℕ
size_of pbs zero rs = 0
size_of pbs (suc k) [] = 0
size_of pbs (suc k) (r ∷ rs) = physical_size pbs r + size_of pbs k rs

abbrev pub count_paddings : ℕ → List LogRecord → ℕ
count_paddings zero rs = 0
count_paddings (suc k) [] = 0
count_paddings (suc k) (r ∷ rs) =
    (if test_bit_u32 log_record_padding r.flags then 1 else 0) + count_paddings k rs

pub size_of-le : (pbs k n : ℕ) (rs : List LogRecord) → k ≤ n → size_of pbs k rs ≤ size_of pbs n rs
size_of-le pbs zero n rs l = omega arith
size_of-le pbs (suc k) zero rs l = absurd (omega arith)
size_of-le pbs (suc k) (suc n) [] l = omega arith
size_of-le pbs (suc k) (suc n) (r ∷ rs) l = omega (arith, size_of-le pbs k n rs (omega arith))

pub count_paddings-le :
    (k n : ℕ) (rs : List LogRecord) → k ≤ n → count_paddings k rs ≤ count_paddings n rs
count_paddings-le zero n rs l = omega arith
count_paddings-le (suc k) zero rs l = absurd (omega arith)
count_paddings-le (suc k) (suc n) [] l = omega arith
count_paddings-le (suc k) (suc n) (r ∷ rs) l = omega (arith, count_paddings-le k n rs (omega arith))

pub Laid-size_of :
    (pbs ring lsid end n : ℕ) (rs : List LogRecord)
    → Laid pbs ring lsid (take n rs) end
    → end ≡ lsid + size_of pbs n rs
Laid-size_of pbs ring lsid end zero rs l = omega (arith, l)
Laid-size_of pbs ring lsid end (suc n) [] l = omega (arith, l)
Laid-size_of pbs ring lsid end (suc n) (r ∷ rs) l =
    omega (arith, Laid-size_of pbs ring (lsid + physical_size pbs r) end n rs l.2)

pub Laid-start :
    (pbs ring lsid end k n : ℕ) (rs : List LogRecord)
    → k ≤ n
    → Laid pbs ring lsid (take n rs) end
    → Laid pbs ring lsid (take k rs) (lsid + size_of pbs k rs)
Laid-start pbs ring lsid end zero n rs h l = omega arith
Laid-start pbs ring lsid end (suc k) zero rs h l = absurd (omega arith)
Laid-start pbs ring lsid end (suc k) (suc n) [] h l = omega arith
Laid-start pbs ring lsid end (suc k) (suc n) (r ∷ rs) h l = (
  l.0,
  l.1,
  subst (Laid pbs ring (lsid + physical_size pbs r) (take k rs))
      {x = lsid + physical_size pbs r + size_of pbs k rs} (omega arith)
      (Laid-start pbs ring (lsid + physical_size pbs r) end k n rs (omega arith) l.2),
)

-- The recounts, where they do not wrap.
pub total_of-size_of :
    (pbs k n : ℕ) (rs : List LogRecord) (total : ℕ)
    → total + size_of pbs k rs < u16_mod
    → total_of pbs k (clear_records k n rs) total ≡ total + size_of pbs k rs
total_of-size_of pbs zero n rs total h = omega arith
total_of-size_of pbs (suc k) n [] total h = omega arith
total_of-size_of pbs (suc k) n (r ∷ rs) total h =
    elim (Bool-cases (test_bit_u32 log_record_discard r.flags)) [
      | inl e ↦ rw e (total_of-size_of pbs k n rs total (ground (arith, h, e)) ∙ omega arith)
      | inr e ↦
          let fits : total + (capacity_pb pbs r.io_size + size_of pbs k rs) < u16_mod =
            ground (arith, h, e) in
          let small : (total + capacity_pb pbs r.io_size) % u16_mod
              ≡ total + capacity_pb pbs r.io_size =
            omega (arith, fits) in
          rw (e, small)
            (total_of-size_of pbs k n rs (total + capacity_pb pbs r.io_size) (omega (arith, fits))
              ∙ omega arith)
    ]

pub paddings_of-count :
    (k n : ℕ) (rs : List LogRecord) (paddings : ℕ)
    → paddings + count_paddings k rs < u16_mod
    → paddings_of k (clear_records k n rs) paddings ≡ paddings + count_paddings k rs
paddings_of-count zero n rs paddings h = omega arith
paddings_of-count (suc k) n [] paddings h = omega arith
paddings_of-count (suc k) n (r ∷ rs) paddings h =
    elim (Bool-cases (test_bit_u32 log_record_padding r.flags)) [
      | inl e ↦
          let fits : paddings + (1 + count_paddings k rs) < u16_mod = ground (arith, h, e) in
          let small : (paddings + 1) % u16_mod ≡ paddings + 1 = omega (arith, fits) in
          rw (e, small)
            (paddings_of-count k n rs (paddings + 1) (omega (arith, fits)) ∙ omega arith)
      | inr e ↦ rw e (paddings_of-count k n rs paddings (ground (arith, h, e)) ∙ omega arith)
    ]
