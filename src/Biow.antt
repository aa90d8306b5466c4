-- ===== src/Biow.antt =====
-- module/bio_wrapper.h: the bio wrapper. Pointers to bio wrappers are numbers. The fields that stay as
-- they are while a bio wrapper waits are a record, which a function gives for each pointer; the fields
-- that the driver changes meanwhile (n_overlapped, lsid and the flags) are kept by their users.
use walb_driver.Common.{ℕ, Bool, ◌&&◌, add_u64, ltb, leb, ◌==◌, if◌then◌else◌}

pub record Biow : Type 0 where
  pub pos : ℕ
  pub len : ℕ
  pub lsid : ℕ
  pub discard : Bool

abbrev pub bio_wrapper_end : Biow → ℕ
bio_wrapper_end b = add_u64 b.pos b.len

abbrev pub bio_wrapper_is_overlap : Biow → Biow → Bool
bio_wrapper_is_overlap b c = ltb c.pos (bio_wrapper_end b) && ltb b.pos (bio_wrapper_end c)

-- `b` is fully overwritten by `c`.
abbrev pub bio_wrapper_is_overwritten_by : Biow → Biow → Bool
bio_wrapper_is_overwritten_by b c = leb c.pos b.pos && leb (bio_wrapper_end b) (bio_wrapper_end c)

-- A write through a pointer to one field of a bio wrapper.
abbrev pub put : {A : Type 0} → (ℕ → A) → ℕ → A → ℕ → A
put f p x q = if p == q then x else f q
