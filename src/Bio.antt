-- ===== src/Bio.antt =====
-- What the driver reads of a kernel `struct bio`: operation, first sector, size in sectors, and the
-- flags REQ_PREFLUSH and REQ_FUA (module/bio_util.h).
use walb_driver.Common.{ℕ, Bool, true, false}

-- bio_op: the operations that the driver tells apart.
pub data BioOp : Type 0 where
  read write discard flush : BioOp

pub record Bio : Type 0 where
  pub op : BioOp
  pub bi_sector : ℕ
  pub sectors : ℕ
  pub preflush : Bool
  pub fua : Bool

abbrev pub is_discard : BioOp → Bool
is_discard discard = true
is_discard _ = false

abbrev pub bio_is_discard : Bio → Bool
bio_is_discard b = is_discard b.op
