-- ===== src/Lsid/Moves.antt =====
-- What each step of the pipeline does to the order of the lsids (module/kern.h, struct lsid_set).
use walb_driver.Common.{
  ℕ, ◌≤◌, ◌≡◌, refl, subst, sym, inl, inr, ◌⊎◌, Bool, true, false, Option, none, some, List, [],
  ◌∷◌, ◌++◌, All, All-append, arith, Bool-cases, ltb,
}
use walb_driver.Lsid.{
  LsidSet, LogState, force_flush_begin, force_flush_end, store_latest, raise_permanent,
  update_flush_lsid_if_necessary,
}
use walb_driver.Lsid.Pipeline.{LogPack, Pipe, AtMost, Chained, IsTight, mark_first}
use walb_driver.Lsid.Order.{
  AtLeast, Inv, Chained-append, mark_first-Chained, mark_first-IsTight, front-append, raise_flush,
  raise_permanent-Inv, Chained-le,
}

abbrev pub Good : Pipe → Type 0
Good s = Inv s.log.lsids s

-- What update_flush_lsid_if_necessary does to the lsids.
record Raised (l m : LsidSet) (n : ℕ) : Type 0 where
  pub f : ℕ
  pub eq : m ≡ record l { flush = f }
  pub above : (l.flush ≤ f) × (n ≤ f)
  pub one_of : (f ≡ l.flush) ⊎ (f ≡ n)

update_flush-Raised :
    (j i n : ℕ) (s : LogState) → Raised s.lsids (update_flush_lsid_if_necessary j i s n).lsids n
unfolding update_flush_lsid_if_necessary
update_flush-Raised j i n s = elim (Bool-cases (ltb s.lsids.flush n)) [
  | inl e ↦ record { f = n; eq = rw e refl; above = ground (arith, e); one_of = inr refl }
  | inr e ↦ record {
    f = s.lsids.flush;
    eq = rw e refl;
    above = ground (arith, e);
    one_of = inl refl;
  }
]

raise_permanent-lsids :
    (n : ℕ) (s : LogState)
    → (((raise_permanent n s).1.lsids ≡ record (s.lsids) { permanent = n })
        × (s.lsids.permanent ≤ n))
      ⊎ ((raise_permanent n s).1.lsids ≡ s.lsids)
unfolding raise_permanent
raise_permanent-lsids n s = elim (Bool-cases (ltb s.lsids.permanent n)) [
  | inl e ↦ rw e (inl (refl, ground (arith, e)))
  | inr e ↦ rw e (inr refl)
]

-- permanent_lsid may go up to what a flush covers.
pub permanent-Inv :
    {s : Pipe} (n : ℕ) → Good s → n ≤ s.log.lsids.flush → Inv (raise_permanent n s.log).1.lsids s
permanent-Inv {s} n i k = elim (raise_permanent-lsids n s.log) [
  | inl p ↦ rw p.0 (raise_permanent-Inv i n p.1 k)
  | inr e ↦ rw e i
]

flush-Inv :
    {l m : LsidSet} {s : Pipe}
    → Inv l s
    → Raised l m l.completed
    → Inv m s × (l.completed ≤ m.flush)
flush-Inv {l} {m} {s} i r = rw r.eq (raise_flush i r.f r.above.0 (bound r.one_of), r.above.1)
  where
    bound : (r.f ≡ l.flush) ⊎ (r.f ≡ l.completed) → r.f ≤ l.completed
    bound (inl e) = omega (arith, e, i.order.flushable)
    bound (inr e) = omega (arith, e)

pub middle :
    (P : ℕ → Type 0) (xs ys : List ℕ) (n : ℕ) → All P (xs ++ n ∷ ys) → P n × All P (xs ++ ys)
middle P [] ys n a = a
middle P (x ∷ xs) ys n a = let r = middle P xs ys n a.1 in (r.0, (a.0, r.1))

pub at : (m : ℕ) {o : Option ℕ} {n : ℕ} → o ≡ some n → AtMost m o → n ≤ m
at m e h = subst (AtMost m) e h

pub at_least : (m : ℕ) {o : Option ℕ} {n : ℕ} → o ≡ some n → AtLeast m o → m ≤ n
at_least m e h = subst (AtLeast m) e h

-- New packs join the queue.
create-Inv :
    {s : Pipe} {l : LsidSet} (latest : ℕ) (n : Option ℕ) (packs : List LogPack)
    → Inv l s
    → Chained l.latest packs latest
    → All IsTight packs
    → All (λ (p : LogPack). p.new_permanent ≡ none) packs
    → AtMost l.flush n
    → Inv (record l { latest = latest }) (record s { waiting = s.waiting ++ mark_first n packs })
create-Inv {s} {l} latest n packs i c tight unmarked k =
    let coming =
      Chained-append i.mid l.latest latest s.waiting (mark_first n packs) i.coming
        (mark_first-Chained l.latest latest n packs c) in
    record {
      order = record {
        oldest_first = i.order.oldest_first;
        synced = i.order.synced;
        logged = i.order.logged;
        flushed = i.order.flushed;
        flushable = i.order.flushable;
        created = omega (arith, i.order.created, Chained-le l.latest latest packs c);
      };
      flushing = i.flushing;
      headers =
          All-append (λ (p : LogPack). AtMost l.flush p.new_permanent) s.waiting
            (mark_first n packs) i.headers (marked packs unmarked);
      syncing = i.syncing;
      setting = i.setting;
      mid = i.mid;
      collected = i.collected;
      coming = coming;
      past = i.past;
      before =
          omega (arith, i.before, front-append i.mid s.waiting (mark_first n packs) latest coming);
      tight = (
        i.tight.0,
        All-append IsTight s.waiting (mark_first n packs) i.tight.1
            (mark_first-IsTight n packs tight),
      );
    }
  where
    none_marked :
        (ps : List LogPack)
        → All (λ (p : LogPack). p.new_permanent ≡ none) ps
        → All (λ (p : LogPack). AtMost l.flush p.new_permanent) ps
    none_marked [] a = tt
    none_marked (p ∷ ps) a = (subst (AtMost l.flush) (sym a.0) tt, none_marked ps a.1)

    marked :
        (ps : List LogPack)
        → All (λ (p : LogPack). p.new_permanent ≡ none) ps
        → All (λ (p : LogPack). AtMost l.flush p.new_permanent) (mark_first n ps)
    marked [] a = tt
    marked (p ∷ ps) a = (k, none_marked ps a.1)

-- The invariant with other flushes, another sync and another ioctl; it does not look at the log state but
-- for the lsids.
pub with_rest :
    {l : LsidSet} {s : Pipe} (log : LogState) (flushing : List ℕ) (syncing setting : Option ℕ)
    → Inv l s
    → All (λ n. n ≤ l.flush) flushing
    → AtMost l.written syncing × AtLeast l.prev_written syncing
    → AtMost l.prev_written setting
    → Inv l (record s { log = log; flushing = flushing; syncing = syncing; setting = setting })
with_rest log flushing syncing setting i f y e = record {
  order = i.order;
  flushing = f;
  headers = i.headers;
  syncing = y;
  setting = e;
  mid = i.mid;
  collected = i.collected;
  coming = i.coming;
  past = i.past;
  before = i.before;
  tight = i.tight;
}

pub with_log : {l : LsidSet} {s : Pipe} (log : LogState) → Inv l s → Inv l (record s { log = log })
with_log {l} {s} log i =
    with_rest log s.flushing s.syncing s.setting i i.flushing i.syncing i.setting

pub sync-Inv :
    {l : LsidSet} {s : Pipe} (log : LogState) (w : ℕ)
    → Inv l s
    → w ≤ l.written
    → l.prev_written ≤ w
    → Inv (record l { prev_written = w }) (record s { log = log; syncing = none })
sync-Inv {l} {s} log w i h k = record {
  order = record {
    oldest_first = omega (arith, i.order.oldest_first);
    synced = h;
    logged = i.order.logged;
    flushed = i.order.flushed;
    flushable = i.order.flushable;
    created = i.order.created;
  };
  flushing = i.flushing;
  headers = i.headers;
  syncing = (tt, tt);
  setting = still s.setting i.setting;
  mid = i.mid;
  collected = i.collected;
  coming = i.coming;
  past = i.past;
  before = i.before;
  tight = i.tight;
}
  where
    still : (o : Option ℕ) → AtMost l.prev_written o → AtMost w o
    still none h = tt
    still (some x) h = omega arith

pub oldest-Inv :
    {l : LsidSet} {s : Pipe} (log : LogState) (x : ℕ)
    → Inv l s
    → x ≤ l.prev_written
    → Inv (record l { oldest = x }) (record s { log = log; setting = none })
oldest-Inv log x i h = record {
  order = record {
    oldest_first = h;
    synced = i.order.synced;
    logged = i.order.logged;
    flushed = i.order.flushed;
    flushable = i.order.flushable;
    created = i.order.created;
  };
  flushing = i.flushing;
  headers = i.headers;
  syncing = i.syncing;
  setting = tt;
  mid = i.mid;
  collected = i.collected;
  coming = i.coming;
  past = i.past;
  before = i.before;
  tight = i.tight;
}

pub begin-Inv :
    {s : Pipe} (j i : ℕ)
    → Good s
    → (let (n, log) = force_flush_begin j i s.log in
        Good (record s { log = log; flushing = n ∷ s.flushing }))
unfolding force_flush_begin
begin-Inv {s} j i v =
    let raised = flush-Inv v (update_flush-Raised j i s.log.lsids.completed s.log) in
    with_rest (force_flush_begin j i s.log).1 (s.log.lsids.completed ∷ s.flushing) s.syncing
      s.setting raised.0 (raised.1, raised.0.flushing) raised.0.syncing raised.0.setting

pub store-Inv :
    {s : Pipe} (j i latest : ℕ) (is_flush : Bool) (packs : List LogPack)
    → Good s
    → Chained s.log.lsids.latest packs latest
    → All IsTight packs
    → All (λ (p : LogPack). p.new_permanent ≡ none) packs
    → (let (n, log) = store_latest j i latest is_flush s.log in
        Good (record s { log = log; waiting = s.waiting ++ mark_first n packs }))
unfolding store_latest
store-Inv {s} j i latest false packs v c tight unmarked =
    with_log (store_latest j i latest false s.log).1
      (create-Inv latest none packs v c tight unmarked tt)
store-Inv {s} j i latest true packs v c tight unmarked =
    let s' = record (s.log) { lsids = record (s.log.lsids) { latest = latest } } in
    let r = update_flush-Raised j i s.log.lsids.completed s' in
    let raised =
      flush-Inv {m = record (s.log.lsids) { flush = r.f }} v
        (record { f = r.f; eq = refl; above = r.above; one_of = r.one_of }) in
    subst
      (λ m. Inv m (record s {
        log = (store_latest j i latest true s.log).1;
        waiting = s.waiting ++ mark_first (some s.log.lsids.completed) packs;
      }))
      (sym r.eq)
      (with_log (store_latest j i latest true s.log).1
        (create-Inv latest (some s.log.lsids.completed) packs raised.0 c tight unmarked raised.1))

pub end-Inv :
    {s : Pipe} (xs ys : List ℕ) (n : ℕ)
    → Good s
    → n ≤ s.log.lsids.flush
    → All (λ x. x ≤ s.log.lsids.flush) (xs ++ ys)
    → Good (record s { log = (force_flush_end true n s.log).1; flushing = xs ++ ys })
unfolding force_flush_end
end-Inv {s} xs ys n v k rest =
    let kept = with_rest s.log (xs ++ ys) s.syncing s.setting v rest v.syncing v.setting in
    with_log (raise_permanent n s.log).1 (permanent-Inv n kept k)
