-- ===== src/Lsid/Order.antt =====
-- The order of the lsids that module/kern.h promises, for every order of the steps.
use walb_driver.Common.{
  ℕ, ◌≤◌, ◌≡◌, refl, subst, sym, Option, none, some, List, [], ◌∷◌, ◌++◌, All, All-append, arith,
}
use walb_driver.Lsid.{LsidSet}
use walb_driver.Lsid.Pipeline.{LogPack, Pipe, AtMost, EndsAt, Fits, Chained, IsTight, mark_first}

pub record IsOrdered (l : LsidSet) : Type 0 where
  pub oldest_first : l.oldest ≤ l.prev_written
  pub synced : l.prev_written ≤ l.written
  pub logged : l.written ≤ l.permanent
  pub flushed : l.permanent ≤ l.flush
  pub flushable : l.flush ≤ l.completed
  pub created : l.completed ≤ l.latest

abbrev pub AtLeast : ℕ → Option ℕ → Type 0
AtLeast m none = Unit
AtLeast m (some n) = m ≤ n

-- The end of the first pack that is not complete.
abbrev pub front : ℕ → List LogPack → ℕ
front mid [] = mid
front mid (p ∷ ps) = p.end

-- The lsids with the rest of the state.
pub record Inv (l : LsidSet) (s : Pipe) : Type 0 where
  pub order : IsOrdered l
  pub flushing : All (λ n. n ≤ l.flush) s.flushing
  pub headers : All (λ (p : LogPack). AtMost l.flush p.new_permanent) s.waiting
  pub syncing : AtMost l.written s.syncing × AtLeast l.prev_written s.syncing
  pub setting : AtMost l.prev_written s.setting
  pub mid : ℕ
  pub collected : Chained l.written s.gc mid
  pub coming : Chained mid s.waiting l.latest
  pub past : mid ≤ l.completed
  pub before : l.completed ≤ front mid s.waiting
  pub tight : All IsTight s.gc × All IsTight s.waiting

pub Chained-le : (start end : ℕ) (ps : List LogPack) → Chained start ps end → start ≤ end
Chained-le start end [] c = omega (arith, c)
Chained-le start end (p ∷ ps) c = omega (arith, c.0, Chained-le p.end end ps c.2)

pub Chained-append :
    (start mid end : ℕ) (ps qs : List LogPack)
    → Chained start ps mid
    → Chained mid qs end
    → Chained start (ps ++ qs) end
Chained-append start mid end [] qs c d = subst (λ x. Chained x qs end) (sym c) d
Chained-append start mid end (p ∷ ps) qs c d = (c.0, c.1, Chained-append p.end mid end ps qs c.2 d)

pub mark_first-Chained :
    (start end : ℕ) (n : Option ℕ) (ps : List LogPack)
    → Chained start ps end
    → Chained start (mark_first n ps) end
mark_first-Chained start end n [] c = c
mark_first-Chained start end n (p ∷ ps) c = c

pub mark_first-IsTight :
    (n : Option ℕ) (ps : List LogPack) → All IsTight ps → All IsTight (mark_first n ps)
mark_first-IsTight n [] a = a
mark_first-IsTight n (p ∷ ps) a = a

All-le : (m n : ℕ) (xs : List ℕ) → m ≤ n → All (λ x. x ≤ m) xs → All (λ x. x ≤ n) xs
All-le m n [] l a = tt
All-le m n (x ∷ xs) l a = (omega arith, All-le m n xs l a.1)

headers-le :
    (m n : ℕ) (ps : List LogPack)
    → m ≤ n
    → All (λ (p : LogPack). AtMost m p.new_permanent) ps
    → All (λ (p : LogPack). AtMost n p.new_permanent) ps
headers-le m n [] l a = tt
headers-le m n (p ∷ ps) l a = (raise p.new_permanent a.0, headers-le m n ps l a.1)
  where
    raise : (o : Option ℕ) → AtMost m o → AtMost n o
    raise none h = tt
    raise (some x) h = omega arith

pub front-append :
    (mid : ℕ) (ps qs : List LogPack) (end : ℕ)
    → Chained mid (ps ++ qs) end
    → front mid ps ≤ front mid (ps ++ qs)
front-append mid [] [] end c = omega arith
front-append mid [] (q ∷ qs) end c = c.0
front-append mid (p ∷ ps) qs end c = omega arith

front-le : (mid end : ℕ) (ps : List LogPack) → Chained mid ps end → front mid ps ≤ end
front-le mid end [] c = omega (arith, c)
front-le mid end (p ∷ ps) c = Chained-le p.end end ps c.2

pub after_front :
    (p : LogPack) (ps : List LogPack) (end : ℕ) → Chained p.end ps end → p.end ≤ front p.end ps
after_front p [] end c = omega arith
after_front p (q ∷ ps) end c = c.0

module _ {l : LsidSet} {s : Pipe} (i : Inv l s) where
  -- flush_lsid goes up, not beyond completed_lsid.
  pub raise_flush : (f : ℕ) → l.flush ≤ f → f ≤ l.completed → Inv (record l { flush = f }) s
  raise_flush f h k = record {
    order = record {
      oldest_first = i.order.oldest_first;
      synced = i.order.synced;
      logged = i.order.logged;
      flushed = omega (arith, i.order.flushed);
      flushable = k;
      created = i.order.created;
    };
    flushing = All-le l.flush f s.flushing h i.flushing;
    headers = headers-le l.flush f s.waiting h i.headers;
    syncing = i.syncing;
    setting = i.setting;
    mid = i.mid;
    collected = i.collected;
    coming = i.coming;
    past = i.past;
    before = i.before;
    tight = i.tight;
  }

  pub raise_permanent-Inv :
      (n : ℕ) → l.permanent ≤ n → n ≤ l.flush → Inv (record l { permanent = n }) s
  raise_permanent-Inv n h k = record {
    order = record {
      oldest_first = i.order.oldest_first;
      synced = i.order.synced;
      logged = omega (arith, i.order.logged);
      flushed = k;
      flushable = i.order.flushable;
      created = i.order.created;
    };
    flushing = i.flushing;
    headers = i.headers;
    syncing = i.syncing;
    setting = i.setting;
    mid = i.mid;
    collected = i.collected;
    coming = i.coming;
    past = i.past;
    before = i.before;
    tight = i.tight;
  }

  pub raise_completed :
      (v : ℕ) → l.completed ≤ v → v ≤ front i.mid s.waiting → Inv (record l { completed = v }) s
  raise_completed v h k = record {
    order = record {
      oldest_first = i.order.oldest_first;
      synced = i.order.synced;
      logged = i.order.logged;
      flushed = i.order.flushed;
      flushable = omega (arith, i.order.flushable);
      created = omega (arith, front-le i.mid l.latest s.waiting i.coming);
    };
    flushing = i.flushing;
    headers = i.headers;
    syncing = i.syncing;
    setting = i.setting;
    mid = i.mid;
    collected = i.collected;
    coming = i.coming;
    past = omega (arith, i.past);
    before = k;
    tight = i.tight;
  }

  -- The first pack is complete.
  pub complete-Inv :
      (p : LogPack) (ps : List LogPack)
      → s.waiting ≡ p ∷ ps
      → Inv (record l { completed = p.end }) (record s { waiting = ps; gc = s.gc ++ p ∷ [] })
  complete-Inv p ps e =
      let coming = subst (λ ws. Chained i.mid ws l.latest) e i.coming in
      let before = subst (λ ws. l.completed ≤ front i.mid ws) e i.before in
      let tight = subst (All IsTight) e i.tight.1 in
      record {
        order = record {
          oldest_first = i.order.oldest_first;
          synced = i.order.synced;
          logged = i.order.logged;
          flushed = i.order.flushed;
          flushable = omega (arith, i.order.flushable, before);
          created = Chained-le p.end l.latest ps coming.2;
        };
        flushing = i.flushing;
        headers = (subst (All (λ (p : LogPack). AtMost l.flush p.new_permanent)) e i.headers).1;
        syncing = i.syncing;
        setting = i.setting;
        mid = p.end;
        collected =
            Chained-append l.written i.mid p.end s.gc (p ∷ []) i.collected
              (coming.0, coming.1, refl);
        coming = coming.2;
        past = omega arith;
        before = after_front p ps l.latest coming.2;
        tight = (All-append IsTight s.gc (p ∷ []) i.tight.0 (tight.0, tt), tight.1);
      }

  pub collect-Inv :
      (p : LogPack) (ps : List LogPack)
      → s.gc ≡ p ∷ ps
      → AtMost l.permanent p.last
      → Inv (record l { written = p.end }) (record s { gc = ps })
  collect-Inv p ps e sub =
      let collected = subst (λ ws. Chained l.written ws i.mid) e i.collected in
      let tight = subst (All IsTight) e i.tight.0 in
      record {
        order = record {
          oldest_first = i.order.oldest_first;
          synced = omega (arith, i.order.synced, collected.0);
          logged = end-le p.last collected.1 tight.0 sub;
          flushed = i.order.flushed;
          flushable = i.order.flushable;
          created = i.order.created;
        };
        flushing = i.flushing;
        headers = i.headers;
        syncing = (still s.syncing i.syncing.0 collected.0, i.syncing.1);
        setting = i.setting;
        mid = i.mid;
        collected = collected.2;
        coming = i.coming;
        past = i.past;
        before = i.before;
        tight = (tight.1, i.tight.1);
      }
    where
      end-le :
          (o : Option ℕ)
          → Fits l.written p.end o
          → EndsAt p.end o
          → AtMost l.permanent o
          → p.end ≤ l.permanent
      end-le none f t b = omega (arith, f, i.order.logged)
      end-le (some n) f t b = omega (arith, t, b)

      still : (o : Option ℕ) → AtMost l.written o → l.written ≤ p.end → AtMost p.end o
      still none h k = tt
      still (some w) h k = omega arith
