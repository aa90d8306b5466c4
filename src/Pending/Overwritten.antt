-- ===== src/Pending/Overwritten.antt =====
-- pending_delete_fully_overwritten and pending_insert_and_delete_fully_overwritten of module/pending_io.c
-- against the list of the pending writes.
use walb_driver.Common.{
  ℕ, ◌+◌, ◌≤◌, ◌<◌, ◌≡◌, refl, ap, subst, ◌∙◌, inl, inr, Bool, true, false, ◌&&◌, ◌||◌, Option,
  some, List, [], ◌∷◌, All, arith, Bool-cases, length, ltb, leb, ◌==◌, if◌then◌else◌, u64_mod,
}
use walb_driver.Biow.{Biow, bio_wrapper_end}
use walb_driver.Treemap.{to_list, RbTree}
use walb_driver.Treemap.Lists.{Over, IsSorted}
use walb_driver.Treemap.Lookup.{search_ge}
use walb_driver.Treemap.Multimap.{contains}
use walb_driver.Treemap.MultiCursor.{MultimapCursor, multimap_cursor_search, multimap_cursor_init}
use walb_driver.Treemap.Scan.{pairs, flat, IsFull, from_key}
use walb_driver.Treemap.Tally.{count, tally, tally-append}
use walb_driver.Treemap.Range.{Rising, Rising-flat, from_key_short}
use walb_driver.Treemap.Position.{Searched, nothing, found, multimap_cursor_search-Searched}
use walb_driver.Overlapped.Serial.{Bounded, count-cong}
use walb_driver.Overlapped.Insert.{Holds-length}
use walb_driver.Overlapped.Members.{count-member, count-once}
use walb_driver.Pending.{
  Pending, Overwriting, is_fully_overwritten, delete_before, pending_delete_fully_overwritten,
}
use walb_driver.Pending.Keep.{IsPending}
use walb_driver.Pending.Prune.{hit, stop, Pruned, delete_before-Pruned}

from_key-IsSorted :
    (start : ℕ) (es : List (ℕ × List ℕ)) → IsSorted es → IsSorted (from_key start es)
from_key-IsSorted start [] s = tt
from_key-IsSorted start (e ∷ es) s = elim (Bool-cases (leb start e.0)) [
  | inl h ↦ rw h s
  | inr h ↦ rw h (from_key-IsSorted start es s.1)
]

-- Counting from a key on.
module _ (start : ℕ) (p : ℕ → ℕ → Bool) where
  abbrev late : ℕ → ℕ → Bool
  late k v = leb start k && p k v

  pairs_below : (k : ℕ) (vs : List ℕ) → leb start k ≡ false → tally late (pairs k vs) ≡ 0
  pairs_below k [] e = refl
  pairs_below k (v ∷ vs) e = ground (arith, e, pairs_below k vs e)

  pairs_above :
      (k : ℕ) (vs : List ℕ) → leb start k ≡ true → tally late (pairs k vs) ≡ tally p (pairs k vs)
  pairs_above k [] e = refl
  pairs_above k (v ∷ vs) e = ground (arith, e, pairs_above k vs e)

  all_above :
      (k : ℕ) (es : List (ℕ × List ℕ))
      → start ≤ k
      → Over k es
      → tally late (flat es) ≡ tally p (flat es)
  all_above k [] l o = refl
  all_above k ((j, vs) ∷ es) l o = omega (
    arith,
    tally-append late (pairs j vs) (flat es),
    tally-append p (pairs j vs) (flat es),
    pairs_above j vs (ground (arith, o.0, l)),
    all_above k es l o.1,
  )

  pub tally-from_key :
      (es : List (ℕ × List ℕ))
      → IsSorted es
      → tally p (flat (from_key start es)) ≡ tally late (flat es)
  tally-from_key [] s = refl
  tally-from_key ((k, vs) ∷ es) s = elim (Bool-cases (leb start k)) [
    | inl h ↦ rw h (
        omega (
          arith,
          tally-append late (pairs k vs) (flat es),
          tally-append p (pairs k vs) (flat es),
          pairs_above k vs h,
          all_above k es (ground (arith, h)) s.0,
        ))
    | inr h ↦ rw h (
        omega (
          arith,
          tally-append late (pairs k vs) (flat es),
          pairs_below k vs h,
          tally-from_key es s.1,
        ))
  ]

module _ (info : ℕ → Biow) (b : ℕ) where
  -- The pending writes that `b` does not fully overwrite.
  abbrev pub survivors : List ℕ → List ℕ
  survivors [] = []
  survivors (u ∷ us) = if is_fully_overwritten info b u then survivors us else u ∷ survivors us

  count-survivors :
      (q : ℕ → Bool) (us : List ℕ)
      → count q (survivors us) + count (λ u. q u && is_fully_overwritten info b u) us ≡ count q us
  count-survivors q [] = refl
  count-survivors q (u ∷ us) = elim (Bool-cases (is_fully_overwritten info b u)) [
    | inl e ↦ rw e (ground (arith, count-survivors q us))
    | inr e ↦ rw e (ground (arith, count-survivors q us))
  ]

  All-survivors : (P : ℕ → Type 0) (us : List ℕ) → All P us → All P (survivors us)
  All-survivors P [] a = tt
  All-survivors P (u ∷ us) a = elim (Bool-cases (is_fully_overwritten info b u)) [
    | inl e ↦ rw e (All-survivors P us a.1)
    | inr e ↦ rw e (a.0, All-survivors P us a.1)
  ]

  count-and_comm :
      (f g : ℕ → Bool) (us : List ℕ) → count (λ v. f v && g v) us ≡ count (λ v. g v && f v) us
  count-and_comm f g [] = refl
  count-and_comm f g (u ∷ us) = ground (arith, count-and_comm f g us)

  module _ (rb : RbTree (List ℕ)) (fuel : ℕ) where
    -- The search and the loop.
    whole-Pruned :
        (s : Overwriting)
        → IsSorted (to_list s.data_map)
        → IsFull (to_list s.data_map)
        → length (flat (to_list s.data_map)) ≤ fuel
        → Pruned info
            (bio_wrapper_end (info b))
            b
            s
            (flat (from_key ((info b).pos) (to_list s.data_map)))
            (pending_delete_fully_overwritten info rb fuel s b)
    unfolding pending_delete_fully_overwritten
    whole-Pruned s sorted full l =
        go
          (multimap_cursor_search rb s.data_map multimap_cursor_init ((info b).pos) search_ge false)
          (multimap_cursor_search-Searched rb s.data_map sorted full ((info b).pos))
      where
        late_pairs : List (ℕ × ℕ)
        late_pairs = flat (from_key ((info b).pos) (to_list s.data_map))

        late_short : length (flat (from_key ((info b).pos) (to_list s.data_map))) ≤ fuel
        late_short =
            omega (arith, from_key_short {S = ℕ} ((info b).pos) 0 (λ x v. x) (to_list s.data_map))

        go :
            (r : Bool × MultimapCursor)
            → Searched rb s.data_map sorted full ((info b).pos) r
            → Pruned info
                (bio_wrapper_end (info b))
                b
                s
                (flat (from_key ((info b).pos) (to_list s.data_map)))
                (if r.0
                  then delete_before info rb (bio_wrapper_end (info b)) b fuel r.1 s
                  else some s)
        go r (nothing e f) = rw (e, f) (stop info (bio_wrapper_end (info b)) b s sorted full [] tt)
        go r (found k v es e f st) =
            rw (e, f)
              (delete_before-Pruned info (bio_wrapper_end (info b)) b rb fuel r.1 s k v es sorted
                full st
                (subst Rising f (
                  Rising-flat (from_key ((info b).pos) (to_list s.data_map))
                    (from_key-IsSorted ((info b).pos) (to_list s.data_map) sorted)))
                (subst (λ l. length l ≤ fuel) f late_short))

    -- The multimap without the overwritten writes, which are marked.
    pub record Overwrote (s : Pending) (overwritten : ℕ → Bool) (queue : List ℕ)
        (r : Option Overwriting) : Type 0 where
      pub result : Overwriting
      pub returns : r ≡ some result
      pub pending : IsPending info (record s { data_map = result.data_map }) (survivors queue)
      pub marked :
          (u : ℕ)
          → result.overwritten u
            ≡ (overwritten u || (contains u queue && is_fully_overwritten info b u))

    module _ (s : Pending) (overwritten : ℕ → Bool) (queue : List ℕ) (i : IsPending info s queue)
        (fits : (info b).pos + (info b).len < u64_mod)
        (positive : All (λ u. 0 < (info u).len) queue) (enough : length queue ≤ fuel) where
      abbrev within : ℕ → Bool → Bool
      within u x =
          leb ((info b).pos) ((info u).pos)
          && (x && (ltb ((info u).pos) (bio_wrapper_end (info b)) && is_fully_overwritten info b u))

      -- What `b` overwrites starts in the range that the driver searches.
      in_reach :
          (x : ℕ → Bool) (us : List ℕ)
          → Bounded info s.max_sectors us
          → All (λ u. 0 < (info u).len) us
          → All (λ u. within u (x u) ≡ (x u && is_fully_overwritten info b u)) us
      in_reach x [] k l = tt
      in_reach x (u ∷ us) k l = (ground arith, in_reach x us k.1 l.1)

      reached :
          (p : ℕ → ℕ → Bool)
          → tally
              (λ k v. p k v && hit info (bio_wrapper_end (info b)) b k v)
              (flat (from_key ((info b).pos) (to_list s.data_map)))
            ≡ count (λ u. p ((info u).pos) u && is_fully_overwritten info b u) queue
      reached p =
          tally-from_key ((info b).pos) (λ k v. p k v && hit info (bio_wrapper_end (info b)) b k v)
            (to_list s.data_map) i.holds.sorted
          ∙ i.holds.bag
              (λ k v. leb ((info b).pos) k && (p k v && hit info (bio_wrapper_end (info b)) b k v))
          ∙ count-cong info (λ u. within u (p ((info u).pos) u))
              (λ u. p ((info u).pos) u && is_fully_overwritten info b u) queue
              (in_reach (λ u. p ((info u).pos) u) queue i.bounded positive)

      -- With the invariant, lengths that are not zero, and fuel for one step per pending write:
      -- pending_delete_fully_overwritten returns, deletes exactly the other pending writes that `b` fully
      -- overwrites, marks exactly these, and keeps the invariant.
      pub pending_delete_fully_overwritten-Overwrote : Overwrote s overwritten queue (
          pending_delete_fully_overwritten info rb fuel
            (record { data_map = s.data_map; overwritten = overwritten })
            b)
      pending_delete_fully_overwritten-Overwrote =
          let w =
            whole-Pruned (record { data_map = s.data_map; overwritten = overwritten })
              i.holds.sorted i.holds.full (omega (arith, Holds-length info i.holds, enough)) in
          record {
            result = w.result;
            returns = w.returns;
            pending = record {
              holds = record {
                sorted = w.sorted;
                full = w.full;
                bag = λ p. omega (
                  arith,
                  w.removed p,
                  reached p,
                  i.holds.bag p,
                  count-survivors (λ u. p ((info u).pos) u) queue,
                );
                once = λ v. omega (arith, count-survivors (λ u. u == v) queue, i.holds.once v);
              };
              bounded =
                  All-survivors
                    (λ u. ((info u).pos + (info u).len < u64_mod) × ((info u).len ≤ s.max_sectors))
                    queue i.bounded;
            };
            marked = λ u.
                w.marked u
                ∙ ap (λ n. overwritten u || ltb 0 n)
                    (reached (λ k v. v == u)
                      ∙ count-and_comm (λ v. v == u) (is_fully_overwritten info b) queue
                      ∙ count-member (is_fully_overwritten info b) u queue)
                ∙ ground (arith, count-once u queue (i.holds.once u));
          }
