-- ===== src/Overlapped/Notify.antt =====
-- The notifying loop of overlapped_delete_and_notify (module/overlapped_io.c): what it does to one bio
-- wrapper.
use walb_driver.Common.{
  ℕ, ◌+◌, ◌^◌, ◌<◌, ◌≡◌, refl, ap, subst, ◌∙◌, ◌⊎◌, inl, inr, Bool, true, false, ◌&&◌, ◌||◌, List,
  [], ◌∷◌, ◌++◌, arith, Bool-cases, length, length-append, ◌==◌, if◌then◌else◌, sub_u32,
}
use walb_driver.Biow.{Biow}
use walb_driver.Treemap.Tally.{one_if, count, tally, fold_where}
use walb_driver.Overlapped.{Notified, notify, notify_overlap}
use walb_driver.Overlapped.Serial.{overlaps}

module _ (info : ℕ → Biow) where
  pub overlaps-sym : (b u : ℕ) → overlaps info b u ≡ overlaps info u b
  overlaps-sym b u = ground arith

  pub count-append : (p : ℕ → Bool) (xs ys : List ℕ) → count p (xs ++ ys) ≡ count p xs + count p ys
  count-append p [] ys = omega arith
  count-append p (x ∷ xs) ys = omega (arith, count-append p xs ys)

  module _ (b : ℕ) (p : ℕ → ℕ → Bool) (u : ℕ) where
    -- What the loop does to a bio wrapper that it meets once, or not at all.
    abbrev pub Met : Bool → Notified → Notified → Type 0
    Met x s r =
        (r.waits u ≡ (if x then sub_u32 (s.waits u) 1 else s.waits u))
        × (count (λ v. v == u) r.submit
            ≡ count (λ v. v == u) s.submit + (if x then one_if (sub_u32 (s.waits u) 1 == 0) else 0))

    Met-trans :
        (x y : Bool) (s t r : Notified)
        → (x && y) ≡ false
        → Met x s t
        → Met y t r
        → Met (x || y) s r
    Met-trans true true s t r e m n = absurd (ground (arith, e))
    Met-trans true false s t r e m n = (n.0 ∙ m.0, omega (arith, m.1, n.1))
    Met-trans false true s t r e m n = (
      n.0 ∙ ap (λ w. sub_u32 w 1) m.0,
      omega (arith, m.1, n.1, ap (λ w. one_if (sub_u32 w 1 == 0)) m.0),
    )
    Met-trans false false s t r e m n = (n.0 ∙ m.0, omega (arith, m.1, n.1))

    Met-refl : (s : Notified) → Met false s s
    Met-refl s = (refl, omega arith)

    notify-Met : (s : Notified) (v : ℕ) → Met (v == u) s (notify info s v (sub_u32 (s.waits v) 1))
    notify-Met s v = elim (Bool-cases (v == u)) [
      | inl e ↦
          let eq : s.waits v ≡ s.waits u = ap s.waits (ground (arith, e)) in
          rw e (
            ap (λ w. sub_u32 w 1) eq,
            listed (sub_u32 (s.waits v) 1)
                ∙ rw e (ap (λ w. count (λ v. v == u) s.submit + one_if (sub_u32 w 1 == 0)) eq),
          )
      | inr e ↦ rw e (refl, listed (sub_u32 (s.waits v) 1) ∙ rw e refl)
    ]
      where
        listed :
            (n : ℕ)
            → count (λ v. v == u) (if n == 0 then s.submit ++ v ∷ [] else s.submit)
              ≡ count (λ v. v == u) s.submit + (if v == u then one_if (n == 0) else 0)
        listed n = ground (arith, count-append (λ v. v == u) s.submit (v ∷ []))

    -- How often the loop meets a bio wrapper that overlaps.
    abbrev pub visits : List (ℕ × ℕ) → ℕ
    visits es = tally (λ k v. (p k v && overlaps info b v) && (v == u)) es

    pub fold-Met :
        (x : Bool) (s : Notified) (es : List (ℕ × ℕ))
        → visits es ≡ one_if x
        → Met x s (fold_where p (notify_overlap info b) s es)
    fold-Met true s [] h = absurd (ground (arith, h))
    fold-Met false s [] h = Met-refl s
    fold-Met x s ((k, v) ∷ es) h =
        go (p k v) (overlaps info b v)
          (λ (y : Bool) (t : Notified) (g : visits es ≡ one_if y). fold-Met y t es g) h
      where
        after : Notified
        after = notify info s v (sub_u32 (s.waits v) 1)

        met :
            (y z : Bool)
            → (v == u) ≡ z
            → ((y : Bool) (t : Notified)
                → visits es ≡ one_if y
                → Met y t (fold_where p (notify_overlap info b) t es))
            → one_if z + visits es ≡ one_if y
            → Met y s (fold_where p (notify_overlap info b) after es)
        met true true e ih g =
            Met-trans true false s after (fold_where p (notify_overlap info b) after es) refl
              (subst (λ z. Met z s after) e (notify-Met s v)) (ih false after (omega (arith, g)))
        met false true e ih g = absurd (omega (arith, g))
        met y false e ih g =
            Met-trans false y s after (fold_where p (notify_overlap info b) after es) refl
              (subst (λ z. Met z s after) e (notify-Met s v)) (ih y after (omega (arith, g)))

        go :
            (c d : Bool)
            → ((y : Bool) (t : Notified)
                → visits es ≡ one_if y
                → Met y t (fold_where p (notify_overlap info b) t es))
            → one_if ((c && d) && (v == u)) + visits es ≡ one_if x
            → Met x s (
                fold_where p (notify_overlap info b) (if c then (if d then after else s) else s) es)
        go true true ih g = met x (v == u) refl ih g
        go true false ih g = ih x s (omega (arith, g))
        go false d ih g = ih x s (omega (arith, g))

  -- The result counts what the loop puts on the list.
  pub fold-length :
      (b : ℕ) (p : ℕ → ℕ → Bool) (s : Notified) (es : List (ℕ × ℕ))
      → s.n_should_submit + length es < 2 ^ 31
      → length (fold_where p (notify_overlap info b) s es).submit + s.n_should_submit
        ≡ (fold_where p (notify_overlap info b) s es).n_should_submit + length s.submit
  fold-length b p s [] h = omega arith
  fold-length b p s ((k, v) ∷ es) h =
      go (p k v) (overlaps info b v) (fold-length b p s es (omega (arith, h)))
        (λ (l : after.n_should_submit + length es < 2 ^ 31). fold-length b p after es l)
    where
      after : Notified
      after = notify info s v (sub_u32 (s.waits v) 1)

      grown :
          ((after.n_should_submit ≡ s.n_should_submit + 1)
            × (length after.submit ≡ length s.submit + 1))
          ⊎ ((after.n_should_submit ≡ s.n_should_submit) × (length after.submit ≡ length s.submit))
      grown = elim (Bool-cases (sub_u32 (s.waits v) 1 == 0)) [
        | inl e ↦ inl (rw e (omega (arith, h)), rw e (length-append s.submit (v ∷ [])))
        | inr e ↦ inr (rw e refl, rw e refl)
      ]

      go :
          (c d : Bool)
          → length (fold_where p (notify_overlap info b) s es).submit + s.n_should_submit
            ≡ (fold_where p (notify_overlap info b) s es).n_should_submit + length s.submit
          → (after.n_should_submit + length es < 2 ^ 31
              → length (fold_where p (notify_overlap info b) after es).submit
                  + after.n_should_submit
                ≡ (fold_where p (notify_overlap info b) after es).n_should_submit
                  + length after.submit)
          → length
                (fold_where p
                  (notify_overlap info b)
                  (if c then (if d then after else s) else s)
                  es).submit
              + s.n_should_submit
            ≡ (fold_where p
                (notify_overlap info b)
                (if c then (if d then after else s) else s)
                es).n_should_submit
              + length s.submit
      go true true f g = elim grown [
        | inl x ↦ omega (arith, x.0, x.1, g (omega (arith, x.0, h)))
        | inr x ↦ omega (arith, x.0, x.1, g (omega (arith, x.0, h)))
      ]
      go true false f g = f
      go false d f g = f
