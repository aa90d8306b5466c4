-- ===== src/Redo/Write.antt =====
-- create_data_io_for_redo (module/redo.c): what its bios write.
use mathlib.Core.List.{append-nil}
use walb_driver.Common.{
  ℕ, zero, suc, ◌+◌, ◌-◌, ◌*◌, ◌≤◌, ◌<◌, ◌≡◌, refl, sym, ap, subst, ◌∙◌, true, List, [], ◌∷◌, ◌++◌,
  All, min, length, take, arith, u64_mod, add_u64,
}
use walb_driver.Block.{is_valid_pbs, n_lb_in_pb}
use walb_driver.Block.Convert.{n_lb_in_pb_pos}
use walb_driver.Checksum.Total.{encode}
use walb_driver.Redo.{LogBlock, RedoIo, data_io, discard_io, create_data_io}
use walb_driver.Redo.Sum.{IsBlock, all_bytes, pbs_lb}

-- The bios write sectors that follow one another from `off` to `end`, none of them empty, each with data for
-- all of its sectors.
abbrev pub Contiguous : ℕ → List RedoIo → ℕ → Type 0
Contiguous off [] end = off ≡ end
Contiguous off (data_io pos len bytes ∷ ios) end =
    (pos ≡ off) × (0 < len) × (length bytes ≡ len * 512) × Contiguous (off + len) ios end
Contiguous off (discard_io pos len ∷ ios) end = ⊥

abbrev pub data_of : List RedoIo → List ℕ
data_of [] = []
data_of (data_io pos len bytes ∷ ios) = bytes ++ data_of ios
data_of (discard_io pos len ∷ ios) = data_of ios

length-encode : (ws : List ℕ) → length (encode ws) ≡ 4 * length ws
length-encode [] = omega arith
length-encode (w ∷ ws) = omega (arith, length-encode ws)

length-take : {A : Type 0} (n : ℕ) (xs : List A) → n ≤ length xs → length (take n xs) ≡ n
length-take zero xs l = refl
length-take (suc n) [] l = absurd (omega arith)
length-take (suc n) (x ∷ xs) l = ap suc (length-take n xs (omega arith))

take-front : {A : Type 0} (n : ℕ) (xs ys : List A) → n ≤ length xs → take n (xs ++ ys) ≡ take n xs
take-front zero xs ys l = refl
take-front (suc n) [] ys l = absurd (omega arith)
take-front (suc n) (x ∷ xs) ys l = ap (λ r. x ∷ r) (take-front n xs ys (omega arith))

take-past :
    {A : Type 0} (xs ys : List A) (m : ℕ) → take (length xs + m) (xs ++ ys) ≡ xs ++ take m ys
take-past [] ys m = ap (λ n. take n ys) {x = 0 + m} {y = m} (omega arith)
take-past (x ∷ xs) ys m =
    ap (λ n. take n (x ∷ (xs ++ ys))) {x = suc (length xs) + m} {y = suc (length xs + m)}
      (omega arith)
    ∙ ap (λ r. x ∷ r) (take-past xs ys m)

take-all : {A : Type 0} (xs : List A) → take (length xs) xs ≡ xs
take-all [] = refl
take-all (x ∷ xs) = ap (λ r. x ∷ r) (take-all xs)

module _ (pbs : ℕ) (v : is_valid_pbs pbs ≡ true) where
  block_length : (b : LogBlock) → IsBlock pbs b → length b.bytes ≡ n_lb_in_pb pbs * 512
  block_length b i = ap length i.bytes ∙ length-encode i.words ∙ i.size ∙ sym (pbs_lb pbs v)

  -- create_data_io_for_redo makes bios that write exactly the sectors of the record, in order and none of them
  -- empty, with the data of its blocks in order: for a valid block size, just as many blocks as the sectors
  -- need, and no wrap of the sectors' addresses.
  pub create_data_io-Contiguous :
      (bs : List LogBlock) (off n_lb : ℕ)
      → All (IsBlock pbs) bs
      → n_lb ≤ length bs * n_lb_in_pb pbs
      → length bs * n_lb_in_pb pbs < n_lb + n_lb_in_pb pbs
      → off + n_lb < u64_mod
      → Contiguous off (create_data_io pbs off n_lb bs) (off + n_lb)
        × (data_of (create_data_io pbs off n_lb bs) ≡ take (n_lb * 512) (all_bytes bs))
  unfolding create_data_io
  create_data_io-Contiguous [] off n_lb a lo hi fits =
      let z : n_lb ≡ 0 = omega arith in
      (omega (arith, z), ap (λ n. take n []) {x = 0} {y = n_lb * 512} (omega (arith, z)))
  create_data_io-Contiguous (b ∷ []) off n_lb a lo hi fits =
      let m : min (n_lb_in_pb pbs) n_lb ≡ n_lb = omega arith in
      let room : n_lb * 512 ≤ length b.bytes = omega (arith, block_length b a.0) in
      rw m (
        (refl, omega arith, length-take (n_lb * 512) b.bytes room, refl),
        append-nil (take (n_lb * 512) b.bytes) ∙ ap (take (n_lb * 512)) (sym (append-nil b.bytes)),
      )
  create_data_io-Contiguous (b ∷ c ∷ bs) off n_lb a lo hi fits =
      let lb = n_lb_in_pb pbs in
      let more : lb < n_lb = grind arith in
      let m : min lb n_lb ≡ lb = omega arith in
      let next : add_u64 off lb ≡ off + lb = omega arith in
      let whole : take (lb * 512) b.bytes ≡ b.bytes =
        ap (λ n. take n b.bytes) (sym (block_length b a.0)) ∙ take-all b.bytes in
      let rest =
        create_data_io-Contiguous (c ∷ bs) (off + lb) (n_lb - lb) a.1 (omega (arith, lo))
          (omega (arith, hi)) (omega (arith, fits)) in
      let end : off + lb + (n_lb - lb) ≡ off + n_lb = omega arith in
      let size : n_lb * 512 ≡ length b.bytes + (n_lb - lb) * 512 =
        omega (arith, block_length b a.0) in
      rw (m, next, whole, size)
        (
          (
            refl,
            n_lb_in_pb_pos pbs v,
            block_length b a.0,
            subst (Contiguous (off + lb) (create_data_io pbs (off + lb) (n_lb - lb) (c ∷ bs))) end
                rest.0,
          ),
          ap (λ l. b.bytes ++ l) rest.1
              ∙ sym (take-past b.bytes (all_bytes (c ∷ bs)) ((n_lb - lb) * 512)),
        )
