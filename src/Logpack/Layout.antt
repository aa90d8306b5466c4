-- ===== src/Logpack/Layout.antt =====
-- walb_logpack_header_add_bio keeps the shape of a header, whatever it returns.
use native.Mathlib.Nat.{mod-lt}
use walb_driver.Common.{
  ℕ, suc, ◌+◌, ◌-◌, ◌*◌, ◌%◌, ◌≤◌, ◌<◌, ◌≡◌, ap, inl, inr, true, false, u16_mod, arith, Bool-cases,
  ltb, ltb→lt, ◌==◌,
}
use walb_driver.Block.{n_lb_in_pb, capacity_pb}
use walb_driver.Bio.{Bio, bio_is_discard}
use walb_driver.Logpack.{LogpackHeader, max_total_io_size, max_n_log_record_in_sector}
use walb_driver.Logpack.Add.{
  add_padding, add_bio_fit, add_bio_padded, padding_size, bio_pb_size, add_bio_in_ring,
  header_add_bio,
}
use walb_driver.Logpack.Records.{next_record_lsid_lem}
use walb_driver.Logpack.Fill.{IsLegal, add_padding-filled}
use walb_driver.Logpack.Shape.{IsOpen}
use walb_driver.Logpack.Steps.{add_padding-IsOpen, add_bio_fit-IsOpen, bio_pb_size_lem}

module _ {pbs ring : ℕ} {h : LogpackHeader} (o : IsOpen pbs ring h) where
  padded_fit-IsOpen :
      (bio : Bio) (p cap : ℕ)
      → IsLegal pbs ring h bio
      → bio_is_discard bio ≡ false
      → suc h.n_records < max_n_log_record_in_sector pbs
      → 0 < bio.sectors
      → h.total_io_size + p ≤ max_total_io_size
      → IsOpen pbs ring (add_padding h pbs p)
      → (h.logpack_lsid + 1 + (h.total_io_size + p)) % ring ≡ 0
      → 0 < cap
      → cap < 65663
      → cap ≡ capacity_pb pbs bio.sectors
      → IsOpen pbs ring (add_bio_fit (add_padding h pbs p) bio cap).0
  padded_fit-IsOpen bio p cap g normal free some_sectors fits op at_start pos small c =
      let eq = add_padding-filled o p g.block_small fits in
      rw eq (
        add_bio_fit-IsOpen (rw eq at op) bio cap
          (record {
            block = g.block;
            block_small = g.block_small;
            ring_large = g.ring_large;
            sectors_small = g.sectors_small;
            normal_small = g.normal_small;
            discards = λ d. cc;
          })
          free some_sectors
          (inr (pos, small, c, λ room. rw at_start (omega (arith, g.ring_large)))))

  add_bio_padded-IsOpen :
      (bio : Bio) (p cap : ℕ)
      → IsLegal pbs ring h bio
      → bio_is_discard bio ≡ false
      → h.n_records < max_n_log_record_in_sector pbs
      → 0 < bio.sectors
      → p ≡ ring - (h.logpack_lsid + 1 + h.total_io_size) % ring
      → p < cap
      → cap < 65663
      → cap ≡ capacity_pb pbs bio.sectors
      → p * n_lb_in_pb pbs < u16_mod
      → IsOpen pbs ring (add_bio_padded h bio pbs p cap).0
  unfolding add_bio_padded
  add_bio_padded-IsOpen bio p cap g normal free some_sectors e lt small c words = ground (
    arith,
    padding_open,
    full,
    λ (fits : h.total_io_size + p ≤ max_total_io_size)
          (more : suc h.n_records < max_n_log_record_in_sector pbs).
        padded_fit-IsOpen bio p cap g normal more some_sectors fits (padding_open fits).0
          (padding_open fits).1 (omega arith) small c,
  )
    where
      padding_open :
          h.total_io_size + p ≤ max_total_io_size
          → IsOpen pbs ring (add_padding h pbs p)
            × ((h.logpack_lsid + 1 + (h.total_io_size + p)) % ring ≡ 0)
      padding_open fits = add_padding-IsOpen o p g free e fits words

      full :
          h.total_io_size + p ≤ max_total_io_size
          → (add_padding h pbs p).n_records ≡ suc h.n_records
      full fits =
          ap (λ (x : LogpackHeader). x.n_records) (add_padding-filled o p g.block_small fits)

  -- The branches for a bio that is no discard.
  add_normal-IsOpen :
      (bio : Bio)
      → IsLegal pbs ring h bio
      → bio_is_discard bio ≡ false
      → h.n_records < max_n_log_record_in_sector pbs
      → 0 < bio.sectors
      → (ltb (padding_size h ring) (bio_pb_size pbs bio) ≡ true
          → IsOpen pbs ring
              (add_bio_padded h bio pbs (padding_size h ring) (bio_pb_size pbs bio)).0)
        × (ltb (padding_size h ring) (bio_pb_size pbs bio) ≡ false
            → IsOpen pbs ring (add_bio_fit h bio (bio_pb_size pbs bio)).0)
  add_normal-IsOpen bio g normal free some_sectors = (
    λ crosses.
        add_bio_padded-IsOpen bio (padding_size h ring) (bio_pb_size pbs bio) g normal free
          some_sectors at_end (ltb→lt _ _ crosses) b.1 b.2 (b.3 _ (ltb→lt _ _ crosses)),
    λ fits.
        add_bio_fit-IsOpen o bio (bio_pb_size pbs bio) g free some_sectors
          (inr (b.0, b.1, b.2, λ _. inside fits)),
  )
    where
      b :
          (0 < bio_pb_size pbs bio)
          × (bio_pb_size pbs bio < 65663)
          × (bio_pb_size pbs bio ≡ capacity_pb pbs bio.sectors)
          × ((p : ℕ) → p < bio_pb_size pbs bio → p * n_lb_in_pb pbs < 65536)
      b =
          bio_pb_size_lem pbs bio g.block g.block_small (ground (arith, g.normal_small))
            some_sectors

      at_end : padding_size h ring ≡ ring - (h.logpack_lsid + 1 + h.total_io_size) % ring
      at_end = ap (λ e. ring - e % ring) (next_record_lsid_lem o)

      inside :
          ltb (padding_size h ring) (bio_pb_size pbs bio) ≡ false
          → (h.logpack_lsid + 1 + h.total_io_size) % ring + bio_pb_size pbs bio ≤ ring
      inside fits = ground (arith, at_end, mod-lt (h.logpack_lsid + 1 + h.total_io_size) {m = ring})

  add_bio_in_ring-IsOpen :
      (bio : Bio)
      → IsLegal pbs ring h bio
      → h.n_records < max_n_log_record_in_sector pbs
      → 0 < bio.sectors
      → IsOpen pbs ring (add_bio_in_ring h bio pbs ring).0
  unfolding add_bio_in_ring
  add_bio_in_ring-IsOpen bio g free some_sectors = elim (Bool-cases (bio_is_discard bio)) [
    | inl discards ↦
        rw discards
          (add_bio_fit-IsOpen o bio (bio_pb_size pbs bio) g free some_sectors (inl discards))
    | inr normal ↦
        let c = add_normal-IsOpen bio g normal free some_sectors in
        elim (Bool-cases (ltb (padding_size h ring) (bio_pb_size pbs bio))) [
          | inl crosses ↦ rw (normal, crosses) (c.0 crosses)
          | inr fits ↦ rw (normal, fits) (c.1 fits)
        ]
  ]

  -- The header keeps its shape, whatever the call returns: the records stay valid, follow one
  -- another without a gap, do not cross the end of the ring buffer, and are padded at most once. The
  -- bio is legal, and a discard meets no header whose sizes already sum to 65535.
  pub header_add_bio-IsOpen :
      (bio : Bio) → IsLegal pbs ring h bio → IsOpen pbs ring (header_add_bio h bio pbs ring).0
  unfolding header_add_bio
  header_add_bio-IsOpen bio g = elim (Bool-cases (h.n_records == max_n_log_record_in_sector pbs)) [
    | inl full ↦ rw full o
    | inr more ↦ rw more (elim (Bool-cases (bio.sectors == 0)) [
      | inl no_sectors ↦ rw no_sectors o
      | inr sectors ↦
          rw sectors
            (add_bio_in_ring-IsOpen bio g (ground (arith, o.room, more)) (ground (arith, sectors)))
    ])
  ]
