-- ===== src/Format/Blocks/Head.antt =====
-- About the rootblock that a format writes.
use pfs.Prelude.{
  contains, ℕ, ◌+◌, ◌-◌, ◌*◌, ◌^◌, ◌≤◌, ◌<◌, List, ◌≡◌, refl, ap, ◌∙◌, none, some, length,
  length-replicate, length-write_at, read_at-write_at_self, read_at-write_at_after, not, bit_and,
  ◌==◌, ◌/◌, arith, read_at, write_at, ltb, min, length-take, ltb→lt,
}
use pfs.Error.{Str, ok, Returns, returns, Returns-if, Returns-step}
use pfs.Bytes.{be16, be32, zeros, from_be, read_u16, read_u32, index, slice}
use pfs.Bytes.Laws.{
  u32_at_eq, read_u32_eq, read_u16_eq, index_eq, slice_eq, u16_at-same, u32_at-same,
}
use pfs.Bytes.Fields.Laws.{
  written, field_at, written-after, written-kept, read_at-zeros, length-written, written_self,
  read_one, u32_written, u16_written,
}
use pfs.Ondisk.Constants.{id_pfs_disk, mode_superindex}
use pfs.Ondisk.Rootblock
use pfs.Ondisk.Rootblock.{Rootblock, parse_indices}
use pfs.Util.Names.{as_bytes}
use pfs.Format.Geometry.{Geometry, firstreserved, options}
use pfs.Format.Blocks.{Layout, Stamp, head_fields, tail_fields}
use pfs.Format.Blocks.Description.{kept_name, InRange, Describes}
use pfs.Format.Blocks.Union.{indices, HoldsIndices, parse_indices_eq, options-superindex}
use pfs.Format.Blocks.Keeps.{Keeps, Keeps-trans, Keeps-write_at, Keeps-written}

module _ (g : Geometry) (l : Layout) (t : Stamp) (name : Str) (rf db total : ℕ)
    (r : InRange g l t rf db total) where
  abbrev pub stage1 : List ℕ
  stage1 =
      written (zeros (g.rblkcluster * g.bs))
        (head_fields (options g) t (min (length (as_bytes name)) 30))

  abbrev pub stage2 : List ℕ
  stage2 = write_at stage1 0x15 (kept_name name)

  abbrev pub stage3 : List ℕ
  stage3 = written stage2 (tail_fields g l rf db total)

  pub len1 : length stage1 ≡ g.rblkcluster * g.bs
  len1 =
      length-written (zeros (g.rblkcluster * g.bs))
        (head_fields (options g) t (min (length (as_bytes name)) 30))
      ∙ length-replicate {A = ℕ} (g.rblkcluster * g.bs) 0

  pub len2 : length stage2 ≡ g.rblkcluster * g.bs
  len2 = length-write_at stage1 0x15 (kept_name name) ∙ len1

  options_small : options g < 2 ^ 32
  unfolding options
  options_small = ground arith

  pub name_fits : length (kept_name name) ≡ min (length (as_bytes name)) 30
  name_fits = omega (arith, length-take (min (length (as_bytes name)) 30) (as_bytes name))

  keeps2 : Keeps 0x15 stage1 stage2
  keeps2 = Keeps-write_at 0x15 stage1 0x15 (kept_name name) (omega arith)

  keeps3 : Keeps 0x34 stage2 stage3
  keeps3 = Keeps-written 0x34 stage2 (tail_fields g l rf db total) refl

  long1 : 0x15 ≤ length (zeros (g.rblkcluster * g.bs))
  long1 = omega (arith, length-replicate {A = ℕ} (g.rblkcluster * g.bs) 0, r.cluster_size)

  long2 : 0x60 ≤ length stage2
  long2 = omega (arith, len2, r.cluster_size)

  -- Behind the name nothing is written but the fields.
  zeros2 : (at : ℕ) → 0x34 ≤ at → at + 4 ≤ 512 → read_at stage2 at 4 ≡ zeros 4
  zeros2 at lo hi =
      read_at-write_at_after stage1 0x15 at 4 (kept_name name) (omega (arith, name_fits))
      ∙ written-after (zeros (g.rblkcluster * g.bs))
          (head_fields (options g) t (min (length (as_bytes name)) 30)) 0x15 at 4 refl (omega arith)
      ∙ read_at-zeros (g.rblkcluster * g.bs) at 4 (omega (arith, r.cluster_size))

  pub zeros3 : (at : ℕ) → 0x60 ≤ at → at + 4 ≤ 512 → read_at stage3 at 4 ≡ zeros 4
  zeros3 at lo hi =
      written-after stage2 (tail_fields g l rf db total) 0x60 at 4 refl lo
      ∙ zeros2 at (omega arith) hi

  module _ (c : List ℕ) (f : Keeps 0x60 stage3 c)
      (holds : HoldsIndices c (indices g.supermode l)) where
    Keeps-head : Keeps 0x15 stage1 c
    Keeps-head = Keeps-trans (omega arith) keeps2 (Keeps-trans (omega arith) keeps3 f)

    room : 512 ≤ length c
    room = omega (arith, Keeps-head.same_length, len1, r.cluster_size)

    head32 :
        (at v : ℕ)
        → field_at (head_fields (options g) t (min (length (as_bytes name)) 30)) at 4 none
          ≡ some (be32 v)
        → v < 2 ^ 32
        → at + 4 ≤ 0x15
        → read_u32 c at ≡ ok v
    head32 at v e lt fits = read_u32_eq c at v (omega (arith, room)) (
        u32_at-same c stage1 at (omega (arith, room)) (omega (arith, len1, r.cluster_size))
          (Keeps-head.same at 4 fits)
        ∙ u32_written (zeros (g.rblkcluster * g.bs)) _ 0x15 refl long1 at v e lt fits)

    head16 :
        (at v : ℕ)
        → field_at (head_fields (options g) t (min (length (as_bytes name)) 30)) at 2 none
          ≡ some (be16 v)
        → v < 2 ^ 16
        → at + 2 ≤ 0x15
        → read_u16 c at ≡ ok v
    head16 at v e lt fits = read_u16_eq c at v (omega (arith, room)) (
        u16_at-same c stage1 at (omega (arith, room)) (omega (arith, len1, r.cluster_size))
          (Keeps-head.same at 2 fits)
        ∙ u16_written (zeros (g.rblkcluster * g.bs)) _ 0x15 refl long1 at v e lt fits)

    tail32 :
        (at v : ℕ)
        → field_at (tail_fields g l rf db total) at 4 none ≡ some (be32 v)
        → v < 2 ^ 32
        → at + 4 ≤ 0x60
        → read_u32 c at ≡ ok v
    tail32 at v e lt fits = read_u32_eq c at v (omega (arith, room)) (
        u32_at-same c stage3 at (omega (arith, room)) (omega (arith, room, f.same_length))
          (f.same at 4 fits)
        ∙ u32_written stage2 _ 0x60 refl long2 at v e lt fits)

    tail16 :
        (at v : ℕ)
        → field_at (tail_fields g l rf db total) at 2 none ≡ some (be16 v)
        → v < 2 ^ 16
        → at + 2 ≤ 0x60
        → read_u16 c at ≡ ok v
    tail16 at v e lt fits = read_u16_eq c at v (omega (arith, room)) (
        u16_at-same c stage3 at (omega (arith, room)) (omega (arith, room, f.same_length))
          (f.same at 2 fits)
        ∙ u16_written stage2 _ 0x60 refl long2 at v e lt fits)

    zero32 :
        (at : ℕ)
        → field_at (tail_fields g l rf db total) at 4 (some (zeros 4)) ≡ some (zeros 4)
        → 0x34 ≤ at
        → at + 4 ≤ 0x60
        → read_u32 c at ≡ ok 0
    unfolding from_be
    zero32 at e lo fits =
        let here : read_at c at 4 ≡ zeros 4 =
          f.same at 4 fits
          ∙ written-kept stage2 (tail_fields g l rf db total) 0x60 refl long2 at 4 e
              (zeros2 at lo (omega arith)) in
        read_u32_eq c at 0 (omega (arith, room))
          (u32_at_eq c at (omega (arith, room)) ∙ ap (λ s. ok (from_be s)) here)

    name_length : index c 0x14 ≡ ok (min (length (as_bytes name)) 30)
    unfolding field_at
    name_length =
        index_eq c 0x14 (omega (arith, room))
        ∙ ap ok (
            read_one c 0x14 _ (omega (arith, room)) (
              Keeps-head.same 0x14 1 (omega arith)
              ∙ written_self (zeros (g.rblkcluster * g.bs))
                  (head_fields (options g) t (min (length (as_bytes name)) 30)) 0x15 0x14 1 refl
                  long1 refl))

    name_bytes :
        slice c 0x15 (0x15 + min (min (length (as_bytes name)) 30) 31) ≡ ok (kept_name name)
    name_bytes =
        let e : 0x15 + min (min (length (as_bytes name)) 30) 31 - 0x15 ≡ length (kept_name name) =
          omega (arith, name_fits) in
        slice_eq c 0x15 _ (omega arith) (omega (arith, room))
        ∙ rw e (
            ap ok (
              (Keeps-trans (omega arith) keeps3 f).same 0x15 (length (kept_name name))
                (omega (arith, name_fits))
              ∙ read_at-write_at_self stage1 0x15 (kept_name name)
                  (omega (arith, name_fits, len1, r.cluster_size))))

    found_indices :
        parse_indices c (not (bit_and (options g) mode_superindex == 0))
        ≡ ok ((indices g.supermode l).0, (indices g.supermode l).1)
    found_indices =
        ap (parse_indices c) (options-superindex g)
        ∙ parse_indices_eq c g.supermode l room r.index_fits (r.index_small.0) (r.index_small.1)
            holds

    pub parse-Describes : Returns (Describes g l t name rf db total) (Rootblock.parse c)
    unfolding Rootblock.parse field_at contains
    parse-Describes =
        Returns-if (ltb (length c) 0x60)
          (λ short. absurd (omega (arith, room, ltb→lt (length c) 0x60 short)))
          (λ _.
            (Returns-step _ (head32 0 id_pfs_disk refl (omega arith) (omega arith)) (
              Returns-step _ (head32 4 (options g) refl options_small (omega arith)) (
                Returns-step _ (head32 8 1 refl (omega arith) (omega arith)) (
                  Returns-step _ (head16 12 t.cday refl (r.stamp.0) (omega arith)) (
                    Returns-step _ (head16 14 t.cmin refl (r.stamp.1) (omega arith)) (
                      Returns-step _ (head16 16 t.ctick refl (r.stamp.2) (omega arith)) (
                        Returns-step _ (head16 18 0xF0 refl (omega arith) (omega arith)) (
                          Returns-step _ name_length (
                            Returns-step _ name_bytes (
                              Returns-step _
                                (tail32 0x34 g.lastreserved refl (r.blocks.0) (omega arith))
                                (Returns-step _
                                  (tail32 0x38 firstreserved refl (omega arith) (omega arith))
                                  (Returns-step _ (tail32 0x3C rf refl (r.counts.0) (omega arith)) (
                                    Returns-step _
                                      (tail16 0x40 g.resblocksize refl (r.sizes.0) (omega arith))
                                      (Returns-step _
                                        (tail16 0x42 g.rblkcluster refl (r.sizes.1) (omega arith))
                                        (Returns-step _
                                          (tail32 0x44 db refl (r.counts.1) (omega arith))
                                          (Returns-step _
                                            (tail32 0x48 (db / 20) refl (omega (arith, r.counts.1))
                                              (omega arith))
                                            (Returns-step _
                                              (zero32 0x4C refl (omega arith) (omega arith))
                                              (Returns-step _
                                                (zero32 0x50 refl (omega arith) (omega arith))
                                                (Returns-step _
                                                  (tail32 0x54 total refl (r.counts.2)
                                                    (omega arith))
                                                  (Returns-step _
                                                    (tail32 0x58 l.rext_blk refl (r.blocks.1)
                                                      (omega arith))
                                                    (Returns-step _ found_indices (
                                                      returns _ (record {
                                                        disktype_eq = refl;
                                                        options_eq = refl;
                                                        datestamp_eq = refl;
                                                        creation_eq = (refl, refl, refl);
                                                        protection_eq = refl;
                                                        diskname_eq = refl;
                                                        reserved_eq = (refl, refl);
                                                        sizes_eq = (refl, refl);
                                                        free_eq = (refl, refl);
                                                        alwaysfree_eq = refl;
                                                        pointers_eq = (refl, refl);
                                                        disksize_eq = refl;
                                                        extension_eq = refl;
                                                        indices_eq = refl;
                                                      }))))))))))))))))))))))))
