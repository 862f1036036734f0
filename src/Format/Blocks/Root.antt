-- ===== src/Format/Blocks/Root.antt =====
-- About the blocks of the root directory that a format writes.
use pfs.Prelude.{
  lt→ltb, false, ℕ, ◌+◌, ◌-◌, ◌*◌, ◌^◌, ◌≤◌, ◌<◌, List, [], ◌∷◌, ◌≡◌, refl, ◌∙◌, none, length,
  length-replicate, arith, read_at, get_or, leb, le→ltb_false,
}
use pfs.Error.{ok, follow, Returns, returns}
use pfs.Bytes.{u16_at, u32_at, zeros}
use pfs.Bytes.Laws.{index_eq, slice_eq, length-read_at, u32_at-read_at, read_u32_eq}
use pfs.Bytes.Fields.{Field, put32, put16}
use pfs.Bytes.Fields.Laws.{
  written, field_at, put_fields_eq, length-written, u32_written, u16_written, written-kept,
  read_at-zeros, read_one,
}
use pfs.Ondisk.Constants.{
  ablkid, iblkid, dblkid, anode_rootdir, anode_block_header_size, anode_size, dir_block_header_size,
}
use pfs.Ondisk.Headers.{BlockHeader, parse_anode_block, parse_dir_block}
use pfs.Ondisk.Anode
use pfs.Ondisk.Anode.{Anode}
use pfs.Ondisk.DirEntry
use pfs.Anode.{anode_in}
use pfs.Dir.Block.{dirblock_loop, parse_dirblock_entries}
use pfs.Format.Geometry.{Geometry}
use pfs.Format.Blocks.{Layout, anode_index_block, anode_block, rootdir_block}

-- The parsers on bytes whose fields are known.
parse_anode_block_eq :
    (b : List ℕ) (ds seq : ℕ)
    → 16 ≤ length b
    → u16_at b 0 ≡ ok ablkid
    → u32_at b 4 ≡ ok ds
    → u32_at b 8 ≡ ok seq
    → parse_anode_block b ≡ ok (record { id = ablkid; datestamp = ds; seqnr = seq })
unfolding parse_anode_block
parse_anode_block_eq b ds seq room e0 e4 e8 = rw (le→ltb_false (length b) 16 room, e0, e4, e8) refl

parse_dir_block_eq :
    (b : List ℕ) (ds nr parent : ℕ)
    → 20 ≤ length b
    → u16_at b 0 ≡ ok dblkid
    → u32_at b 4 ≡ ok ds
    → u32_at b 12 ≡ ok nr
    → u32_at b 16 ≡ ok parent
    → parse_dir_block b ≡ ok (record { id = dblkid; datestamp = ds; anodenr = nr; parent = parent })
unfolding parse_dir_block
parse_dir_block_eq b ds nr parent room e0 e4 e12 e16 =
    rw (le→ltb_false (length b) 20 room, e0, e4, e12, e16) refl

anode_parse_eq :
    (b : List ℕ) (x y z nr : ℕ)
    → 12 ≤ length b
    → u32_at b 0 ≡ ok x
    → u32_at b 4 ≡ ok y
    → u32_at b 8 ≡ ok z
    → Anode.parse b nr ≡ ok (record { clustersize = x; blocknr = y; next = z; nr = nr })
unfolding Anode.parse
anode_parse_eq b x y z nr room e0 e4 e8 =
    rw
      (
        le→ltb_false (length b) 12 room,
        read_u32_eq b 0 x (omega arith) e0,
        read_u32_eq b 4 y (omega arith) e4,
        read_u32_eq b 8 z (omega arith) e8,
      )
      refl

anode_in_eq :
    (b : List ℕ) (h : BlockHeader) (base slot x y z nr : ℕ)
    → anode_block_header_size + slot * anode_size ≡ base
    → base + 12 ≤ length b
    → parse_anode_block b ≡ ok h
    → u32_at b base ≡ ok x
    → u32_at b (base + 4) ≡ ok y
    → u32_at b (base + 8) ≡ ok z
    → anode_in b slot nr ≡ ok (record { clustersize = x; blocknr = y; next = z; nr = nr })
unfolding anode_in
anode_in_eq b h base slot x y z nr eb room eh ex ey ez =
    let width : base + 12 - base ≡ 12 = omega arith in
    let raw = read_at b base 12 in
    let zero_off : base + 0 ≡ base = omega arith in
    rw eb (
      follow _ _ eh (
        rw (le→ltb_false (length b) (base + 12) room) (
          follow _ _ (slice_eq b base (base + 12) (omega arith) room) (
            rw width (
              anode_parse_eq raw x y z nr (omega (arith, length-read_at b base 12 room))
                (u32_at-read_at b base 12 0 (omega arith) room ∙ rw zero_off ex)
                (u32_at-read_at b base 12 4 (omega arith) room ∙ ey)
                (u32_at-read_at b base 12 8 (omega arith) room ∙ ez))))))

parse_zero :
    (b : List ℕ) (at : ℕ) → at < length b → get_or b at 0 ≡ 0 → DirEntry.parse b at ≡ ok none
unfolding DirEntry.parse
parse_zero b at room z =
    let inside : leb (length b) at ≡ false = ground (arith, room) in
    rw inside (follow _ _ (index_eq b at room) (rw z refl))

-- A directory block that has a zero behind its header lists nothing.
no_entries :
    (b : List ℕ)
    → dir_block_header_size < length b
    → get_or b dir_block_header_size 0 ≡ 0
    → parse_dirblock_entries b ≡ ok []
unfolding parse_dirblock_entries dirblock_loop
no_entries b room z =
    rw (lt→ltb dir_block_header_size (length b) room)
      (follow _ _ (parse_zero b dir_block_header_size room z) refl)

abbrev anode_fields : ℕ → List Field
anode_fields blk =
    put16 0 ablkid ∷ put32 4 1 ∷ put32 8 0 ∷ put32 76 1 ∷ put32 80 blk ∷ put32 84 0 ∷ []

abbrev dir_fields : List Field
dir_fields =
    put16 0x00 dblkid ∷ put32 0x04 1 ∷ put32 0x0C anode_rootdir ∷ put32 0x10 anode_rootdir ∷ []

abbrev index_fields : ℕ → List Field
index_fields blk = put16 0 iblkid ∷ put32 4 1 ∷ put32 8 0 ∷ put32 12 blk ∷ []

-- The anode of the root directory is one extent of one block, the root directory's.
abbrev pub HoldsRoot : Layout → List ℕ → Type 0
HoldsRoot l bytes =
    anode_in bytes anode_rootdir anode_rootdir
    ≡ ok (record { clustersize = 1; blocknr = l.rootdir_blk; next = 0; nr = anode_rootdir })

-- An empty directory that is its own parent.
abbrev pub IsEmptyRoot : List ℕ → Type 0
IsEmptyRoot bytes =
    (parse_dir_block bytes
      ≡ ok (record { id = dblkid; datestamp = 1; anodenr = anode_rootdir; parent = anode_rootdir }))
    × (parse_dirblock_entries bytes ≡ ok [])

module _ (n : ℕ) (large : 1024 ≤ n) where
  room : 1024 ≤ length (zeros n)
  room = omega (arith, length-replicate {A = ℕ} n 0)

  anode_bytes :
      (blk : ℕ)
      → blk < 2 ^ 32
      → anode_in (written (zeros n) (anode_fields blk)) 5 5
        ≡ ok (record { clustersize = 1; blocknr = blk; next = 0; nr = 5 })
  unfolding field_at
  anode_bytes blk small =
      let fs = anode_fields blk in
      let len = length-written (zeros n) fs in
      let word = u32_written (zeros n) fs 1024 refl room in
      anode_in_eq (written (zeros n) fs) _ 76 5 1 blk 0 5 refl (omega (arith, len, room))
        (parse_anode_block_eq (written (zeros n) fs) 1 0 (omega (arith, len, room))
          (u16_written (zeros n) fs 1024 refl room 0 ablkid refl (omega arith) (omega arith))
          (word 4 1 refl (omega arith) (omega arith)) (word 8 0 refl (omega arith) (omega arith)))
        (word 76 1 refl (omega arith) (omega arith)) (word 80 blk refl small (omega arith))
        (word 84 0 refl (omega arith) (omega arith))

  dir_bytes : IsEmptyRoot (written (zeros n) dir_fields)
  unfolding field_at
  dir_bytes =
      let b = written (zeros n) dir_fields in
      let len = length-written (zeros n) dir_fields in
      let word = u32_written (zeros n) dir_fields 1024 refl room in
      (
        parse_dir_block_eq b 1 5 5 (omega (arith, len, room))
            (u16_written (zeros n) dir_fields 1024 refl room 0 dblkid refl (omega arith)
              (omega arith))
            (word 4 1 refl (omega arith) (omega arith)) (word 12 5 refl (omega arith) (omega arith))
            (word 16 5 refl (omega arith) (omega arith)),
        no_entries b (omega (arith, len, room)) (
            read_one b 20 0 (omega (arith, len, room)) (
              written-kept (zeros n) dir_fields 1024 refl room 20 1 refl
                (read_at-zeros n 20 1 (omega arith)))),
      )

-- A format with a reserved block size of at least 1024 writes a tree whose root directory is found and
-- empty: the index block names the anode block, the parser of anodes finds in it the root directory's
-- anode, one extent of the block of the root directory, and the parsers of directory blocks find an
-- empty directory there.
pub format-EmptyRoot :
    (g : Geometry) (l : Layout)
    → 1024 ≤ g.resblocksize
    → l.rootdir_blk < 2 ^ 32
    → l.anode_blk < 2 ^ 32
    → Returns (λ bytes. u32_at bytes 12 ≡ ok l.anode_blk) (anode_index_block g l)
      × Returns (HoldsRoot l) (anode_block g l)
      × Returns IsEmptyRoot (rootdir_block g)
unfolding anode_index_block anode_block rootdir_block field_at
format-EmptyRoot g l large small small' =
    let n = g.resblocksize in
    let long = room n large in
    (
      rw (put_fields_eq (zeros n) (index_fields l.anode_blk) 1024 refl long) (
          returns _ (
            u32_written (zeros n) (index_fields l.anode_blk) 1024 refl long 12 l.anode_blk refl
              small' (omega arith))),
      rw (put_fields_eq (zeros n) (anode_fields l.rootdir_blk) 1024 refl long)
          (returns _ (anode_bytes n large l.rootdir_blk small)),
      rw (put_fields_eq (zeros n) dir_fields 1024 refl long) (returns _ (dir_bytes n large)),
    )
