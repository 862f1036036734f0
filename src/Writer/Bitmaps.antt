-- ===== src/Writer/Bitmaps.antt =====
-- The bitmaps of `Writer`: loading them, and allocating and freeing data and reserved blocks.
pub mod Keeps
pub mod Laws
pub mod Free
pub mod Reserve
use pfs.Prelude.{
  add32, sub32, ℕ, zero, suc, ◌+◌, ◌-◌, ◌*◌, ◌/◌, ◌%◌, ◌^◌, List, [], ◌∷◌, ◌++◌, Bool, ltb, leb,
  ◌==◌, if◌then◌else◌, length, min, Option, none, some, map, range, get_elem?, set, bit_or, msb,
}
use pfs.Error.{Result, ok, err, panic, corrupt, disk_full}
use pfs.Exec.{Exec, pure, raise, lift, gets, modify, for_each, ◌>>=◌, ◌>>◌}
use pfs.Bytes.{zeros, put_u32, u32_words}
use pfs.Io.{BlockDevice}
use pfs.Anode.{get_chain}
use pfs.Bitmap.{get_bitmap_block}
use pfs.Dir.{extent_blocks}
use pfs.Ondisk.Anode.{Anode}
use pfs.Writer.State.{Writer, on_env, set_rootblock}
use pfs.Writer.Pending.{read_reserved_raw, write_reserved}
use pfs.Writer.Sectors.{put_words}
use pfs.Writer.Scan.{Scan, Status, full, unfinished, overflow, scan_words, data_block, take_first}

-- The blocks of an extent, as u32.
abbrev pub extent_blocks32 : Anode → List ℕ
extent_blocks32 an = map (λ b. b % 2 ^ 32) (extent_blocks an)

-- `data_bm[i].1[li] |= mask`
abbrev pub set_word : List ℕ → ℕ → ℕ → Result (List ℕ)
set_word longs li word = elim (get_elem? longs li) [
  | none ↦ panic
  | some old ↦ ok (set longs li (bit_or old word))
]

module _ {D : Type 0} (device : BlockDevice D) where
  open device use {read_blocks, block_size}

  abbrev add_data_bm : ℕ → List ℕ → Writer D → Writer D
  add_data_bm blk longs w = record w { data_bm = w.data_bm ++ (blk, longs) ∷ [] }

  unfoldable pub load_bitmap_block : ℕ → Exec (Writer D) (Unit {0})
  unfolding get_bitmap_block read_reserved_raw u32_words
  load_bitmap_block seq = do
    w ← gets (λ w. w)
    found ← on_env (get_bitmap_block device w.vol.bitmap seq)
    elim found [
      | none ↦ pure tt
      | some blk ↦ do
        bytes ← read_reserved_raw device blk
        longs ← lift (u32_words bytes 12 w.index_per_block)
        modify (add_data_bm blk longs)
    ]

  -- `div_ceil` of the disk size, at most 16384. A zero divisor panics.
  unfoldable pub load_data_bitmap : Exec (Writer D) (Unit {0})
  unfolding load_bitmap_block for_each
  load_data_bitmap = do
    w ← gets (λ w. w)
    let bits_per_bmb = w.index_per_block * 32
    if bits_per_bmb == 0
        then lift panic
        else let no_bmb =
            min ((w.vol.rootblock.disksize + bits_per_bmb - 1) / bits_per_bmb) 16384 in
          for_each (range 0 no_bmb) load_bitmap_block

  -- The bytes of the bitmap block with the words put in and the datestamp renewed.
  unfoldable pub write_stamped : ℕ → List ℕ → List ℕ → Exec (Writer D) (Unit {0})
  unfolding put_u32 put_words write_reserved
  write_stamped blk longs bytes = do
    w ← gets (λ w. w)
    stamped ← lift (put_u32 bytes 4 w.datestamp)
    patched ← lift (put_words stamped 12 longs)
    write_reserved device blk patched

  unfoldable pub write_longs : Option (ℕ × List ℕ) → Exec (Writer D) (Unit {0})
  unfolding read_reserved_raw write_stamped
  write_longs none w = (panic, w)
  write_longs (some (blk, longs)) w = (read_reserved_raw device blk >>= write_stamped blk longs) w

  unfoldable pub write_data_bitmap_block : ℕ → Exec (Writer D) (Unit {0})
  unfolding write_longs
  write_data_bitmap_block bm_idx w = write_longs (get_elem? w.data_bm bm_idx) w

  abbrev pub put_longs : ℕ → ℕ → List ℕ → Writer D → Writer D
  put_longs bm_idx blk longs w = record w { data_bm = set w.data_bm bm_idx (blk, longs) }

  abbrev pub spend_blocks : ℕ → Writer D → Writer D
  spend_blocks count w =
      set_rootblock w
        (record (w.vol.rootblock) { blocksfree = sub32 w.vol.rootblock.blocksfree count })

  -- What follows the scan of a bitmap block: `taken` are the blocks so far.
  unfoldable pub after_scan :
      ℕ → ℕ → List ℕ → Exec (Writer D) (List ℕ) → Status → Exec (Writer D) (List ℕ)
  unfolding write_data_bitmap_block
  after_scan count bm_idx taken rest full = do
    write_data_bitmap_block bm_idx
    modify (spend_blocks count)
    pure taken
  after_scan count bm_idx taken rest overflow = raise (corrupt "block number overflow in bitmap")
  after_scan count bm_idx [] rest unfinished = rest
  after_scan count bm_idx (b ∷ bs) rest unfinished = do write_data_bitmap_block bm_idx; rest

  -- Scan one bitmap block, and go on with the next ones by `rest`.
  unfoldable pub scan_block :
      ℕ
      → ℕ
      → List ℕ
      → ℕ
      → (List ℕ → ℕ → Exec (Writer D) (List ℕ))
      → Option (ℕ × List ℕ)
      → Exec (Writer D) (List ℕ)
  unfolding scan_words data_block after_scan
  scan_block count bm_idx taken need rest none w = (panic, w)
  scan_block count bm_idx taken need rest (some (blk, longs)) w =
      let s =
        scan_words (data_block w.index_per_block w.bitmapstart bm_idx)
          (add32 w.vol.rootblock.disksize w.bitmapstart) 0 need longs in
      after_scan count bm_idx (taken ++ s.blocks) (rest (taken ++ s.blocks) s.need) s.status
        (put_longs bm_idx blk s.bits w)

  -- The loop of `alloc_data_blocks` over the bitmap blocks: `taken` are the blocks so far and
  -- `need` is how many are wanted yet.
  unfoldable pub alloc_loop : ℕ → List ℕ → List ℕ → ℕ → Exec (Writer D) (List ℕ)
  unfolding scan_block
  alloc_loop count [] taken need w = (err (disk_full "not enough free blocks"), w)
  alloc_loop count (bm_idx ∷ idxs) taken need w =
      scan_block count bm_idx taken need (alloc_loop count idxs) (get_elem? w.data_bm bm_idx) w

  unfoldable pub alloc_data_blocks : ℕ → Exec (Writer D) (List ℕ)
  unfolding alloc_loop
  alloc_data_blocks count = do
    n ← gets (λ w. length w.data_bm)
    alloc_loop count (range 0 n) [] count

  abbrev pub gain_block : Writer D → Writer D
  gain_block w =
      set_rootblock w (record (w.vol.rootblock) { blocksfree = add32 w.vol.rootblock.blocksfree 1 })

  -- Set bit `remainder` of a bitmap block, where there is one.
  unfoldable pub free_bit : ℕ → ℕ → Option (ℕ × List ℕ) → Exec (Writer D) (Unit {0})
  unfolding write_data_bitmap_block
  free_bit bm_idx remainder none = pure tt
  free_bit bm_idx remainder (some (bm_blk, longs)) = do
    longs' ← lift (set_word longs (remainder / 32) (msb (remainder % 32)))
    modify (put_longs bm_idx bm_blk longs')
    write_data_bitmap_block bm_idx
    modify gain_block

  unfoldable pub free_data_block : ℕ → Exec (Writer D) (Unit {0})
  unfolding free_bit
  free_data_block blk w =
      let rel = blk - w.bitmapstart in
      let per_block = w.index_per_block * 32 in
      if ltb blk w.bitmapstart
      then (ok tt, w)
      else if w.index_per_block == 0
      then (panic, w)
      else free_bit (rel / per_block) (rel % per_block) (get_elem? w.data_bm (rel / per_block)) w

  unfoldable pub free_data_blocks : ℕ → Exec (Writer D) (Unit {0})
  unfolding get_chain free_data_block for_each
  free_data_blocks anodenr = do
    w ← gets (λ w. w)
    chain ← on_env (get_chain device w.vol.anodes anodenr)
    for_each chain (λ an. for_each (extent_blocks32 an) free_data_block)

  unfoldable pub load_reserved_bitmap : Exec (Writer D) (Unit {0})
  unfolding u32_words
  load_reserved_bitmap = do
    w ← gets (λ w. w)
    let bs = block_size w.vol.env.dev
    let rblkcluster = w.vol.rootblock.rblkcluster
    cluster ←
        lift (read_blocks w.vol.env.dev w.firstreserved rblkcluster (zeros (rblkcluster * bs)))
    words ← lift (u32_words cluster (bs + 12) (w.numreserved / 32 + 1))
    modify (λ w. record w { res_bitmap = words })

  abbrev pub spend_reserved : List ℕ → Writer D → Writer D
  spend_reserved words w =
      set_rootblock (record w { res_bitmap = words })
        (record (w.vol.rootblock) { reserved_free = sub32 w.vol.rootblock.reserved_free 1 })

  -- The option is the index of the first free block and the bitmap without it.
  abbrev pub reserve : Option (ℕ × List ℕ) → Exec (Writer D) ℕ
  reserve none w = (err (disk_full "out of reserved blocks"), w)
  reserve (some (idx, words)) w =
      (ok (add32 w.firstreserved (idx * w.rescluster)), spend_reserved words w)

  unfoldable pub alloc_reserved_block : Exec (Writer D) ℕ
  unfolding take_first
  alloc_reserved_block w = reserve (take_first 0 w.res_bitmap) w

  abbrev gain_reserved : List ℕ → Writer D → Writer D
  gain_reserved words w =
      set_rootblock (record w { res_bitmap = words })
        (record (w.vol.rootblock) { reserved_free = add32 w.vol.rootblock.reserved_free 1 })

  unfoldable pub free_reserved_block : ℕ → Exec (Writer D) (Unit {0})
  free_reserved_block blk = do
    w ← gets (λ w. w)
    if w.rescluster == 0
        then lift panic
        else let idx = sub32 blk w.firstreserved / w.rescluster in
          elim (get_elem? w.res_bitmap (idx / 32)) [
            | none ↦ pure tt
            | some word ↦
                modify (gain_reserved (set w.res_bitmap (idx / 32) (bit_or word (msb (idx % 32)))))
          ]
