-- ===== src/Writer/Bitmaps/Laws.antt =====
-- About `alloc_data_blocks` of crates/libpfs3/src/writer.rs: bitmaps and free count.
use pfs.Prelude.{
  add32, sub32, ℕ, zero, suc, ◌+◌, ◌≤◌, List, [], ◌∷◌, ◌++◌, ◌≡◌, refl, ap, sym, ◌∙◌, ◌*◌, ◌/◌, ◌%◌,
  get_elem?-set_ne, arith, Option, none, some, length, length-append, get_elem?, set, range,
}
use mathlib.Core.Path.{subst}
use pfs.Exec.{Exec, Ensures, Ensures-bind, modify, pure, ◌>>◌}
use pfs.Io.{BlockDevice}
use pfs.Writer.State.{Writer}
use pfs.Writer.Scan.{Scan, Status, full, unfinished, overflow, scan_words, data_block}
use pfs.Writer.Scan.Laws.{ones, bit_of}
use pfs.Writer.Scan.Accounts.{Accounts, AllBelow, AllBelow-append, Ends, scan_words-Accounts}
use pfs.Writer.Scan.Found.{
  AllAre, AllAre-append, AllAre-map, InWords, scan_words-InWords, data_block-some,
}
use pfs.Writer.Bitmaps.Keeps.{Keeps, write_data_bitmap_block-Keeps}
use pfs.Writer.Bitmaps.{
  write_data_bitmap_block, put_longs, spend_blocks, after_scan, scan_block, alloc_loop,
  alloc_data_blocks,
}

-- The set bits of all bitmap blocks: the blocks that the bitmaps show as free.
abbrev pub free_bits : List (ℕ × List ℕ) → ℕ
free_bits [] = 0
free_bits ((blk, longs) ∷ bms) = ones longs + free_bits bms

free_bits-set :
    (bms : List (ℕ × List ℕ)) (i blk blk' : ℕ) (longs longs' : List ℕ) (n : ℕ)
    → get_elem? bms i ≡ some (blk, longs)
    → ones longs ≡ ones longs' + n
    → free_bits bms ≡ free_bits (set bms i (blk', longs')) + n
free_bits-set [] i blk blk' longs longs' n e h = cc
free_bits-set (bm ∷ bms) zero blk blk' longs longs' n e h = ground (arith, e, h)
free_bits-set (bm ∷ bms) (suc i) blk blk' longs longs' n e h =
    omega (arith, free_bits-set bms i blk blk' longs longs' n e h)

-- The block is that of a bit that is set in a bitmap block of the writer.
pub record ShownFree {D : Type 0} (w : Writer D) (b : ℕ) : Type 0 where
  pub bm_idx : ℕ
  pub blk : ℕ
  pub longs : List ℕ
  pub bit : ℕ
  pub in_map : get_elem? w.data_bm bm_idx ≡ some (blk, longs)
  pub is_set : bit_of longs bit ≡ 1
  pub number : b ≡ bm_idx * w.index_per_block * 32 + bit + w.bitmapstart

-- An allocation of `count` blocks that began in the state `w0`.
module _ {D : Type 0} (device : BlockDevice D) (w0 : Writer D) (count : ℕ) where
  -- The number from which on no block is given out.
  abbrev pub limit_of : ℕ
  limit_of = add32 w0.vol.rootblock.disksize w0.bitmapstart

  -- The accounts under way, with the blocks `taken` so far, when the bitmap blocks from `lo` on are yet
  -- to be scanned.
  record Underway (lo : ℕ) (taken : List ℕ) (w : Writer D) : Type 0 where
    pub rootblock : w.vol.rootblock ≡ w0.vol.rootblock
    pub bitmapstart : w.bitmapstart ≡ w0.bitmapstart
    pub index_per_block : w.index_per_block ≡ w0.index_per_block
    pub later : (i : ℕ) → lo ≤ i → get_elem? w.data_bm i ≡ get_elem? w0.data_bm i
    pub bits : free_bits w0.data_bm ≡ free_bits w.data_bm + length taken
    pub below : AllBelow limit_of taken
    pub free : AllAre (ShownFree w0) taken

  -- The accounts when it has ended.
  pub record Allocated (blocks : List ℕ) (w : Writer D) : Type 0 where
    pub exact : length blocks ≡ count
    pub free : AllAre (ShownFree w0) blocks
    pub below : AllBelow limit_of blocks
    pub spent : w.vol.rootblock.blocksfree ≡ sub32 w0.vol.rootblock.blocksfree count
    pub bits : free_bits w0.data_bm ≡ free_bits w.data_bm + count

  Underway-Keeps :
      (lo : ℕ) (taken : List ℕ) (w w' : Writer D)
      → Keeps device w w'
      → Underway lo taken w
      → Underway lo taken w'
  Underway-Keeps lo taken w w' k u = record {
    rootblock = k.rootblock ∙ u.rootblock;
    bitmapstart = k.bitmapstart ∙ u.bitmapstart;
    index_per_block = k.index_per_block ∙ u.index_per_block;
    later = λ i h. ap (λ bms. get_elem? bms i) k.data_bm ∙ u.later i h;
    bits = rw k.data_bm u.bits;
    below = u.below;
    free = u.free;
  }

  -- A block found in the words of bitmap block `bm_idx`.
  InWords-ShownFree :
      (lo bm_idx blk : ℕ) (taken longs : List ℕ) (w : Writer D)
      → lo ≤ bm_idx
      → get_elem? w.data_bm bm_idx ≡ some (blk, longs)
      → Underway lo taken w
      → (b : ℕ) → InWords (data_block w.index_per_block w.bitmapstart bm_idx) 0 longs b
      → ShownFree w0 b
  InWords-ShownFree lo bm_idx blk taken longs w h e u b (j, one, found) = record {
    bm_idx = bm_idx;
    blk = blk;
    longs = longs;
    bit = j;
    in_map = sym (u.later bm_idx h) ∙ e;
    is_set = one;
    number =
        let b_is = data_block-some _ _ bm_idx (0 + j / 32) (j % 32) found in
        rw (sym u.index_per_block, sym u.bitmapstart) (omega (arith, b_is));
  }

  Underway-put_longs :
      (need bm_idx blk : ℕ) (taken longs : List ℕ) (s : Scan (List ℕ)) (w : Writer D)
      → get_elem? w.data_bm bm_idx ≡ some (blk, longs)
      → Accounts ones limit_of need longs s
      → AllAre (InWords (data_block w.index_per_block w.bitmapstart bm_idx) 0 longs) s.blocks
      → Underway bm_idx taken w
      → Underway (suc bm_idx) (taken ++ s.blocks) (put_longs device bm_idx blk s.bits w)
  Underway-put_longs need bm_idx blk taken longs s w e a found u = record {
    rootblock = u.rootblock;
    bitmapstart = u.bitmapstart;
    index_per_block = u.index_per_block;
    later = λ i h.
        get_elem?-set_ne w.data_bm bm_idx i (blk, s.bits) (λ same. omega (arith, same))
        ∙ u.later i (omega arith);
    bits = omega (
      arith,
      u.bits,
      length-append taken s.blocks,
      free_bits-set w.data_bm bm_idx blk blk longs s.bits (length s.blocks) e a.cleared,
    );
    below = AllBelow-append limit_of taken s.blocks u.below a.below;
    free = AllAre-append (ShownFree w0) taken s.blocks u.free (
        AllAre-map s.blocks (InWords-ShownFree bm_idx bm_idx blk taken longs w (omega arith) e u)
          found);
  }

  after_scan-Allocated :
      (need bm_idx : ℕ) (taken : List ℕ) (rest : Exec (Writer D) (List ℕ)) (st : Status)
      (w : Writer D)
      → Underway (suc bm_idx) taken w
      → length taken + need ≡ count
      → Ends st need
      → ((w' : Writer D) → 1 ≤ need → Underway (suc bm_idx) taken w' → Ensures Allocated (rest w'))
      → Ensures Allocated (after_scan device count bm_idx taken rest st w)
  unfolding after_scan
  after_scan-Allocated need bm_idx taken rest full w u sum ended k =
      Ensures-bind _ _ (write_data_bitmap_block device bm_idx)
        (λ _. modify (spend_blocks device count) >> pure taken) w
        (write_data_bitmap_block-Keeps device bm_idx w)
        (λ _ w' keeps.
          let v = Underway-Keeps (suc bm_idx) taken w w' keeps u in
          record {
            exact = omega (arith, sum, ended);
            free = v.free;
            below = v.below;
            spent = ap (λ rb. sub32 rb.blocksfree count) v.rootblock;
            bits = omega (arith, v.bits, sum, ended);
          })
  after_scan-Allocated need bm_idx taken rest overflow w u sum ended k = tt
  after_scan-Allocated need bm_idx [] rest unfinished w u sum ended k = k w ended u
  after_scan-Allocated need bm_idx (b ∷ bs) rest unfinished w u sum ended k =
      Ensures-bind _ _ (write_data_bitmap_block device bm_idx) (λ _. rest) w
        (write_data_bitmap_block-Keeps device bm_idx w)
        (λ _ w' keeps. k w' ended (Underway-Keeps (suc bm_idx) (b ∷ bs) w w' keeps u))

  scan_block-Allocated :
      (bm_idx : ℕ) (taken : List ℕ) (need : ℕ) (rest : List ℕ → ℕ → Exec (Writer D) (List ℕ))
      (o : Option (ℕ × List ℕ)) (w : Writer D)
      → get_elem? w.data_bm bm_idx ≡ o
      → Underway bm_idx taken w
      → length taken + need ≡ count
      → 1 ≤ need
      → ((taken' : List ℕ) (need' : ℕ) (w' : Writer D)
          → Underway (suc bm_idx) taken' w'
          → length taken' + need' ≡ count
          → 1 ≤ need'
          → Ensures Allocated (rest taken' need' w'))
      → Ensures Allocated (scan_block device count bm_idx taken need rest o w)
  unfolding scan_block
  scan_block-Allocated bm_idx taken need rest none w e u sum pos k = tt
  scan_block-Allocated bm_idx taken need rest (some (blk, longs)) w e u sum pos k =
      let number = data_block w.index_per_block w.bitmapstart bm_idx in
      let limit = add32 w.vol.rootblock.disksize w.bitmapstart in
      let s = scan_words number limit 0 need longs in
      let limit_is : limit ≡ limit_of =
        ap (λ rb. add32 rb.disksize w.bitmapstart) u.rootblock
        ∙ ap (add32 w0.vol.rootblock.disksize) u.bitmapstart in
      let a : Accounts ones limit_of need longs s =
        subst (λ l. Accounts ones l need longs s) limit_is
          (scan_words-Accounts limit number 0 need longs pos) in
      let total : length (taken ++ s.blocks) + s.need ≡ count =
        omega (arith, length-append taken s.blocks, a.found, sum) in
      after_scan-Allocated s.need bm_idx (taken ++ s.blocks) (rest (taken ++ s.blocks) s.need)
        s.status (put_longs device bm_idx blk s.bits w)
        (Underway-put_longs need bm_idx blk taken longs s w e a
          (scan_words-InWords number limit 0 need longs) u)
        total a.ended (λ w' pos' u'. k (taken ++ s.blocks) s.need w' u' total pos')

  alloc_loop-Allocated :
      (lo n : ℕ) (taken : List ℕ) (need : ℕ) (w : Writer D)
      → Underway lo taken w
      → length taken + need ≡ count
      → 1 ≤ need
      → Ensures Allocated (alloc_loop device count (range lo n) taken need w)
  unfolding alloc_loop range
  alloc_loop-Allocated lo zero taken need w u sum pos = tt
  alloc_loop-Allocated lo (suc n) taken need w u sum pos =
      scan_block-Allocated lo taken need (alloc_loop device count (range (suc lo) n))
        (get_elem? w.data_bm lo) w refl u sum pos
        (λ taken' need' w' u'. alloc_loop-Allocated (suc lo) n taken' need' w' u')

  -- An allocation of data blocks that succeeds gives as many blocks as were asked for. Each is the block of
  -- a bit that was set in the bitmaps when it began, by the number that the bitmap block, the bit and
  -- the start of the bitmaps make, and lies below the u32 sum of the size of the disk and that start. The
  -- free count and the number of set bits fall by the number of the blocks.
  pub alloc_data_blocks-Allocated :
      1 ≤ count → Ensures Allocated (alloc_data_blocks device count w0)
  unfolding alloc_data_blocks
  alloc_data_blocks-Allocated pos =
      alloc_loop-Allocated 0 (length w0.data_bm) [] count w0
        (record {
          rootblock = refl;
          bitmapstart = refl;
          index_per_block = refl;
          later = λ i h. refl;
          bits = omega arith;
          below = tt;
          free = tt;
        })
        (omega arith) pos
