-- ===== src/Bitmap.antt =====
-- crates/libpfs3/src/bitmap.rs: the blocks of the data bitmap, and counting the free blocks.
use pfs.Prelude.{
  ℕ, zero, suc, ◌+◌, ◌-◌, ◌*◌, ◌/◌, ◌%◌, ◌^◌, List, [], ◌∷◌, bit_and, ltb, ◌==◌, if◌then◌else◌,
  length, get_or, min, Option, none, some, count_ones,
}
use pfs.Error.{panic}
use pfs.Exec.{Exec, pure, lift, ◌>>=◌}
use pfs.Bytes.{u32_at, u32_words}
use pfs.Io.{BlockDevice}
use pfs.Cache.{Env, read_reserved}
use pfs.Ondisk.Constants.{bitmap_block_header_size, index_block_header_size}
use pfs.Ondisk.Rootblock.{Rootblock, index_per_block}

pub record BitmapReader : Type 0 where
  pub reserved_blksize : ℕ
  pub index_per_block : ℕ
  pub bitmapindex : List ℕ

unfoldable pub new_bitmap_reader : Rootblock → BitmapReader
unfolding index_per_block
new_bitmap_reader rb = record {
  reserved_blksize = rb.reserved_blksize;
  index_per_block = index_per_block rb;
  bitmapindex = rb.bitmapindex;
}

-- The ones among the first `min(remaining, 32)` bits of a word, from the highest.
unfoldable pub count_word : ℕ → ℕ → ℕ
count_word word remaining =
    let bits = min remaining 32 in
    if bits == 32
    then count_ones 32 word
    else count_ones 32 (bit_and word (0xFFFF_FFFF * 2 ^ (32 - bits) % 2 ^ 32))

-- The inner loop of `count_free`, over the words of one bitmap block: the ones counted so far and
-- the blocks that remain. Here `-` is `saturating_sub`.
unfoldable pub count_words : List ℕ → ℕ → ℕ → ℕ × ℕ
unfolding count_word
count_words [] free remaining = (free, remaining)
count_words (word ∷ words) free remaining =
    let rest = count_words words (free + count_word word remaining) (remaining - 32) in
    if remaining == 0 then (free, remaining) else rest

module _ {D : Type 0} (device : BlockDevice D) (r : BitmapReader) where
  abbrev nonzero : ℕ → Option ℕ
  nonzero v = if v == 0 then none else some v

  unfoldable pub get_bitmap_block : ℕ → Exec (Env D) (Option ℕ)
  unfolding read_reserved u32_at
  get_bitmap_block seqnr =
      let ipb = r.index_per_block in
      if ipb == 0
      then lift panic
      else let bmi_blk = get_or r.bitmapindex (seqnr / ipb) 0 in
        if bmi_blk == 0 then pure none else do
          bytes ← read_reserved device bmi_blk r.reserved_blksize
          let off = index_block_header_size + seqnr % ipb * 4
          if ltb (length bytes) (off + 4)
              then pure none
              else do v ← lift (u32_at bytes off); pure (nonzero v)

  -- The outer loop of `count_free` on fuel; `panic` stands for fuel that ran out.
  unfoldable pub count_loop : ℕ → ℕ → ℕ → ℕ → Exec (Env D) ℕ
  unfolding get_bitmap_block u32_words count_words
  count_loop zero seqnr free remaining = if remaining == 0 then pure free else lift panic
  count_loop (suc fuel) seqnr free remaining = if remaining == 0 then pure free else do
    found ← get_bitmap_block seqnr
    elim found [
      | none ↦ pure free
      | some blk ↦ do
        bytes ← read_reserved device blk r.reserved_blksize
        words ← lift (u32_words bytes bitmap_block_header_size (length bytes / 4))
        let counted = count_words words free remaining
        count_loop fuel (seqnr + 1) counted.0 counted.1
    ]

  -- Past the last index block there is no bitmap block, which bounds the rounds.
  unfoldable pub count_free : ℕ → Exec (Env D) ℕ
  unfolding count_loop
  count_free disksize = count_loop (length r.bitmapindex * r.index_per_block + 1) 0 0 disksize
