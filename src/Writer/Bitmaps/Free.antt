-- ===== src/Writer/Bitmaps/Free.antt =====
-- About `free_data_block` of crates/libpfs3/src/writer.rs: bitmaps and free count.
use pfs.Prelude.{
  add32, ℕ, zero, suc, ◌+◌, ◌-◌, ◌*◌, ◌/◌, ◌%◌, ◌≤◌, ◌<◌, ◌==◌, List, [], ◌∷◌, false, ltb, ◌≡◌,
  refl, ap, sym, ◌∙◌, arith, some, get_elem?, set, bit_or, msb, word_bit, count_ones,
  count_ones-set,
}
use mathlib.Core.Path.{subst}
use pfs.Error.{ok}
use pfs.Exec.{Ensures, Ensures-bind, continue, modify, ◌>>◌}
use pfs.Io.{BlockDevice}
use pfs.Writer.State.{Writer}
use pfs.Writer.Scan.Laws.{ones}
use pfs.Writer.Bitmaps.{
  set_word, write_data_bitmap_block, put_longs, gain_block, free_bit, free_data_block,
}
use pfs.Writer.Bitmaps.Keeps.{write_data_bitmap_block-Keeps}
use pfs.Writer.Bitmaps.Laws.{free_bits}

ones-set :
    (longs : List ℕ) (li word word' : ℕ)
    → get_elem? longs li ≡ some word
    → count_ones 32 word' ≡ count_ones 32 word + 1
    → ones (set longs li word') ≡ ones longs + 1
ones-set [] li word word' e h = cc
ones-set (w ∷ longs) zero word word' e h = ground (arith, e, h)
ones-set (w ∷ longs) (suc li) word word' e h = omega (arith, ones-set longs li word word' e h)

free_bits-set_more :
    (bms : List (ℕ × List ℕ)) (i blk blk' : ℕ) (longs longs' : List ℕ)
    → get_elem? bms i ≡ some (blk, longs)
    → ones longs' ≡ ones longs + 1
    → free_bits (set bms i (blk', longs')) ≡ free_bits bms + 1
free_bits-set_more [] i blk blk' longs longs' e h = cc
free_bits-set_more (bm ∷ bms) zero blk blk' longs longs' e h = ground (arith, e, h)
free_bits-set_more (bm ∷ bms) (suc i) blk blk' longs longs' e h =
    omega (arith, free_bits-set_more bms i blk blk' longs longs' e h)

-- One more block is free, in the count and in the bitmaps.
pub record OneFreed {D : Type 0} (w w' : Writer D) : Type 0 where
  pub counted : w'.vol.rootblock.blocksfree ≡ add32 w.vol.rootblock.blocksfree 1
  pub marked : free_bits w'.data_bm ≡ free_bits w.data_bm + 1

-- The bit of a block, where its bitmap block is in memory and has the word.
pub record HasBit {D : Type 0} (w : Writer D) (blk bm_blk word : ℕ) (longs : List ℕ) : Type 0 where
  pub above : w.bitmapstart ≤ blk
  pub some_words : 0 < w.index_per_block
  pub block_at :
      get_elem? w.data_bm ((blk - w.bitmapstart) / (w.index_per_block * 32)) ≡ some (bm_blk, longs)
  pub word_at : get_elem? longs ((blk - w.bitmapstart) % (w.index_per_block * 32) / 32) ≡ some word

set_word_eq :
    (longs : List ℕ) (li word mask : ℕ)
    → get_elem? longs li ≡ some word
    → set_word longs li mask ≡ ok (set longs li (bit_or word mask))
set_word_eq longs li word mask e = rw (e, set_word) refl

module _ {D : Type 0} (device : BlockDevice D) where
  free_bit-OneFreed :
      (bm_idx remainder bm_blk word : ℕ) (longs : List ℕ) (w : Writer D)
      → get_elem? w.data_bm bm_idx ≡ some (bm_blk, longs)
      → get_elem? longs (remainder / 32) ≡ some word
      → word_bit word (remainder % 32) ≡ 0
      → Ensures (λ _. OneFreed w) (free_bit device bm_idx remainder (some (bm_blk, longs)) w)
  unfolding free_bit
  free_bit-OneFreed bm_idx remainder bm_blk word longs w e f used =
      let li = remainder / 32 in
      let bit = remainder % 32 in
      let longs' = set longs li (bit_or word (msb bit)) in
      let put = put_longs device bm_idx bm_blk longs' w in
      let one_more : free_bits put.data_bm ≡ free_bits w.data_bm + 1 =
        free_bits-set_more w.data_bm bm_idx bm_blk bm_blk longs longs' e (
          ones-set longs li word (bit_or word (msb bit)) f
            (count_ones-set word bit (omega arith) used)) in
      subst
        (λ r.
          Ensures (λ (_ : Unit {0}). OneFreed w)
            (continue r
              (λ longs''.
                modify (put_longs device bm_idx bm_blk longs'')
                >> (write_data_bitmap_block device bm_idx >> modify (gain_block device)))
              w))
        (sym (set_word_eq longs li word (msb bit) f))
        (Ensures-bind _ _ (write_data_bitmap_block device bm_idx) (λ _. modify (gain_block device))
          put (write_data_bitmap_block-Keeps device bm_idx put)
          (λ _ w' keeps. record {
            counted = ap (λ rb. add32 rb.blocksfree 1) keeps.rootblock;
            marked = ap free_bits keeps.data_bm ∙ one_more;
          }))

-- Freeing a block whose bit is clear, when no error stops it, sets that one bit more in the bitmaps and
-- raises the free count by one.
pub free_data_block-OneFreed :
    {D : Type 0} (device : BlockDevice D) (blk bm_blk word : ℕ) (longs : List ℕ) (w : Writer D)
    → HasBit w blk bm_blk word longs
    → word_bit word ((blk - w.bitmapstart) % (w.index_per_block * 32) % 32) ≡ 0
    → Ensures (λ _. OneFreed w) (free_data_block device blk w)
unfolding free_data_block
free_data_block-OneFreed device blk bm_blk word longs w has used =
    let per_block = w.index_per_block * 32 in
    let rel = blk - w.bitmapstart in
    let above : ltb blk w.bitmapstart ≡ false = ground (arith, has.above) in
    let words : (w.index_per_block == 0) ≡ false = ground (arith, has.some_words) in
    rw (above, words)
      (subst
        (λ o.
          Ensures (λ (_ : Unit {0}). OneFreed w)
            (free_bit device (rel / per_block) (rel % per_block) o w))
        (sym has.block_at)
        (free_bit-OneFreed device (rel / per_block) (rel % per_block) bm_blk word longs w
          has.block_at has.word_at used))
