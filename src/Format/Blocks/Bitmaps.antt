-- ===== src/Format/Blocks/Bitmaps.antt =====
-- About the bitmap blocks that a format writes.
use pfs.Prelude.{
  ℕ, ◌+◌, ◌*◌, ◌%◌, ◌^◌, ◌≤◌, ◌<◌, List, ◌≡◌, refl, ap, ◌∙◌, length, length-replicate, arith, ltb,
  word_bit, if◌then◌else◌, mul32, le→ltb_false,
}
use pfs.Error.{ok, Returns, Returns-map}
use pfs.Bytes.{zeros, from_be, u16_at, u32_at}
use pfs.Bytes.Laws.{word_at, u16_at-same, u32_at-same}
use pfs.Bytes.Fields.Laws.{
  written, field_at, put_fields_eq, length-written, u32_written, u16_written, written-after,
  read_at-zeros,
}
use pfs.Ondisk.Constants.{bmblkid}
use pfs.Ondisk.Headers.{parse_bitmap_block}
use pfs.Format.Geometry.{Geometry, index_per_block, bits_per_bmb}
use pfs.Format.Blocks.{block_header, bitmap_block}
use pfs.Format.Blocks.Words.{Fills, ZeroFrom, put_free_words-Fills}

parse_bitmap_block_eq :
    (b : List ℕ) (ds seq : ℕ)
    → 12 ≤ length b
    → u16_at b 0 ≡ ok bmblkid
    → u32_at b 4 ≡ ok ds
    → u32_at b 8 ≡ ok seq
    → parse_bitmap_block b ≡ ok (record { id = bmblkid; datestamp = ds; seqnr = seq })
unfolding parse_bitmap_block
parse_bitmap_block_eq b ds seq room e0 e4 e8 = rw (le→ltb_false (length b) 12 room, e0, e4, e8) refl

-- Bit `k` of word `i` of the bitmap block `seq` stands for the data block of this number.
abbrev pub block_number : Geometry → ℕ → ℕ → ℕ → ℕ
block_number g seq i k = (seq * index_per_block g + i) * 32 + k

-- A bitmap block whose set bits are those of the data blocks.
abbrev pub FreesBelow : Geometry → ℕ → ℕ → List ℕ → Type 0
FreesBelow g db seq b =
    (parse_bitmap_block b ≡ ok (record { id = bmblkid; datestamp = 1; seqnr = seq }))
    × (length b ≡ g.resblocksize)
    × ((i k : ℕ)
        → i < index_per_block g
        → k < 32
        → word_bit (word_at b (12 + i * 4)) k ≡ (if ltb (block_number g seq i k) db then 1 else 0))

abbrev head : Geometry → ℕ → List ℕ
head g seq = written (zeros g.resblocksize) (block_header bmblkid seq)

regroup : (seq x i k : ℕ) → (seq * x + i) * 32 + k ≡ seq * (x * 32) + i * 32 + k
regroup seq x i k = grind arith

seq_le : (seq y : ℕ) → 1 ≤ y → seq ≤ seq * y
seq_le seq y h = grind arith

index_per_block-bounds :
    (g : Geometry)
    → 1024 ≤ g.resblocksize
    → (1 ≤ index_per_block g) × (12 + index_per_block g * 4 ≤ g.resblocksize)
unfolding index_per_block
index_per_block-bounds g large = omega arith

seq_small :
    (seq x : ℕ)
    → 1 ≤ x
    → (seq + 1) * (x * 32) < 2 ^ 32
    → (seq < 2 ^ 32)
      × (mul32 seq (mul32 x 32) ≡ seq * (x * 32))
      × (seq * (x * 32) + x * 32 ≤ 2 ^ 32)
seq_small seq x h k =
    let e : (seq + 1) * (x * 32) ≡ seq * (x * 32) + x * 32 = grind arith in
    let bound = seq_le seq (x * 32) (omega arith) in
    let fits : x * 32 % 2 ^ 32 ≡ x * 32 = omega (arith, e) in
    (omega (arith, e, bound), rw fits (omega (arith, e)), omega (arith, e))

head-zero :
    (g : Geometry) (seq : ℕ) → 1024 ≤ g.resblocksize → ZeroFrom 0 (index_per_block g) (head g seq)
unfolding from_be
head-zero g seq large i lo hi = ap from_be (
    written-after (zeros g.resblocksize) (block_header bmblkid seq) 12 (12 + i * 4) 4 refl
      (omega arith)
    ∙ read_at-zeros g.resblocksize (12 + i * 4) 4 (omega (arith, index_per_block-bounds g large)))

Fills-FreesBelow :
    (g : Geometry) (db seq : ℕ) (b : List ℕ)
    → 1024 ≤ g.resblocksize
    → seq < 2 ^ 32
    → Fills db (seq * (index_per_block g * 32)) 0 (index_per_block g) (head g seq) b
    → FreesBelow g db seq b
unfolding field_at
Fills-FreesBelow g db seq b large small f =
    let long : 1024 ≤ length (zeros g.resblocksize) =
      omega (arith, length-replicate {A = ℕ} g.resblocksize 0) in
    let fs = block_header bmblkid seq in
    let len = length-written (zeros g.resblocksize) fs in
    let word = u32_written (zeros g.resblocksize) fs 12 refl (omega (arith, long)) in
    let room : 12 ≤ length b = omega (arith, f.same_length, len, long) in
    let room' : 12 ≤ length (head g seq) = omega (arith, len, long) in
    (
      parse_bitmap_block_eq b 1 seq room
          (u16_at-same b (head g seq) 0 (omega arith) (omega arith) (f.before 0 2 (omega arith))
            ∙ u16_written (zeros g.resblocksize) fs 12 refl (omega (arith, long)) 0 bmblkid refl
                (omega arith) (omega arith))
          (u32_at-same b (head g seq) 4 (omega arith) (omega arith) (f.before 4 4 (omega arith))
            ∙ word 4 1 refl (omega arith) (omega arith))
          (u32_at-same b (head g seq) 8 (omega arith) (omega arith) (f.before 8 4 (omega arith))
            ∙ word 8 seq refl small (omega arith)),
      f.same_length ∙ len ∙ length-replicate {A = ℕ} g.resblocksize 0,
      λ i k hi hk.
          rw (regroup seq (index_per_block g) i k) (f.bits i k (omega arith) (omega arith) hk),
    )

-- A bitmap block that a format writes parses as the block of its number, and each bit in it is set exactly
-- if the number that it stands for is that of a data block, so that all data blocks are free and
-- nothing else is. The reserved block size is at least 1024, and the bits of the block stand
-- for numbers of 32 bits.
pub bitmap_block-FreesBelow :
    (g : Geometry) (db seq : ℕ)
    → 1024 ≤ g.resblocksize
    → (seq + 1) * (index_per_block g * 32) < 2 ^ 32
    → Returns (FreesBelow g db seq) (bitmap_block g db seq)
unfolding bitmap_block bits_per_bmb
bitmap_block-FreesBelow g db seq large small =
    let long : 1024 ≤ length (zeros g.resblocksize) =
      omega (arith, length-replicate {A = ℕ} g.resblocksize 0) in
    let (lt, start, room) =
      seq_small seq (index_per_block g) (index_per_block-bounds g large).0 small in
    rw
      (
        put_fields_eq (zeros g.resblocksize) (block_header bmblkid seq) 12 refl
            (omega (arith, long)),
        start,
      )
      (Returns-map
        (put_free_words-Fills db (seq * (index_per_block g * 32)) (head g seq) 0 (index_per_block g)
          (omega (
            arith,
            length-replicate {A = ℕ} g.resblocksize 0,
            index_per_block-bounds g large,
            length-written (zeros g.resblocksize) (block_header bmblkid seq),
          ))
          (omega (arith, room)) (head-zero g seq large))
        (λ b f. Fills-FreesBelow g db seq b large lt f))
