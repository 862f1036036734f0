-- ===== src/Io/FileDevice/Laws.antt =====
-- About `FileBlockDevice` of crates/libpfs3/src/io.rs as a store of blocks.
use pfs.Prelude.{
  take_all, ℕ, ◌+◌, ◌-◌, ◌*◌, ◌≤◌, List, [], ◌∷◌, ◌==◌, ◌||◌, ◌++◌, true, false, not, ◌&&◌, ltb,
  leb, length, take, drop, ◌≡◌, refl, ap, ◌∙◌, sym, ◌⊎◌, inl, inr, arith, write_at, read_at,
  length-append, length-take, length-drop, length-replicate, read_at-append, read_at-append_left,
  read_at-take, drop-drop, write_at-prefix, append-nil,
}
use pfs.Error.{Result, ok}
use mathlib.Core.Path.{subst}
use native.Mathlib.Nat.{mul-le-mul_right}
use pfs.Bytes.{zeros}
use pfs.Bytes.Laws.{length-read_at}
use pfs.Io.FileDevice.{FileBlockDevice, splice, file_write, read_blocks, write_blocks}

-- The bytes before the written range, and with it.
abbrev before : List ℕ → ℕ → List ℕ
before file offset = take offset (file ++ zeros (offset - length file))

abbrev upto : List ℕ → ℕ → List ℕ → List ℕ
upto file offset bytes = before file offset ++ bytes

length-before : (file : List ℕ) (offset : ℕ) → length (before file offset) ≡ offset
length-before file offset =
    let pad = zeros (offset - length file) in
    let z : length pad ≡ offset - length file = length-replicate (offset - length file) _ in
    omega (arith, z, length-append file pad, length-take offset (file ++ pad))

length-upto :
    (file : List ℕ) (offset : ℕ) (bytes : List ℕ)
    → length (upto file offset bytes) ≡ offset + length bytes
length-upto file offset bytes =
    omega (arith, length-before file offset, length-append (before file offset) bytes)

length-splice :
    (file : List ℕ) (offset : ℕ) (bytes : List ℕ)
    → length (splice file offset bytes)
      ≡ offset + length bytes + (length file - (offset + length bytes))
length-splice file offset bytes = omega (
  arith,
  length-upto file offset bytes,
  length-append (upto file offset bytes) (drop (offset + length bytes) file),
  length-drop (offset + length bytes) file,
)

read-splice_self :
    (file : List ℕ) (offset : ℕ) (bytes : List ℕ)
    → read_at (splice file offset bytes) offset (length bytes) ≡ bytes
read-splice_self file offset bytes =
    read_at-append_left (upto file offset bytes) (drop (offset + length bytes) file) offset
      (length bytes) (omega (arith, length-upto file offset bytes))
    ∙ read_at-append (before file offset) bytes offset 0 (length bytes)
        (omega (arith, length-before file offset))
    ∙ take_all bytes

read-splice_ne :
    (file : List ℕ) (offset : ℕ) (bytes : List ℕ) (at n : ℕ)
    → at + n ≤ length file
    → (at + n ≤ offset) ⊎ (offset + length bytes ≤ at)
    → read_at (splice file offset bytes) at n ≡ read_at file at n
read-splice_ne file offset bytes at n inside (inl below) =
    let pad = zeros (offset - length file) in
    read_at-append_left (upto file offset bytes) (drop (offset + length bytes) file) at n
      (omega (arith, length-upto file offset bytes))
    ∙ read_at-append_left (before file offset) bytes at n (omega (arith, length-before file offset))
    ∙ read_at-take (file ++ pad) at n offset below
    ∙ read_at-append_left file pad at n inside
read-splice_ne file offset bytes at n inside (inr above) =
    let rest = drop (offset + length bytes) file in
    read_at-append (upto file offset bytes) rest at (at - (offset + length bytes)) n
      (omega (arith, length-upto file offset bytes))
    ∙ ap (take n)
        (drop-drop file (offset + length bytes) (at - (offset + length bytes)) at (omega arith))

file_write-longer :
    (file : List ℕ) (offset : ℕ) (bytes : List ℕ)
    → length file ≤ length (file_write file offset bytes)
file_write-longer file offset [] = omega arith
file_write-longer file offset (b ∷ bytes) = omega (arith, length-splice file offset (b ∷ bytes))

file_write-reaches :
    (file : List ℕ) (offset : ℕ) (bytes : List ℕ)
    → (length bytes ≡ 0) ⊎ (offset + length bytes ≤ length (file_write file offset bytes))
file_write-reaches file offset [] = inl refl
file_write-reaches file offset (b ∷ bytes) =
    inr (omega (arith, length-splice file offset (b ∷ bytes)))

read-file_write_self :
    (file : List ℕ) (offset : ℕ) (bytes : List ℕ)
    → read_at (file_write file offset bytes) offset (length bytes) ≡ bytes
read-file_write_self file offset [] = refl
read-file_write_self file offset (b ∷ bytes) = read-splice_self file offset (b ∷ bytes)

read-file_write_ne :
    (file : List ℕ) (offset : ℕ) (bytes : List ℕ) (at n : ℕ)
    → at + n ≤ length file
    → (at + n ≤ offset) ⊎ (offset + length bytes ≤ at)
    → read_at (file_write file offset bytes) at n ≡ read_at file at n
read-file_write_ne file offset [] at n inside sep = refl
read-file_write_ne file offset (b ∷ bytes) at n inside sep =
    read-splice_ne file offset (b ∷ bytes) at n inside sep

-- Where a block lies in the file.
abbrev pub offset_of : FileBlockDevice → ℕ → ℕ
offset_of d block = d.partition_offset + block * d.block_bytes

-- A device that takes `count` blocks at `block`.
pub record IsWritable (d : FileBlockDevice) (block count : ℕ) : Type 0 where
  pub writable : d.writable ≡ true
  pub in_range : (d.total_blocks ≡ 0) ⊎ (block + count ≤ d.total_blocks)

abbrev written : FileBlockDevice → ℕ → List ℕ → FileBlockDevice
written d block bytes = record d { file = file_write d.file (offset_of d block) bytes }

write_blocks_eq :
    (d : FileBlockDevice) (block count : ℕ) (bytes : List ℕ)
    → IsWritable d block count
    → length bytes ≡ count * d.block_bytes
    → write_blocks block count bytes d ≡ (ok tt, written d block bytes)
unfolding write_blocks
write_blocks_eq d block count bytes w len =
    let can : not d.writable ≡ false = ap not w.writable in
    let fits : (ltb 0 d.total_blocks && ltb d.total_blocks (block + count)) ≡ false =
      ground (arith, w.in_range) in
    let all : leb (count * d.block_bytes) (length bytes) ≡ true = ground (arith, len) in
    let same : take (count * d.block_bytes) bytes ≡ bytes = rw (sym len) (take_all bytes) in
    rw (can, fits, all, same) refl

write_over : (buf bytes : List ℕ) → length buf ≡ length bytes → write_at buf 0 bytes ≡ bytes
write_over buf bytes e =
    ap (λ b. write_at b 0 bytes) (sym (append-nil buf))
    ∙ write_at-prefix buf [] bytes e
    ∙ append-nil bytes

length-piece :
    (file : List ℕ) (offset n : ℕ)
    → (n ≡ 0) ⊎ (offset + n ≤ length file)
    → length (read_at file offset n) ≡ n
length-piece file offset n (inl e) = rw e refl
length-piece file offset n (inr h) = length-read_at file offset n h

read_blocks_eq :
    (d : FileBlockDevice) (block count : ℕ) (buf : List ℕ)
    → length buf ≡ count * d.block_bytes
    → (count * d.block_bytes ≡ 0) ⊎ (offset_of d block + count * d.block_bytes ≤ length d.file)
    → read_blocks d block count buf
      ≡ ok (read_at d.file (offset_of d block) (count * d.block_bytes))
unfolding read_blocks
read_blocks_eq d block count buf len inside =
    let enough : ltb (length buf) (count * d.block_bytes) ≡ false = ground (arith, len) in
    let piece = read_at d.file (offset_of d block) (count * d.block_bytes) in
    let size : length piece ≡ count * d.block_bytes =
      length-piece d.file (offset_of d block) (count * d.block_bytes) inside in
    let fits : (count * d.block_bytes == 0
          || leb (offset_of d block + count * d.block_bytes) (length d.file))
        ≡ true =
      ground (arith, inside) in
    rw (enough, fits) (ap ok (write_over buf piece (len ∙ sym size)))

scaled : (a n b k : ℕ) → a + n ≤ b → a * k + n * k ≤ b * k
scaled a n b k h =
    let both : (a + n) * k ≤ b * k = mul-le-mul_right k h in
    let split : (a + n) * k ≡ a * k + n * k = grind arith in omega (arith, both, split)

apart :
    (d : FileBlockDevice) (block count other n : ℕ)
    → (other + n ≤ block) ⊎ (block + count ≤ other)
    → (offset_of d other + n * d.block_bytes ≤ offset_of d block)
      ⊎ (offset_of d block + count * d.block_bytes ≤ offset_of d other)
apart d block count other n (inl h) = inl (omega (arith, scaled other n block d.block_bytes h))
apart d block count other n (inr h) = inr (omega (arith, scaled block count other d.block_bytes h))

-- What a write of `bytes` to `count` blocks at `block` leaves.
abbrev pub StoresBlocks :
    FileBlockDevice → ℕ → ℕ → List ℕ → Result (Unit {0}) × FileBlockDevice → Type 0
StoresBlocks d block count bytes p =
    (p.0 ≡ ok tt)
    × ((buf : List ℕ)
        → length buf ≡ count * d.block_bytes
        → read_blocks (p.1) block count buf ≡ ok bytes)
    × ((other n : ℕ) (buf : List ℕ)
        → length buf ≡ n * d.block_bytes
        → offset_of d other + n * d.block_bytes ≤ length d.file
        → (other + n ≤ block) ⊎ (block + count ≤ other)
        → read_blocks (p.1) other n buf ≡ read_blocks d other n buf)

written-Stores :
    (d : FileBlockDevice) (block count : ℕ) (bytes : List ℕ)
    → length bytes ≡ count * d.block_bytes
    → StoresBlocks d block count bytes (ok tt, written d block bytes)
written-Stores d block count bytes len =
    let d' = written d block bytes in
    let offset = offset_of d block in
    let longer = file_write-longer d.file offset bytes in
    (
      refl,
      λ buf e.
          read_blocks_eq d' block count buf e (rw len at (file_write-reaches d.file offset bytes))
          ∙ rw (sym len) (ap ok (read-file_write_self d.file offset bytes)),
      λ other n buf e inside sep.
          read_blocks_eq d' other n buf e (inr (omega (arith, longer, inside)))
          ∙ ap ok (
              read-file_write_ne d.file offset bytes (offset_of d other) (n * d.block_bytes) inside
                (rw len (apart d block count other n sep)))
          ∙ sym (read_blocks_eq d other n buf e (inr inside)),
    )

-- On a writable device a write of whole blocks within its range succeeds; reading the blocks back gives
-- what was written, and other blocks inside the file, before or behind, read as before.
pub write_blocks-Stores :
    (d : FileBlockDevice) (block count : ℕ) (bytes : List ℕ)
    → IsWritable d block count
    → length bytes ≡ count * d.block_bytes
    → StoresBlocks d block count bytes (write_blocks block count bytes d)
write_blocks-Stores d block count bytes w len =
    subst (StoresBlocks d block count bytes) (sym (write_blocks_eq d block count bytes w len))
      (written-Stores d block count bytes len)
