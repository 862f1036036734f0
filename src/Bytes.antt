-- ===== src/Bytes.antt =====
-- The byte buffers of crates/libpfs3/src/ondisk/mod.rs: Rust slices, which panic out of range,
-- the big-endian reads, and `put_u16` and `put_u32`.
pub mod Laws
pub mod Fields
use pfs.Prelude.{
  ℕ, zero, suc, ◌+◌, ◌-◌, ◌*◌, ◌/◌, ◌%◌, ◌^◌, List, [], ◌∷◌, ◌&&◌, Option, none, some, length,
  get_elem?, read_at, write_at, set, replicate, leb, ltb, if◌then◌else◌, map,
}
use pfs.Error.{Result, ok, err, panic, io, ◌>>=◌}

-- `data[i]`
abbrev pub index : List ℕ → ℕ → Result ℕ
index buf i = elim (get_elem? buf i) [ none ↦ panic | some b ↦ ok b ]

-- `&data[lo..hi]`
abbrev pub slice : List ℕ → ℕ → ℕ → Result (List ℕ)
slice buf lo hi = if leb lo hi && leb hi (length buf) then ok (read_at buf lo (hi - lo)) else panic

-- `data[lo..lo + bytes.len()].copy_from_slice(bytes)`
abbrev pub copy_from_slice : List ℕ → ℕ → List ℕ → Result (List ℕ)
copy_from_slice buf lo bytes =
    if leb (lo + length bytes) (length buf) then ok (write_at buf lo bytes) else panic

-- `data[i] = byte`
abbrev pub set_byte : List ℕ → ℕ → ℕ → Result (List ℕ)
set_byte buf i byte = if ltb i (length buf) then ok (set buf i byte) else panic

-- `from_be_bytes`
unfoldable pub from_be : List ℕ → ℕ
from_be (a ∷ b ∷ []) = a * 256 + b
from_be (a ∷ b ∷ c ∷ d ∷ []) = ((a * 256 + b) * 256 + c) * 256 + d
from_be _ = 0

-- `u16::to_be_bytes` and `u32::to_be_bytes`
unfoldable pub be16 : ℕ → List ℕ
be16 v = v / 2 ^ 8 % 256 ∷ v % 256 ∷ []

unfoldable pub be32 : ℕ → List ℕ
be32 v = v / 2 ^ 24 % 256 ∷ v / 2 ^ 16 % 256 ∷ v / 2 ^ 8 % 256 ∷ v % 256 ∷ []

-- `u16::from_be_bytes(data[off..off + 2].try_into().unwrap())`
unfoldable pub u16_at : List ℕ → ℕ → Result ℕ
unfolding from_be
u16_at buf off = do s ← slice buf off (off + 2); ok (from_be s)

-- `u32::from_be_bytes(data[off..off + 4].try_into().unwrap())`
unfoldable pub u32_at : List ℕ → ℕ → Result ℕ
unfolding from_be
u32_at buf off = do s ← slice buf off (off + 4); ok (from_be s)

unfoldable pub put_u32 : List ℕ → ℕ → ℕ → Result (List ℕ)
unfolding be32
put_u32 buf off val = copy_from_slice buf off (be32 val)

unfoldable pub put_u16 : List ℕ → ℕ → ℕ → Result (List ℕ)
unfolding be16
put_u16 buf off val = copy_from_slice buf off (be16 val)

-- `ReadBytesExt::read_u32` and `read_u16` of a cursor at `pos`: an I/O error at the end.
abbrev pub read_u32 : List ℕ → ℕ → Result ℕ
read_u32 buf pos = if leb (pos + 4) (length buf) then u32_at buf pos else err io

abbrev pub read_u16 : List ℕ → ℕ → Result ℕ
read_u16 buf pos = if leb (pos + 2) (length buf) then u16_at buf pos else err io

-- `vec![0u8; n]`
abbrev pub zeros : ℕ → List ℕ
zeros n = replicate n 0

-- The big-endian words at `off`, `off + 4`, …, `count` of them but those that are out of range:
-- the loops of the form `for i in … { if off + 4 <= data.len() { push(…) } }`.
unfoldable pub u32_words : List ℕ → ℕ → ℕ → Result (List ℕ)
unfolding u32_at
u32_words buf off zero = ok []
u32_words buf off (suc count) =
    let rest = u32_words buf (off + 4) count in
    if leb (off + 4) (length buf)
    then (do word ← u32_at buf off; words ← rest; ok (word ∷ words))
    else rest
