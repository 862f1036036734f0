-- ===== src/Bytes/Laws.antt =====
-- About the big-endian reads and writes of crates/libpfs3/src/ondisk/mod.rs.
use pfs.Prelude.{
  read_at-read_at, sym, zero, suc, get_or, ap, ◌∙◌, drop, length-take, length-drop, ℕ, ◌+◌, ◌-◌,
  ◌^◌, ◌≤◌, ◌<◌, List, [], ◌∷◌, ◌≡◌, refl, length, read_at, write_at, arith, le→leb,
  read_at-write_at_self, read_at-write_at_before, read_at-write_at_after,
}
use pfs.Error.{ok}
use pfs.Bytes.{
  copy_from_slice, read_u32, read_u16, index, slice, from_be, be16, be32, u16_at, u32_at, put_u16,
  put_u32,
}

pub from_be-be32 : (v : ℕ) → v < 2 ^ 32 → from_be (be32 v) ≡ v
unfolding from_be be32
from_be-be32 v h = omega arith

pub from_be-be16 : (v : ℕ) → v < 2 ^ 16 → from_be (be16 v) ≡ v
unfolding from_be be16
from_be-be16 v h = omega arith

-- In range the accesses do not panic.
pub put_u32_eq :
    (buf : List ℕ) (off v : ℕ)
    → off + 4 ≤ length buf
    → put_u32 buf off v ≡ ok (write_at buf off (be32 v))
unfolding put_u32
put_u32_eq buf off v h = rw (le→leb (off + 4) (length buf) h)

pub put_u16_eq :
    (buf : List ℕ) (off v : ℕ)
    → off + 2 ≤ length buf
    → put_u16 buf off v ≡ ok (write_at buf off (be16 v))
unfolding put_u16
put_u16_eq buf off v h = rw (le→leb (off + 2) (length buf) h)

pub u32_at_eq :
    (buf : List ℕ) (off : ℕ)
    → off + 4 ≤ length buf
    → u32_at buf off ≡ ok (from_be (read_at buf off 4))
unfolding u32_at
u32_at_eq buf off h =
    let e : off + 4 - off ≡ 4 = omega arith in
    rw (le→leb off (off + 4) (omega arith), le→leb (off + 4) (length buf) h, e)

pub u16_at_eq :
    (buf : List ℕ) (off : ℕ)
    → off + 2 ≤ length buf
    → u16_at buf off ≡ ok (from_be (read_at buf off 2))
unfolding u16_at
u16_at_eq buf off h =
    let e : off + 2 - off ≡ 2 = omega arith in
    rw (le→leb off (off + 2) (omega arith), le→leb (off + 2) (length buf) h, e)

pub index_eq : (buf : List ℕ) (i : ℕ) → i < length buf → index buf i ≡ ok (get_or buf i 0)
index_eq [] i h = elim h [ ]
index_eq (b ∷ buf) zero h = refl
index_eq (b ∷ buf) (suc i) h = index_eq buf i (omega arith)

pub slice_eq :
    (buf : List ℕ) (lo hi : ℕ)
    → lo ≤ hi
    → hi ≤ length buf
    → slice buf lo hi ≡ ok (read_at buf lo (hi - lo))
slice_eq buf lo hi h k = rw (le→leb lo hi h, le→leb hi (length buf) k)

pub length-read_at : (buf : List ℕ) (lo n : ℕ) → lo + n ≤ length buf → length (read_at buf lo n) ≡ n
length-read_at buf lo n h = omega (arith, length-take n (drop lo buf), length-drop lo buf)

-- The word at `off`.
abbrev pub word_at : List ℕ → ℕ → ℕ
word_at buf off = from_be (read_at buf off 4)

pub word_at_self :
    (buf : List ℕ) (off v : ℕ)
    → off + 4 ≤ length buf
    → v < 2 ^ 32
    → word_at (write_at buf off (be32 v)) off ≡ v
unfolding be32
word_at_self buf off v h k =
    ap from_be (read_at-write_at_self buf off (be32 v) h) ∙ from_be-be32 v k

pub word_at_after :
    (buf : List ℕ) (off at v : ℕ)
    → off + 4 ≤ at
    → word_at (write_at buf off (be32 v)) at ≡ word_at buf at
unfolding be32
word_at_after buf off at v h = ap from_be (read_at-write_at_after buf off at 4 (be32 v) h)

pub word_at_before :
    (buf : List ℕ) (off at v : ℕ)
    → at + 4 ≤ off
    → word_at (write_at buf off (be32 v)) at ≡ word_at buf at
word_at_before buf off at v h = ap from_be (read_at-write_at_before buf off at 4 (be32 v) h)

-- A word inside a range is the word of the whole.
pub u32_at-read_at :
    (buf : List ℕ) (lo m k : ℕ)
    → k + 4 ≤ m
    → lo + m ≤ length buf
    → u32_at (read_at buf lo m) k ≡ u32_at buf (lo + k)
u32_at-read_at buf lo m k inner outer =
    u32_at_eq (read_at buf lo m) k (omega (arith, length-read_at buf lo m outer))
    ∙ ap (λ s. ok (from_be s)) (read_at-read_at buf lo m k 4 inner)
    ∙ sym (u32_at_eq buf (lo + k) (omega arith))

-- A word depends on its bytes only.
pub u32_at-same :
    (b c : List ℕ) (at : ℕ)
    → at + 4 ≤ length b
    → at + 4 ≤ length c
    → read_at b at 4 ≡ read_at c at 4
    → u32_at b at ≡ u32_at c at
u32_at-same b c at hb hc e = u32_at_eq b at hb ∙ rw e (sym (u32_at_eq c at hc))

pub u16_at-same :
    (b c : List ℕ) (at : ℕ)
    → at + 2 ≤ length b
    → at + 2 ≤ length c
    → read_at b at 2 ≡ read_at c at 2
    → u16_at b at ≡ u16_at c at
u16_at-same b c at hb hc e = u16_at_eq b at hb ∙ rw e (sym (u16_at_eq c at hc))

-- The reads of a cursor, in range.
pub read_u32_eq :
    (b : List ℕ) (at v : ℕ) → at + 4 ≤ length b → u32_at b at ≡ ok v → read_u32 b at ≡ ok v
read_u32_eq b at v room e = rw (le→leb (at + 4) (length b) room, e) refl

pub read_u16_eq :
    (b : List ℕ) (at v : ℕ) → at + 2 ≤ length b → u16_at b at ≡ ok v → read_u16 b at ≡ ok v
read_u16_eq b at v room e = rw (le→leb (at + 2) (length b) room, e) refl

pub copy_from_slice_eq :
    (buf : List ℕ) (lo : ℕ) (s : List ℕ)
    → lo + length s ≤ length buf
    → copy_from_slice buf lo s ≡ ok (write_at buf lo s)
copy_from_slice_eq buf lo s h = rw (le→leb (lo + length s) (length buf) h) refl
