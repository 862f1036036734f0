-- ===== src/Ondisk/DirEntry/Bounds.antt =====
-- About `DirEntry::parse` of crates/libpfs3/src/ondisk/direntry.rs: bounds on any bytes.
use pfs.Prelude.{
  ℕ, ◌+◌, ◌-◌, ◌||◌, ◌≤◌, ◌<◌, List, ◌&&◌, Option, none, some, ◌≡◌, arith, length, min, ltb, leb,
  ◌==◌, bit_and, not,
}
use pfs.Error.{Returns, returns, Returns-if, Returns-bind, Any}
use pfs.Bytes.{index, slice, u16_at, u32_at}
use pfs.Bytes.Laws.{u32_at_eq, u16_at_eq, index_eq, slice_eq, length-read_at}
use pfs.Ondisk.DirEntry.{
  DirEntry, extra_field, extra_from, parse_extrafields, parse_comment, parse_raw, parse,
  round_up_even,
}

index-Returns : (buf : List ℕ) (i : ℕ) → i < length buf → Returns Any (index buf i)
index-Returns buf i h = rw (index_eq buf i h) (returns _ tt)

u32_at-Returns : (buf : List ℕ) (i : ℕ) → i + 4 ≤ length buf → Returns Any (u32_at buf i)
u32_at-Returns buf i h = rw (u32_at_eq buf i h) (returns _ tt)

u16_at-Returns : (buf : List ℕ) (i : ℕ) → i + 2 ≤ length buf → Returns Any (u16_at buf i)
u16_at-Returns buf i h = rw (u16_at_eq buf i h) (returns _ tt)

slice-Returns :
    (buf : List ℕ) (lo hi : ℕ)
    → lo ≤ hi
    → hi ≤ length buf
    → Returns (λ s. lo + length s ≡ hi) (slice buf lo hi)
slice-Returns buf lo hi h k =
    rw (slice_eq buf lo hi h k) (returns _ (omega (arith, length-read_at buf lo (hi - lo))))

extra_field-Returns :
    (raw : List ℕ) (flags mask width pos : ℕ) → Returns Any (extra_field raw flags mask width pos)
unfolding extra_field
extra_field-Returns raw flags mask width pos =
    Returns-if (not (bit_and flags mask == 0) && leb (pos + width) (length raw))
      (λ h.
        Returns-bind (slice-Returns raw pos (pos + width) (omega arith) (ground arith))
          (λ s _. returns _ tt))
      (λ _. returns _ tt)

extra_from-Returns :
    (raw : List ℕ) (field_start : ℕ)
    → field_start + 2 ≤ length raw
    → Returns Any (extra_from raw field_start)
unfolding extra_from
extra_from-Returns raw field_start h = Returns-bind (u16_at-Returns raw field_start h) λ flags _.
    Returns-bind (extra_field-Returns raw flags _ _ _) λ link _.
      Returns-bind (extra_field-Returns raw flags _ _ _) λ uid _.
        Returns-bind (extra_field-Returns raw flags _ _ _) λ gid _.
          Returns-bind (extra_field-Returns raw flags _ _ _) λ prot _.
            Returns-bind (extra_field-Returns raw flags _ _ _) λ vsize _.
              Returns-bind (extra_field-Returns raw flags _ _ _) λ roll _.
                Returns-bind (extra_field-Returns raw flags _ _ _) λ fsizex _. returns _ tt

parse_extrafields-Returns :
    (raw : List ℕ) (nlength : ℕ) → Returns Any (parse_extrafields raw nlength)
unfolding parse_extrafields
parse_extrafields-Returns raw nlength =
    Returns-if (leb (length raw) (18 + nlength)) (λ _. returns _ tt)
      λ inside. Returns-bind (index-Returns raw (18 + nlength) (ground arith)) λ clen _.
        Returns-if (ltb (length raw) (round_up_even (18 + nlength + 1 + clen) + 2))
          (λ _. returns _ tt) λ room. extra_from-Returns raw _ (ground arith)

parse_comment-Returns : (raw : List ℕ) (off : ℕ) → Returns Any (parse_comment raw off)
unfolding parse_comment
parse_comment-Returns raw off =
    Returns-if (ltb off (length raw))
      (λ inside. Returns-bind (index-Returns raw off (ground arith)) λ clen _.
        Returns-if (leb (off + 1 + clen) (length raw))
          (λ room.
            Returns-bind (slice-Returns raw (off + 1) (off + 1 + clen) (omega arith) (ground arith))
              (λ s _. returns _ tt))
          (λ _. returns _ tt))
      (λ _. returns _ tt)

parse_raw-Returns : (raw : List ℕ) → 18 ≤ length raw → Returns Any (parse_raw raw)
unfolding parse_raw
parse_raw-Returns raw h = Returns-bind (index-Returns raw 0 (omega arith)) λ entry_size _.
    Returns-bind (index-Returns raw 1 (omega arith)) λ entry_type _.
      Returns-bind (u32_at-Returns raw 2 (omega arith)) λ anode _.
        Returns-bind (u32_at-Returns raw 6 (omega arith)) λ fsize _.
          Returns-bind (u16_at-Returns raw 10 (omega arith)) λ day _.
            Returns-bind (u16_at-Returns raw 12 (omega arith)) λ minute _.
              Returns-bind (u16_at-Returns raw 14 (omega arith)) λ tick _.
                Returns-bind (index-Returns raw 16 (omega arith)) λ protection _.
                  Returns-bind (index-Returns raw 17 (omega arith)) λ nlength _.
                    Returns-bind
                      (slice-Returns raw 18 (min (18 + nlength) (length raw)) (omega arith)
                        (omega arith))
                      λ name _. Returns-bind (parse_comment-Returns raw (18 + nlength)) λ comment _.
                        Returns-bind (parse_extrafields-Returns raw nlength) λ extra _. returns _ tt

-- A parsed entry lies in the buffer, takes at least 18 bytes, and the next offset is behind it.
abbrev pub Advances : List ℕ → ℕ → Option (DirEntry × ℕ) → Type 0
Advances buf offset none = Unit
Advances buf offset (some (entry, next)) = (offset + 18 ≤ next) × (next ≤ length buf)

-- On any bytes and at any offset, the parser returns: it gives no error and does not panic, and
-- an entry that it finds takes at least 18 bytes and ends inside the buffer.
pub parse-Advances : (buf : List ℕ) (offset : ℕ) → Returns (Advances buf offset) (parse buf offset)
unfolding parse
parse-Advances buf offset =
    Returns-if (leb (length buf) offset) (λ _. returns _ tt)
      λ inside. Returns-bind (index-Returns buf offset (ground arith)) λ size _.
        Returns-if (size == 0) (λ _. returns _ tt)
          λ nonzero.
            Returns-if (ltb (length buf) (offset + size) || ltb size 18) (λ _. returns _ tt)
              λ fits.
                Returns-bind (slice-Returns buf offset (offset + size) (omega arith) (ground arith))
                  λ raw e.
                    Returns-bind (parse_raw-Returns raw (ground arith))
                      λ entry _. returns _ (ground arith)
