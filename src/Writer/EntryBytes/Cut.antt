-- ===== src/Writer/EntryBytes/Cut.antt =====
-- About cutting an entry out of a directory block, in `remove_dir_entry` of
-- crates/libpfs3/src/writer.rs.
use pfs.Prelude.{
  ℕ, ◌+◌, ◌-◌, ◌≤◌, ◌<◌, List, [], ◌∷◌, ◌++◌, ltb, length, drop, ◌≡◌, refl, ◌∙◌, sym, ap, arith,
  length-append, length-drop, write_at, append_assoc, append-nil, write_at-append, write_at-prefix,
  read_at-append, take_all, false,
}
use pfs.Error.{ok, follow}
use pfs.Bytes.{index, slice, copy_from_slice, zeros}
use pfs.Bytes.Laws.{slice_eq}
use pfs.Writer.EntryBytes.{cut_entry}
use pfs.Writer.EntryBytes.Layout.{copy_eq, length-zeros}
use pfs.Writer.EntryBytes.RoundTrip.{index_in_place}

write_at-start :
    (xs ys : List ℕ) → length ys ≤ length xs → write_at xs 0 ys ≡ ys ++ drop (length ys) xs
write_at-start [] [] h = refl
write_at-start (x ∷ xs) [] h = refl
write_at-start [] (y ∷ ys) h = absurd (omega arith)
write_at-start (x ∷ xs) (y ∷ ys) h = ap (λ l. y ∷ l) (write_at-start xs ys (omega arith))

write_at-all : (xs ys : List ℕ) → length xs ≡ length ys → write_at xs 0 ys ≡ ys
write_at-all xs ys e =
    ap (λ l. write_at l 0 ys) (sym (append-nil xs)) ∙ write_at-prefix xs [] ys e ∙ append-nil ys

-- The tail moved up over the entry.
moved :
    (before entry tail : List ℕ)
    → copy_from_slice (before ++ (entry ++ tail)) (length before) tail
      ≡ ok ((before ++ tail) ++ drop (length tail) (entry ++ tail))
moved before entry tail =
    copy_eq (before ++ (entry ++ tail)) (length before) tail
      (omega (arith, length-append before (entry ++ tail), length-append entry tail))
    ∙ ap ok (
        write_at-append before (entry ++ tail) tail (length before) refl
        ∙ ap (λ l. before ++ l)
            (write_at-start (entry ++ tail) tail (omega (arith, length-append entry tail)))
        ∙ sym (append_assoc before tail (drop (length tail) (entry ++ tail))))

-- Zeros over what the tail left behind.
cleared :
    (before entry tail rest : List ℕ)
    → length rest ≡ length entry
    → copy_from_slice
        ((before ++ tail) ++ rest)
        (length before + length tail)
        (zeros (length entry))
      ≡ ok ((before ++ tail) ++ zeros (length entry))
cleared before entry tail rest e =
    let z = length-zeros (length entry) in
    copy_eq ((before ++ tail) ++ rest) (length before + length tail) (zeros (length entry))
      (omega (arith, z, e, length-append (before ++ tail) rest, length-append before tail))
    ∙ ap ok (
        write_at-append (before ++ tail) rest (zeros (length entry)) (length before + length tail)
          (omega (arith, length-append before tail))
        ∙ ap (λ l. (before ++ tail) ++ l) (write_at-all rest (zeros (length entry)) (e ∙ sym z)))

-- An entry whose first byte is its length is cut out of a block without a panic: what stands before it
-- stays, what follows moves up to its place, and zeros fill the end of the block.
pub cut_entry-moves :
    (before entry tail : List ℕ) (resblocksize : ℕ)
    → 0 < length entry
    → index entry 0 ≡ ok (length entry)
    → resblocksize ≡ length before + length entry + length tail
    → cut_entry (before ++ (entry ++ tail)) resblocksize (length before)
      ≡ ok ((before ++ tail) ++ zeros (length entry))
unfolding cut_entry
cut_entry-moves before entry tail resblocksize pos first size =
    let b = before ++ (entry ++ tail) in
    let end = length before + length entry in
    let inside : ltb resblocksize end ≡ false = ground (arith, size) in
    let left : resblocksize - end ≡ length tail = omega (arith, size) in
    let len : length b ≡ end + length tail =
      omega (arith, length-append before (entry ++ tail), length-append entry tail) in
    let same : end + length tail - end ≡ length tail = omega arith in
    let sliced : slice b end (end + length tail) ≡ ok tail =
      slice_eq b end (end + length tail) (omega arith) (omega (arith, len))
      ∙ rw same (
          ap ok (
            read_at-append before (entry ++ tail) end (length entry) (length tail) refl
            ∙ read_at-append entry tail (length entry) 0 (length tail) (omega arith)
            ∙ take_all tail)) in
    follow _ _ (index_in_place before entry tail pos ∙ first) (
      rw (inside, left)
        (follow _ _ sliced (
          follow _ _ (moved before entry tail) (
            cleared before entry tail (drop (length tail) (entry ++ tail)) (
              omega
                (arith, length-drop (length tail) (entry ++ tail), length-append entry tail))))))
