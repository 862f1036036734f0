-- ===== src/Format/Reserved.antt =====
-- `ReservedAllocator` of format.rs: the reserved blocks that a format takes, round robin.
pub mod Laws
use pfs.Prelude.{
  ℕ, zero, suc, ◌+◌, ◌-◌, ◌*◌, ◌/◌, ◌%◌, ◌^◌, List, [], ◌∷◌, Bool, true, false, ltb, ◌==◌,
  if◌then◌else◌, length, Option, none, some, get_or, set, replicate, msb, bit_or,
}
use pfs.Error.{Result, ok, err, panic, disk_full}
use pfs.Exec.{Exec}

-- In `bitmap` true stands for a free block.
pub record ReservedAllocator : Type 0 where
  pub bitmap : List Bool
  pub numreserved : ℕ
  pub roving : ℕ

-- The first `n` entries become used.
abbrev mark_used : ℕ → List Bool → List Bool
mark_used zero bitmap = bitmap
mark_used (suc n) [] = []
mark_used (suc n) (b ∷ bitmap) = false ∷ mark_used n bitmap

unfoldable pub new_allocator : ℕ → ℕ → ReservedAllocator
new_allocator numreserved rblkcluster_resblocks = record {
  bitmap = mark_used rblkcluster_resblocks (replicate numreserved true);
  numreserved = numreserved;
  roving = rblkcluster_resblocks;
}

-- The loop of `alloc` over `i`, `i + 1`, …, `n` of them: the first index that is free.
unfoldable pub alloc_loop : ReservedAllocator → ℕ → ℕ → Option ℕ
alloc_loop a i zero = none
alloc_loop a i (suc n) =
    let later = alloc_loop a (i + 1) n in
    let idx = (a.roving + i) % a.numreserved in
    if get_or a.bitmap idx false then some idx else later

-- Take the index that was found.
abbrev pub taken : ReservedAllocator → Option ℕ → Result ℕ × ReservedAllocator
taken a none = (err (disk_full "out of reserved blocks"), a)
taken a (some idx) =
    (ok idx, record a { bitmap = set a.bitmap idx false; roving = (idx + 1) % a.numreserved })

unfoldable pub alloc : Exec ReservedAllocator ℕ
unfolding alloc_loop
alloc a = taken a (alloc_loop a 0 a.numreserved)

abbrev one_if : Bool → ℕ
one_if true = 1
one_if false = 0

unfoldable pub count_free : List Bool → ℕ
count_free [] = 0
count_free (b ∷ bitmap) = one_if b + count_free bitmap

unfoldable pub free_count : ReservedAllocator → ℕ
unfolding count_free
free_count a = count_free a.bitmap

-- The word of the 32 entries from index `i` on; entries out of range count as used.
unfoldable pub word_from : List Bool → ℕ → ℕ → ℕ → ℕ → ℕ
word_from bitmap i bit val zero = val
word_from bitmap i bit val (suc n) =
    word_from bitmap i (bit + 1)
      (if get_or bitmap (i + bit) false then bit_or val (msb bit) else val) n

-- The words for the indices `i`, `i + 32`, …, `n` of them.
unfoldable pub words_from : List Bool → ℕ → ℕ → List ℕ
unfolding word_from
words_from bitmap i zero = []
words_from bitmap i (suc n) = word_from bitmap i 0 0 32 ∷ words_from bitmap (i + 32) n

unfoldable pub build_bitmap : ReservedAllocator → List ℕ
unfolding words_from
build_bitmap a = words_from a.bitmap 0 ((a.numreserved + 31) / 32)
