-- ===== src/Rdb/Laws.antt =====
-- About the partitions that are found in a disk image.
use pfs.Prelude.{
  ℕ, zero, suc, ◌+◌, ◌-◌, ◌*◌, ◌^◌, ◌≤◌, ◌<◌, List, ◌⊎◌, ◌≡◌, refl, sym, ap, ◌∙◌, true, Option,
  none, some, leb, length, min, read_at, get_elem?, arith, Bool-cases, inl, inr, add32, sub32,
}
use mathlib.Core.Path.{subst}
use native.Mathlib.Nat.{mod-eq_of_lt, mul-le-mul_left, mul-le-mul_right}
use pfs.Error.{Str, Returns, returns}
use pfs.Rdb.{
  PartitionInfo, Environment, partition_info, partition_of, sector_at, scan, after_sector, scanned,
  cons_found, detect_pfs3_partitions, word_of, rdsk_magic, mul64,
}

-- A partition of the list.
abbrev pub Holds : List PartitionInfo → PartitionInfo → Type 0
Holds parts p = (i : ℕ) × (get_elem? parts i ≡ some p)

-- One of the `n` sectors from `blk` on describes the partition.
abbrev pub FoundIn : List ℕ → ℕ → ℕ → PartitionInfo → Type 0
FoundIn image blk n p =
    (k : ℕ) × (buf : List ℕ) × (k < n)
    × (sector_at image (blk + k) ≡ some buf)
    × (partition_of buf ≡ some p)

Holds-cons :
    (o : Option PartitionInfo) (parts : List PartitionInfo) (p : PartitionInfo)
    → Holds parts p
    → Holds (cons_found o parts) p
Holds-cons none parts p h = h
Holds-cons (some q) parts p (i, e) = (suc i, e)

Holds-uncons :
    (o : Option PartitionInfo) (parts : List PartitionInfo) (p : PartitionInfo)
    → Holds (cons_found o parts) p
    → (o ≡ some p) ⊎ Holds parts p
Holds-uncons none parts p h = inr h
Holds-uncons (some q) parts p (zero, e) = inl e
Holds-uncons (some q) parts p (suc i, e) = inr (i, e)

FoundIn-later :
    (image : List ℕ) (blk n : ℕ) (p : PartitionInfo)
    → FoundIn image (blk + 1) n p
    → FoundIn image blk (suc n) p
FoundIn-later image blk n p (k, buf, lt, at, e) =
    let next : blk + 1 + k ≡ blk + suc k = omega arith in
    (suc k, buf, omega (arith, lt), ap (sector_at image) (sym next) ∙ at, e)

scan-FoundIn :
    (image : List ℕ) (blk n : ℕ) (p : PartitionInfo)
    → Holds (scan image blk n) p
    → FoundIn image blk n p
unfolding scan after_sector
scan-FoundIn image blk zero p (i, e) = cc
scan-FoundIn image blk (suc n) p h =
    go (sector_at image blk) refl (scan-FoundIn image (blk + 1) n p) h
  where
    here : blk ≡ blk + 0
    here = omega arith

    go :
        (o : Option (List ℕ))
        → sector_at image blk ≡ o
        → (Holds (scan image (blk + 1) n) p → FoundIn image (blk + 1) n p)
        → Holds (after_sector o (scan image (blk + 1) n)) p
        → FoundIn image blk (suc n) p
    go none at rest (i, e) = cc
    go (some buf) at rest h = elim (Holds-uncons (partition_of buf) (scan image (blk + 1) n) p h) [
      | inl e ↦ (0, buf, omega arith, ap (sector_at image) (sym here) ∙ at, e)
      | inr later ↦ FoundIn-later image blk n p (rest later)
    ]

-- A missing sector has only missing ones behind it.
sector_at-earlier :
    (image : List ℕ) (a b : ℕ) (buf : List ℕ)
    → a ≤ b
    → sector_at image b ≡ some buf
    → sector_at image a ≡ some (read_at image (a * 512) 512)
unfolding sector_at
sector_at-earlier image a b buf le h = elim (Bool-cases (leb (b * 512 + 512) (length image))) [
  | inl e ↦ let fits : leb (a * 512 + 512) (length image) ≡ true = ground arith in rw fits refl
  | inr e ↦ absurd (not_some (rw e at h))
]
  where
    not_some : {x : List ℕ} → none ≡ some x → ⊥
    not_some h = cc

scan-Holds :
    (image : List ℕ) (blk n k : ℕ) (buf : List ℕ) (p : PartitionInfo)
    → k < n
    → sector_at image (blk + k) ≡ some buf
    → partition_of buf ≡ some p
    → Holds (scan image blk n) p
unfolding scan after_sector
scan-Holds image blk zero k buf p lt at e = absurd (omega arith)
scan-Holds image blk (suc n) zero buf p lt at e =
    let here : blk + 0 ≡ blk = omega arith in
    let at : sector_at image blk ≡ some buf = ap (sector_at image) (sym here) ∙ at in
    subst (λ o. Holds (after_sector o (scan image (blk + 1) n)) p) (sym at)
      (subst (λ o. Holds (cons_found o (scan image (blk + 1) n)) p) (sym e) (0, refl))
scan-Holds image blk (suc n) (suc k) buf p lt at e =
    let next : blk + suc k ≡ blk + 1 + k = omega arith in
    let rest =
      scan-Holds image (blk + 1) n k buf p (omega arith) (ap (sector_at image) (sym next) ∙ at) e in
    let at = sector_at-earlier image blk (blk + suc k) buf (omega arith) at in
    subst (λ o. Holds (after_sector o (scan image (blk + 1) n)) p) (sym at) (Holds-cons _ _ p rest)

-- The list has just the partitions that the scanned sectors of an image with the header describe.
abbrev pub ListsAll : List ℕ → List ℕ → List PartitionInfo → Type 0
ListsAll image header parts =
    (p : PartitionInfo)
    → (Holds parts p → FoundIn image 1 (min (word_of header 0x0C) 1023) p)
      × (FoundIn image 1 (min (word_of header 0x0C) 1023) p → Holds parts p)

-- On any image with a first sector that has the signature of a rigid disk, looking for partitions
-- returns, without an error or a panic, a list of just the partitions that the sectors behind the first
-- describe, up to the highest that the header names and at most 1023 of them.
pub detect_pfs3_partitions-ListsAll :
    (image header : List ℕ)
    → sector_at image 0 ≡ some header
    → word_of header 0 ≡ rdsk_magic
    → Returns (ListsAll image header) (detect_pfs3_partitions image)
unfolding detect_pfs3_partitions scanned
detect_pfs3_partitions-ListsAll image header first signed =
    rw (detect_pfs3_partitions, first, signed)
      (returns _ (λ p. (
        scan-FoundIn image 1 (scanned header) p,
        λ (k, buf, lt, at, e). scan-Holds image 1 (scanned header) k buf p lt at e,
      )))

-- The cylinders are in order and the partition ends inside the range of u64.
pub record IsSmall (e : Environment) : Type 0 where
  pub ordered : e.low_cyl ≤ e.high_cyl
  pub cylinders : e.high_cyl + 1 < 2 ^ 32
  pub some_blocks : 1 ≤ e.bpt
  pub in_range : (e.high_cyl + 1) * e.surfaces * e.bpt * 512 < 2 ^ 64

mul64_eq : (a b : ℕ) → a * b < 2 ^ 64 → mul64 a b ≡ a * b
mul64_eq a b h = mod-eq_of_lt h

-- A product of three that stays in range, since it does with a larger first factor.
mul64_three : (a c s b : ℕ) → a ≤ c → 1 ≤ b → c * s * b < 2 ^ 64 → mul64 (mul64 a s) b ≡ a * s * b
mul64_three a c s b le b1 h =
    let below : a * s * b ≤ c * s * b = mul-le-mul_right b (mul-le-mul_right s le) in
    let times : a * s * 1 ≤ a * s * b = mul-le-mul_left (a * s) b1 in
    ap (λ m. mul64 m b) (mul64_eq a s (omega (arith, below, times, h)))
    ∙ mul64_eq (a * s) b (omega (arith, below, h))

module _ (name : Str) (e : Environment) (small : IsSmall e) where
  abbrev cylinder_end : ℕ
  cylinder_end = (e.high_cyl + 1) * e.surfaces * e.bpt

  in_blocks : cylinder_end < 2 ^ 64
  in_blocks = omega (arith, small.in_range)

  offset_eq : (partition_info name e).offset ≡ e.low_cyl * e.surfaces * e.bpt * 512
  unfolding partition_info
  offset_eq =
      let le : e.low_cyl ≤ e.high_cyl + 1 = omega (arith, small.ordered) in
      let below : e.low_cyl * e.surfaces * e.bpt ≤ cylinder_end =
        mul-le-mul_right e.bpt (mul-le-mul_right e.surfaces le) in
      ap (λ m. mul64 m 512)
        (mul64_three e.low_cyl (e.high_cyl + 1) e.surfaces e.bpt le small.some_blocks in_blocks)
      ∙ mul64_eq (e.low_cyl * e.surfaces * e.bpt) 512 (omega (arith, below, small.in_range))

  blocks_eq : (partition_info name e).blocks ≡ (e.high_cyl - e.low_cyl + 1) * e.surfaces * e.bpt
  unfolding partition_info
  blocks_eq =
      let count : add32 (sub32 e.high_cyl e.low_cyl) 1 ≡ e.high_cyl - e.low_cyl + 1 =
        omega (arith, small.ordered, small.cylinders) in
      ap (λ n. mul64 (mul64 n e.surfaces) e.bpt) count
      ∙ mul64_three (e.high_cyl - e.low_cyl + 1) (e.high_cyl + 1) e.surfaces e.bpt
          (omega (arith, small.ordered)) small.some_blocks in_blocks

  -- A partition ends where its last cylinder ends.
  end_eq :
      (partition_info name e).offset + (partition_info name e).blocks * 512 ≡ cylinder_end * 512
  end_eq =
      let all : e.low_cyl + (e.high_cyl - e.low_cyl + 1) ≡ e.high_cyl + 1 =
        omega (arith, small.ordered) in
      let sum : cylinder_end
          ≡ e.low_cyl * e.surfaces * e.bpt + (e.high_cyl - e.low_cyl + 1) * e.surfaces * e.bpt =
        ap (λ n. n * e.surfaces * e.bpt) (sym all) ∙ grind arith in
      omega (arith, offset_eq, blocks_eq, sum)

-- Two partitions of one geometry do not overlap: where the cylinders of one all come before those of the
-- other, it ends, in bytes, at or before the start of the other. Both have their cylinders in order and end
-- inside the range of u64.
pub partition_info-apart :
    (name other : Str) (e f : Environment)
    → IsSmall e
    → IsSmall f
    → e.surfaces ≡ f.surfaces
    → e.bpt ≡ f.bpt
    → e.high_cyl < f.low_cyl
    → (partition_info name e).offset + (partition_info name e).blocks * 512
      ≤ (partition_info other f).offset
partition_info-apart name other e f small small' same_surfaces same_bpt before =
    let cylinders : (e.high_cyl + 1) * e.surfaces * e.bpt ≤ f.low_cyl * e.surfaces * e.bpt =
      mul-le-mul_right e.bpt (mul-le-mul_right e.surfaces (omega (arith, before))) in
    let moved : f.low_cyl * e.surfaces * e.bpt ≡ f.low_cyl * f.surfaces * f.bpt =
      ap (λ s. f.low_cyl * s * e.bpt) same_surfaces
      ∙ ap (λ b. f.low_cyl * f.surfaces * b) same_bpt in
    omega (arith, end_eq name e small, offset_eq other f small', cylinders, moved)
