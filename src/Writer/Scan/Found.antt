-- ===== src/Writer/Scan/Found.antt =====
-- About the scan of `alloc_data_blocks` of crates/libpfs3/src/writer.rs: which blocks it finds.
use pfs.Prelude.{
  ℕ, zero, suc, ◌+◌, ◌-◌, ◌*◌, ◌/◌, ◌%◌, ◌^◌, ◌≤◌, ◌<◌, List, [], ◌∷◌, ◌++◌, Bool, true, false,
  bit_and, leb, ltb, ◌==◌, if◌then◌else◌, ◌≡◌, refl, inl, inr, arith, Bool-cases, Option, none,
  some, msb, u32_not, word_bit, word_bit-le-one, word_bit-clear, msb_test,
}
use pfs.Writer.Scan.{
  Scan, Status, full, unfinished, overflow, at_set_bit, take_block, scan_bits, scan_words, go_on,
  checked32, then_checked, data_block,
}
use pfs.Writer.Scan.Laws.{bit_of}

abbrev pub AllAre {ℓ} : (ℕ → Type ℓ) → List ℕ → Type ℓ
AllAre P [] = Unit
AllAre P (b ∷ bs) = P b × AllAre P bs

pub AllAre-append {ℓ} :
    (P : ℕ → Type ℓ) (xs ys : List ℕ) → AllAre P xs → AllAre P ys → AllAre P (xs ++ ys)
AllAre-append P [] ys h k = k
AllAre-append P (x ∷ xs) ys (p, h) k = (p, AllAre-append P xs ys h k)

pub AllAre-map {ℓ κ} :
    {P : ℕ → Type ℓ} {Q : ℕ → Type κ} (xs : List ℕ)
    → ((b : ℕ) → P b → Q b)
    → AllAre P xs
    → AllAre Q xs
AllAre-map [] f h = tt
AllAre-map (x ∷ xs) f (p, h) = (f x p, AllAre-map xs f h)

-- The block is that of a set bit of the word, or of the words from word `li` on.
abbrev InWord : (ℕ → Option ℕ) → ℕ → ℕ → Type 0
InWord number word b = (c : ℕ) × (c < 32) × (word_bit word c ≡ 1) × (number c ≡ some b)

abbrev pub InWords : (ℕ → ℕ → Option ℕ) → ℕ → List ℕ → ℕ → Type 0
InWords number li words b =
    (j : ℕ) × (bit_of words j ≡ 1) × (number (li + j / 32) (j % 32) ≡ some b)

-- A bit that is set when another is cleared was set before.
InWord-clear :
    (number : ℕ → Option ℕ) (word bit b : ℕ)
    → bit < 32
    → InWord number (bit_and word (u32_not (msb bit))) b
    → InWord number word b
InWord-clear number word bit b lt (c, small, one, e) =
    (c, small, ground (arith, one, word_bit-clear word bit c lt small), e)

module _ (number : ℕ → Option ℕ) (limit : ℕ) where
  set_bit-InWord :
      (need word bit : ℕ) (skipped taken : Scan ℕ) (o : Option ℕ)
      → bit < 32
      → (bit_and word (msb bit) == 0) ≡ false
      → number bit ≡ o
      → AllAre (InWord number word) skipped.blocks
      → AllAre (InWord number (bit_and word (u32_not (msb bit)))) taken.blocks
      → AllAre (InWord number word) (
          (at_set_bit limit need word skipped
            (bit_and word (u32_not (msb bit)))
            (λ blk. take_block blk taken)
            o).blocks)
  set_bit-InWord need word bit skipped taken none lt set e skip take = tt
  set_bit-InWord need word bit skipped taken (some blk) lt set e skip take =
      let one : word_bit word bit ≡ 1 =
        ground (arith, msb_test word bit, word_bit-le-one word bit) in
      let here : InWord number word blk = (bit, lt, one, e) in
      elim (Bool-cases (leb limit blk)) [
        | inl f ↦ rw f skip
        | inr f ↦ elim (Bool-cases (need == 1)) [
          | inl g ↦ rw (f, g) (here, tt)
          | inr g ↦
              rw (f, g)
                (here, AllAre-map taken.blocks (λ b. InWord-clear number word bit b lt) take)
        ]
      ]

  scan_bits-InWord :
      (n bit need word : ℕ)
      → bit + n ≤ 32
      → AllAre (InWord number word) ((scan_bits number limit n bit need word).blocks)
  unfolding scan_bits
  scan_bits-InWord zero bit need word h = tt
  scan_bits-InWord (suc n) bit need word h =
      let skip = scan_bits-InWord n (bit + 1) need word (omega arith) in
      elim (Bool-cases (bit_and word (msb bit) == 0)) [
        | inl e ↦ rw e skip
        | inr e ↦ rw e (
            set_bit-InWord need word bit (scan_bits number limit n (bit + 1) need word)
              (scan_bits number limit n (bit + 1) (need - 1) (bit_and word (u32_not (msb bit))))
              (number bit) (omega arith) e refl skip
              (scan_bits-InWord n (bit + 1) (need - 1) (bit_and word (u32_not (msb bit)))
                (omega arith)))
      ]

module _ (number : ℕ → ℕ → Option ℕ) (limit : ℕ) where
  head-InWords :
      (li word : ℕ) (words : List ℕ) (b : ℕ)
      → InWord (number li) word b
      → InWords number li (word ∷ words) b
  unfolding bit_of
  head-InWords li word words b (c, small, one, e) =
      let quotient : li + c / 32 ≡ li = omega arith in
      let remainder : c % 32 ≡ c = omega arith in
      (c, ground (arith, one), rw (quotient, remainder) e)

  tail-InWords :
      (li word : ℕ) (words : List ℕ) (b : ℕ)
      → InWords number (li + 1) words b
      → InWords number li (word ∷ words) b
  unfolding bit_of
  tail-InWords li word words b (j, one, e) =
      let quotient : li + (j + 32) / 32 ≡ li + 1 + j / 32 = omega arith in
      let remainder : (j + 32) % 32 ≡ j % 32 = omega arith in
      let same : j + 32 - 32 ≡ j = omega arith in
      let far : ltb (j + 32) 32 ≡ false = ground arith in
      (j + 32, rw (far, same) one, rw (quotient, remainder) e)

  go_on-InWords :
      (li word : ℕ) (words : List ℕ) (bits : ℕ) (blocks : List ℕ) (st : Status)
      (rest : ℕ → Scan (List ℕ)) (need : ℕ)
      → AllAre (InWord (number li) word) blocks
      → AllAre (InWords number (li + 1) words) ((rest need).blocks)
      → AllAre (InWords number li (word ∷ words)) ((go_on bits blocks st words rest need).blocks)
  go_on-InWords li word words bits blocks unfinished rest need h k =
      AllAre-append (InWords number li (word ∷ words)) blocks ((rest need).blocks)
        (AllAre-map blocks (head-InWords li word words) h)
        (AllAre-map ((rest need).blocks) (tail-InWords li word words) k)
  go_on-InWords li word words bits blocks full rest need h k =
      AllAre-map blocks (head-InWords li word words) h
  go_on-InWords li word words bits blocks overflow rest need h k =
      AllAre-map blocks (head-InWords li word words) h

  if_InWords :
      (li : ℕ) (words : List ℕ) (b : Bool) (s t : Scan (List ℕ))
      → AllAre (InWords number li words) s.blocks
      → AllAre (InWords number li words) t.blocks
      → AllAre (InWords number li words) ((if b then s else t).blocks)
  if_InWords li words true s t h k = h
  if_InWords li words false s t h k = k

  -- Every block that the scan of a bitmap block takes is that of a bit that was set.
  pub scan_words-InWords :
      (li need : ℕ) (words : List ℕ)
      → AllAre (InWords number li words) ((scan_words number limit li need words).blocks)
  unfolding scan_words
  scan_words-InWords li need [] = tt
  scan_words-InWords li need (word ∷ words) =
      let s = scan_bits (number li) limit 32 0 need word in
      if_InWords li (word ∷ words) (word == 0) _ _
        (AllAre-map ((scan_words number limit (li + 1) need words).blocks)
          (tail-InWords li word words) (scan_words-InWords (li + 1) need words))
        (go_on-InWords li word words s.bits s.blocks s.status
          (λ n. scan_words number limit (li + 1) n words) s.need
          (scan_bits-InWord (number li) limit 32 0 need word (omega arith))
          (scan_words-InWords (li + 1) s.need words))

checked32-some : (n : ℕ) {b : ℕ} → checked32 n ≡ some b → b ≡ n
checked32-some n {b} e = elim (Bool-cases (ltb n (2 ^ 32))) [
  | inl f ↦ ground (arith, e, f)
  | inr f ↦ ground (arith, e, f)
]

then_checked-some :
    (o : Option ℕ) (f : ℕ → ℕ) {b : ℕ}
    → then_checked o f ≡ some b
    → (a : ℕ) × (o ≡ some a) × (b ≡ f a)
then_checked-some none f e = absurd cc
then_checked-some (some a) f e = (a, refl, checked32-some (f a) e)

-- The number that a bit stands for, where no sum or product overflows.
pub data_block-some :
    (index_per_block bitmapstart bm_idx li bit : ℕ) {b : ℕ}
    → data_block index_per_block bitmapstart bm_idx li bit ≡ some b
    → b ≡ bm_idx * index_per_block * 32 + (li * 32 + bit) + bitmapstart
unfolding data_block
data_block-some index_per_block bitmapstart bm_idx li bit e =
    let (rel, e1, b_is) = then_checked-some _ _ e in
    let (bits, e2, rel_is) = then_checked-some _ _ e1 in
    let (per_block, e3, bits_is) = then_checked-some _ _ e2 in
    let per_block_is = checked32-some (bm_idx * index_per_block) e3 in
    rw (b_is, rel_is, bits_is, per_block_is) refl
