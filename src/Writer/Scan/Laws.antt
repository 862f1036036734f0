-- ===== src/Writer/Scan/Laws.antt =====
-- About the scan of `alloc_reserved_block` of crates/libpfs3/src/writer.rs.
use pfs.Prelude.{
  ℕ, zero, suc, ◌+◌, ◌-◌, ◌*◌, ◌≤◌, ◌<◌, List, [], ◌∷◌, bit_and, ◌==◌, if◌then◌else◌, ◌≡◌, refl,
  inl, inr, arith, Bool-cases, Option, none, some, msb, u32_not, word_bit, word_bit-le-one,
  msb_test, count_ones, count_ones-clear, bit_at-zero, ==_iff, word_bit-clear, ltb,
}
use native.Mathlib.Decide.{dec_lt}
use pfs.Writer.Scan.{first_bit, take_first, clear_first}

-- The set bits of the words.
abbrev pub ones : List ℕ → ℕ
ones [] = 0
ones (w ∷ ws) = count_ones 32 w + ones ws

-- Bit `idx` of the words, 0 when out of range.
first_bit-some :
    (word bit n : ℕ) {b : ℕ}
    → bit + n ≤ 32
    → first_bit word bit n ≡ some b
    → (b < 32) × (word_bit word b ≡ 1)
unfolding first_bit
first_bit-some word bit zero h e = cc
first_bit-some word bit (suc n) {b} h e =
    ground
      (arith, first_bit-some word (bit + 1) n {b = b}, msb_test word bit, word_bit-le-one word bit)

first_bit-none :
    (word bit n c : ℕ)
    → bit + n ≤ 32
    → first_bit word bit n ≡ none
    → bit ≤ c
    → c < bit + n
    → word_bit word c ≡ 0
unfolding first_bit
first_bit-none word bit zero c h e lo hi = absurd (omega arith)
first_bit-none word bit (suc n) c h e lo hi = elim (dec_lt bit c) [
  | yes lt ↦ ground (arith, first_bit-none word (bit + 1) n c)
  | no ge ↦
      let same : bit ≡ c = omega arith in
      let clear : word_bit word bit ≡ 0 = ground (arith, msb_test word bit) in rw same at clear
]

first_bit-lowest :
    (word bit n c : ℕ) {b : ℕ}
    → bit + n ≤ 32
    → first_bit word bit n ≡ some b
    → bit ≤ c
    → c < b
    → word_bit word c ≡ 0
unfolding first_bit
first_bit-lowest word bit zero c h e lo hi = cc
first_bit-lowest word bit (suc n) c {b} h e lo hi = elim (dec_lt bit c) [
  | yes lt ↦ ground (arith, first_bit-lowest word (bit + 1) n c {b = b}, msb_test word bit)
  | no ge ↦
      let same : bit ≡ c = omega arith in
      let clear : word_bit word bit ≡ 0 = ground (arith, msb_test word bit) in rw same at clear
]

-- Bit `j` of the words, 0 out of range.
unfoldable pub bit_of : List ℕ → ℕ → ℕ
bit_of [] j = 0
bit_of (w ∷ ws) j = let later = bit_of ws (j - 32) in if ltb j 32 then word_bit w j else later

-- What `take_first` leaves and gives: it takes the first bit that is set, if one is.
abbrev pub TakesFirst : ℕ → List ℕ → Option (ℕ × List ℕ) → Type 0
TakesFirst li words none = (j : ℕ) → bit_of words j ≡ 0
TakesFirst li words (some (idx, words')) =
    (li * 32 ≤ idx)
    × (bit_of words (idx - li * 32) ≡ 1)
    × ((j : ℕ) → j < idx - li * 32 → bit_of words j ≡ 0)
    × ((j : ℕ) → bit_of words' j ≡ (if j == idx - li * 32 then 0 else bit_of words j))
    × (ones words ≡ ones words' + 1)

-- The head word gives the bit.
TakesFirst-here :
    (li word b : ℕ) (words : List ℕ)
    → first_bit word 0 32 ≡ some b
    → TakesFirst li (word ∷ words) (some (li * 32 + b, bit_and word (u32_not (msb b)) ∷ words))
unfolding bit_of
TakesFirst-here li word b words e =
    let (lt, one) = first_bit-some word 0 32 (omega arith) e in
    let sub : li * 32 + b - li * 32 ≡ b = omega arith in
    rw sub (
      omega arith,
      ground arith,
      λ j below. ground (arith, first_bit-lowest word 0 32 j (omega arith) e (omega arith) below),
      λ j. ground (arith, word_bit-clear word b j lt),
      omega (arith, count_ones-clear word b lt one),
    )

-- The tail gives it.
TakesFirst-later :
    (li word : ℕ) (words : List ℕ) (later : Option (ℕ × List ℕ))
    → ((j : ℕ) → j < 32 → word_bit word j ≡ 0)
    → TakesFirst (li + 1) words later
    → TakesFirst li (word ∷ words) (clear_first li word words later none)
unfolding bit_of
TakesFirst-later li word words none z h = λ j. ground (arith, z j, h (j - 32))
TakesFirst-later li word words (some (idx, words')) z (lo, one, first, others, sum) =
    let sub : idx - li * 32 - 32 ≡ idx - (li + 1) * 32 = omega arith in
    (
      omega arith,
      rw sub (ground (arith, one)),
      λ j below. ground (arith, z j, first (j - 32)),
      λ j. ground (arith, others (j - 32)),
      omega arith,
    )

zero_word : (word : ℕ) → word ≡ 0 → (j : ℕ) → j < 32 → word_bit word j ≡ 0
unfolding word_bit
zero_word word e j lt = ground (arith, bit_at-zero (31 - j))

-- The scan for a reserved block takes the first set bit: it was set and no earlier bit was, it is
-- cleared and every other bit stays, and one set bit fewer is left. It takes none when no bit is set.
pub take_first-TakesFirst : (li : ℕ) (words : List ℕ) → TakesFirst li words (take_first li words)
unfolding take_first bit_of
take_first-TakesFirst li [] = λ j. refl
take_first-TakesFirst li (word ∷ words) = elim (Bool-cases (word == 0)) [
  | inl e ↦ rw e (
      TakesFirst-later li word words (take_first (li + 1) words)
        (zero_word word ((==_iff word 0).0 e)) (take_first-TakesFirst (li + 1) words))
  | inr e ↦ rw e (go (take_first-TakesFirst (li + 1) words) (first_bit word 0 32) refl)
]
  where
    go :
        TakesFirst (li + 1) words (take_first (li + 1) words)
        → (o : Option ℕ) → first_bit word 0 32 ≡ o
        → TakesFirst li (word ∷ words) (clear_first li word words (take_first (li + 1) words) o)
    go later none e =
        TakesFirst-later li word words (take_first (li + 1) words)
          (λ j lt. first_bit-none word 0 32 j (omega arith) e (omega arith) (omega arith)) later
    go later (some b) e = TakesFirst-here li word b words e
