-- ===== src/Writer/Scan.antt =====
-- Scanning bitmap words for set bits: the inner loops of `alloc_data_blocks` and of
-- `alloc_reserved_block`, as functions of the words.
pub mod Laws
pub mod Accounts
pub mod Found
use pfs.Prelude.{
  ℕ, zero, suc, ◌+◌, ◌-◌, ◌*◌, ◌%◌, ◌^◌, List, [], ◌∷◌, ◌++◌, Bool, bit_and, bit_or, ltb, leb, ◌==◌,
  if◌then◌else◌, Option, none, some, msb, u32_not,
}

-- Where a scan stands: all blocks found, more wanted, or a block number that overflows.
pub data Status : Type 0 where
  full unfinished overflow : Status

-- What a scan leaves: the words or the word, the blocks taken in order, and how many are wanted yet.
pub record Scan (W : Type 0) : Type 0 where
  pub bits : W
  pub blocks : List ℕ
  pub need : ℕ
  pub status : Status

abbrev pub take_block : {W : Type 0} → ℕ → Scan W → Scan W
take_block blk s = record s { blocks = blk ∷ s.blocks }

-- A set bit, whose block is given: `skipped` and `taken` are how the scan goes on.
abbrev pub at_set_bit : ℕ → ℕ → ℕ → Scan ℕ → ℕ → (ℕ → Scan ℕ) → Option ℕ → Scan ℕ
at_set_bit limit need word skipped cleared taken none = record {
  bits = word;
  blocks = [];
  need = need;
  status = overflow;
}
at_set_bit limit need word skipped cleared taken (some blk) =
    if leb limit blk
    then skipped
    else if need == 1
    then record { bits = cleared; blocks = blk ∷ []; need = 0; status = full }
    else taken blk

-- The loop over the bits `bit`, `bit + 1`, … of a word. `number` gives the block of a bit, unless it
-- overflows; blocks from `limit` on are passed over.
unfoldable pub scan_bits : (ℕ → Option ℕ) → ℕ → ℕ → ℕ → ℕ → ℕ → Scan ℕ
scan_bits number limit zero bit need word = record {
  bits = word;
  blocks = [];
  need = need;
  status = unfinished;
}
scan_bits number limit (suc n) bit need word =
    let skipped = scan_bits number limit n (bit + 1) need word in
    let cleared = bit_and word (u32_not (msb bit)) in
    let taken =
      λ (blk : ℕ). take_block blk (scan_bits number limit n (bit + 1) (need - 1) cleared) in
    if bit_and word (msb bit) == 0
    then skipped
    else at_set_bit limit need word skipped cleared taken (number bit)

-- Go on behind a word that was scanned, unless the scan ended in it.
abbrev pub go_on : ℕ → List ℕ → Status → List ℕ → (ℕ → Scan (List ℕ)) → ℕ → Scan (List ℕ)
go_on bits blocks unfinished words rest need =
    let r = rest need in
    record { bits = bits ∷ r.bits; blocks = blocks ++ r.blocks; need = r.need; status = r.status }
go_on bits blocks full words rest need = record {
  bits = bits ∷ words;
  blocks = blocks;
  need = need;
  status = full;
}
go_on bits blocks overflow words rest need = record {
  bits = bits ∷ words;
  blocks = blocks;
  need = need;
  status = overflow;
}

abbrev pub cons_word : ℕ → Scan (List ℕ) → Scan (List ℕ)
cons_word word s = record s { bits = word ∷ s.bits }

-- The loop over the words `li`, `li + 1`, … of a bitmap block. A zero word is passed over.
unfoldable pub scan_words : (ℕ → ℕ → Option ℕ) → ℕ → ℕ → ℕ → List ℕ → Scan (List ℕ)
unfolding scan_bits
scan_words number limit li need [] = record {
  bits = [];
  blocks = [];
  need = need;
  status = unfinished;
}
scan_words number limit li need (word ∷ words) =
    let skipped = cons_word word (scan_words number limit (li + 1) need words) in
    let s = scan_bits (number li) limit 32 0 need word in
    let scanned =
      go_on s.bits s.blocks s.status words (λ need'. scan_words number limit (li + 1) need' words)
        s.need in
    if word == 0 then skipped else scanned

-- `checked_mul` and `checked_add` on u32.
abbrev pub checked32 : ℕ → Option ℕ
checked32 n = if ltb n (2 ^ 32) then some n else none

abbrev pub then_checked : Option ℕ → (ℕ → ℕ) → Option ℕ
then_checked none f = none
then_checked (some n) f = checked32 (f n)

-- The data block of bit `bit` of word `li` of bitmap block `bm_idx`.
unfoldable pub data_block : ℕ → ℕ → ℕ → ℕ → ℕ → Option ℕ
data_block index_per_block bitmapstart bm_idx li bit =
    let per_block = checked32 (bm_idx * index_per_block) in
    let bits = then_checked per_block (λ v. v * 32) in
    let rel = then_checked bits (λ v. v + (li * 32 + bit)) in
    then_checked rel (λ v. v + bitmapstart)

-- The first set bit of a word from `bit` on, among `n`.
unfoldable pub first_bit : ℕ → ℕ → ℕ → Option ℕ
first_bit word bit zero = none
first_bit word bit (suc n) =
    let later = first_bit word (bit + 1) n in
    if bit_and word (msb bit) == 0 then later else some bit

-- The first set bit among the words `li`, `li + 1`, …: its index, and the words with it cleared.
abbrev pub clear_first : ℕ → ℕ → List ℕ → Option (ℕ × List ℕ) → Option ℕ → Option (ℕ × List ℕ)
clear_first li word words later none = elim later [
  | none ↦ none
  | some (idx, words') ↦ some (idx, word ∷ words')
]
clear_first li word words later (some bit) =
    some (li * 32 + bit, bit_and word (u32_not (msb bit)) ∷ words)

unfoldable pub take_first : ℕ → List ℕ → Option (ℕ × List ℕ)
unfolding first_bit
take_first li [] = none
take_first li (word ∷ words) =
    clear_first li word words (take_first (li + 1) words)
      (if word == 0 then none else first_bit word 0 32)
