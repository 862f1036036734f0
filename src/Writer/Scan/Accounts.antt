-- ===== src/Writer/Scan/Accounts.antt =====
-- About the scan of `alloc_data_blocks` of crates/libpfs3/src/writer.rs: set bits and blocks.
use pfs.Prelude.{
  ℕ, zero, suc, ◌+◌, ◌-◌, ◌≤◌, ◌<◌, List, [], ◌∷◌, ◌++◌, Bool, true, false, bit_and, leb, ◌==◌,
  if◌then◌else◌, ◌≡◌, refl, inl, inr, arith, Bool-cases, Option, none, some, length, length-append,
  msb, u32_not, word_bit, word_bit-le-one, msb_test, count_ones, count_ones-clear,
}
use pfs.Writer.Scan.{
  Scan, Status, full, unfinished, overflow, at_set_bit, take_block, scan_bits, scan_words, go_on,
  cons_word,
}
use pfs.Writer.Scan.Laws.{ones}

abbrev pub AllBelow : ℕ → List ℕ → Type 0
AllBelow limit [] = Unit
AllBelow limit (b ∷ bs) = (b < limit) × AllBelow limit bs

-- A scan is full when no more blocks are wanted.
abbrev pub Ends : Status → ℕ → Type 0
Ends full need = need ≡ 0
Ends unfinished need = 1 ≤ need
Ends overflow need = 1 ≤ need

-- Of `need` blocks the scan found as many as it took set bits away, all below the limit.
pub record Accounts {W : Type 0} (count : W → ℕ) (limit need : ℕ) (before : W) (s : Scan W)
    : Type 0 where
  pub found : length s.blocks + s.need ≡ need
  pub cleared : count before ≡ count s.bits + length s.blocks
  pub below : AllBelow limit s.blocks
  pub ended : Ends s.status s.need

module _ (limit : ℕ) where
  Accounts-at_set_bit :
      (need word bit : ℕ) (skipped : Scan ℕ) (taken : Scan ℕ) (o : Option ℕ)
      → bit < 32
      → 1 ≤ need
      → (bit_and word (msb bit) == 0) ≡ false
      → Accounts (count_ones 32) limit need word skipped
      → (2 ≤ need
          → Accounts (count_ones 32) limit (need - 1) (bit_and word (u32_not (msb bit))) taken)
      → Accounts (count_ones 32) limit need word (
          at_set_bit limit need word skipped
            (bit_and word (u32_not (msb bit)))
            (λ blk. take_block blk taken)
            o)
  Accounts-at_set_bit need word bit skipped taken none lt pos set skip take = record {
    found = omega arith;
    cleared = omega arith;
    below = tt;
    ended = pos;
  }
  Accounts-at_set_bit need word bit skipped taken (some blk) lt pos set skip take =
      let one : word_bit word bit ≡ 1 =
        ground (arith, msb_test word bit, word_bit-le-one word bit) in
      elim (Bool-cases (leb limit blk)) [
        | inl e ↦ rw e skip
        | inr e ↦ elim (Bool-cases (need == 1)) [
          | inl f ↦
              rw (e, f)
                (record {
                  found = ground arith;
                  cleared = omega (arith, count_ones-clear word bit lt one);
                  below = (ground arith, tt);
                  ended = refl;
                })
          | inr f ↦
              let t = take (ground arith) in
              rw (e, f)
                (record {
                  found = ground (arith, t.found);
                  cleared = omega (arith, count_ones-clear word bit lt one, t.cleared);
                  below = (ground arith, t.below);
                  ended = t.ended;
                })
        ]
      ]

  pub scan_bits-Accounts :
      (number : ℕ → Option ℕ) (n bit need word : ℕ)
      → bit + n ≤ 32
      → 1 ≤ need
      → Accounts (count_ones 32) limit need word (scan_bits number limit n bit need word)
  unfolding scan_bits
  scan_bits-Accounts number zero bit need word lt pos = record {
    found = omega arith;
    cleared = omega arith;
    below = tt;
    ended = pos;
  }
  scan_bits-Accounts number (suc n) bit need word lt pos =
      let skip = scan_bits-Accounts number n (bit + 1) need word (omega arith) pos in
      elim (Bool-cases (bit_and word (msb bit) == 0)) [
        | inl e ↦ rw e skip
        | inr e ↦ rw e (
            Accounts-at_set_bit need word bit (scan_bits number limit n (bit + 1) need word)
              (scan_bits number limit n (bit + 1) (need - 1) (bit_and word (u32_not (msb bit))))
              (number bit) (omega arith) pos e skip
              (λ two.
                scan_bits-Accounts number n (bit + 1) (need - 1) (bit_and word (u32_not (msb bit)))
                  (omega arith) (omega arith)))
      ]

pub AllBelow-append :
    (limit : ℕ) (xs ys : List ℕ) → AllBelow limit xs → AllBelow limit ys → AllBelow limit (xs ++ ys)
AllBelow-append limit [] ys h k = k
AllBelow-append limit (x ∷ xs) ys (lt, h) k = (lt, AllBelow-append limit xs ys h k)

module _ (limit : ℕ) where
  Accounts-go_on :
      (need word bits need' : ℕ) (blocks : List ℕ) (st : Status) (words : List ℕ)
      (rest : ℕ → Scan (List ℕ))
      → Accounts
          (count_ones 32)
          limit
          need
          word
          (record { bits = bits; blocks = blocks; need = need'; status = st })
      → (1 ≤ need' → Accounts ones limit need' words (rest need'))
      → Accounts ones limit need (word ∷ words) (go_on bits blocks st words rest need')
  Accounts-go_on need word bits need' blocks unfinished words rest a r =
      let t = r a.ended in
      record {
        found = omega (arith, a.found, t.found, length-append blocks (rest need').blocks);
        cleared = omega (arith, a.cleared, t.cleared, length-append blocks (rest need').blocks);
        below = AllBelow-append limit blocks (rest need').blocks a.below t.below;
        ended = t.ended;
      }
  Accounts-go_on need word bits need' blocks full words rest a r = record {
    found = a.found;
    cleared = omega (arith, a.cleared);
    below = a.below;
    ended = a.ended;
  }
  Accounts-go_on need word bits need' blocks overflow words rest a r = record {
    found = a.found;
    cleared = omega (arith, a.cleared);
    below = a.below;
    ended = a.ended;
  }

  Accounts-cons_word :
      (need word : ℕ) (words : List ℕ) (s : Scan (List ℕ))
      → Accounts ones limit need words s
      → Accounts ones limit need (word ∷ words) (cons_word word s)
  Accounts-cons_word need word words s a = record {
    found = a.found;
    cleared = omega (arith, a.cleared);
    below = a.below;
    ended = a.ended;
  }

  Accounts-if :
      (need : ℕ) (words : List ℕ) (b : Bool) (s t : Scan (List ℕ))
      → Accounts ones limit need words s
      → Accounts ones limit need words t
      → Accounts ones limit need words (if b then s else t)
  Accounts-if need words true s t h k = h
  Accounts-if need words false s t h k = k

  -- Of the blocks that are wanted, the scan of the words of a bitmap block finds as many as it clears
  -- set bits, all of them below the limit; it ends full exactly when none is wanted any more.
  pub scan_words-Accounts :
      (number : ℕ → ℕ → Option ℕ) (li need : ℕ) (words : List ℕ)
      → 1 ≤ need
      → Accounts ones limit need words (scan_words number limit li need words)
  unfolding scan_words
  scan_words-Accounts number li need [] pos = record {
    found = omega arith;
    cleared = omega arith;
    below = tt;
    ended = pos;
  }
  scan_words-Accounts number li need (word ∷ words) pos =
      let s = scan_bits (number li) limit 32 0 need word in
      Accounts-if need (word ∷ words) (word == 0) _ _
        (Accounts-cons_word need word words (scan_words number limit (li + 1) need words)
          (scan_words-Accounts number (li + 1) need words pos))
        (Accounts-go_on need word s.bits s.need s.blocks s.status words
          (λ n. scan_words number limit (li + 1) n words)
          (scan_bits-Accounts limit (number li) 32 0 need word (omega arith) pos)
          (λ pos'. scan_words-Accounts number (li + 1) s.need words pos'))
