-- ===== src/Format/Blocks/Union.antt =====
-- About the index union of the rootblock that a format writes, and how it is read.
use pfs.Prelude.{
  ℕ, ◌+◌, ◌-◌, ◌*◌, ◌^◌, ◌≤◌, ◌<◌, List, [], ◌∷◌, ◌++◌, ◌≡◌, refl, ◌∙◌, true, false, Bool, not,
  ◌==◌, bit_and, bit_or, length, length-append, length-replicate, length-take, arith, read_at,
  replicate, take, if◌then◌else◌,
}
use pfs.Error.{Result, ok, ◌>>=◌, Returns, Returns-map, Returns-bind}
use pfs.Bytes.{zeros}
use pfs.Ondisk.Constants.{mode_superindex}
use pfs.Ondisk.Rootblock.{parse_indices}
use pfs.Format.Geometry.{Geometry, options, base_options}
use pfs.Format.Blocks.{Layout, put_index_union}
use pfs.Format.Blocks.Keeps.{Keeps}
use pfs.Format.Blocks.WordsAt.{
  WordsAt, AllSmall, AllSmall-append, AllSmall-zeros, AllSmall-take, WordsAt-append, WordsAt-zeros,
  WordsAt-Keeps, u32_words_eq, put_words-Puts, put_u32-Puts,
}

-- The bitmap index and the anode index of a rootblock.
abbrev pub indices : Bool → Layout → List ℕ × List ℕ
indices true l = (l.bmi_blocknrs ++ replicate (104 - length l.bmi_blocknrs) 0, [])
indices false l =
    (take 5 l.bmi_blocknrs ++ replicate (5 - length l.bmi_blocknrs) 0, l.anidx_blk ∷ replicate 98 0)

abbrev pub HoldsIndices : List ℕ → List ℕ × List ℕ → Type 0
HoldsIndices c (bitmapindex, indexblocks) = WordsAt c 0x60 bitmapindex × WordsAt c 116 indexblocks

-- Where the union was zero, it holds the indices, and nothing in front of it changes.
pub record PutsIndices (large : Bool) (l : Layout) (b c : List ℕ) : Type 0 where
  pub keeps : Keeps 0x60 b c
  pub holds : HoldsIndices c (indices large l)

pub put_index_union-PutsIndices :
    (b : List ℕ) (large : Bool) (l : Layout)
    → 512 ≤ length b
    → length l.bmi_blocknrs ≤ 104
    → ((at : ℕ) → 0x60 ≤ at → at + 4 ≤ 512 → read_at b at 4 ≡ zeros 4)
    → Returns (PutsIndices large l b) (put_index_union b large l)
unfolding put_index_union
put_index_union-PutsIndices b true l room fits z =
    Returns-map (put_words-Puts b 0x60 l.bmi_blocknrs (omega arith)) (λ c p. record {
      keeps = record { same_length = p.same_length; same = p.before };
      holds = (
        WordsAt-append c 0x60 (0x60 + length l.bmi_blocknrs * 4) l.bmi_blocknrs _ refl p.words (
            WordsAt-zeros c (0x60 + length l.bmi_blocknrs * 4) 512
              (0x60 + length l.bmi_blocknrs * 4) (104 - length l.bmi_blocknrs)
              (λ at lo hi. p.behind at 4 lo ∙ z at (omega arith) hi) (omega arith) (omega arith)),
        tt,
      );
    })
put_index_union-PutsIndices b false l room fits z =
    let five = take 5 l.bmi_blocknrs in
    let len = length-take 5 l.bmi_blocknrs in
    Returns-bind (put_words-Puts b 0x60 five (omega (arith, len))) (λ c p.
      Returns-map (put_u32-Puts c 116 l.anidx_blk (omega (arith, p.same_length))) (λ d q. record {
        keeps = record {
          same_length = q.same_length ∙ p.same_length;
          same = λ at n h. q.before at n (omega arith) ∙ p.before at n h;
        };
        holds = (
          WordsAt-append d 0x60 (0x60 + length five * 4) five _ refl
              (WordsAt-Keeps 116 c d 0x60 five
                (record { same_length = q.same_length; same = q.before }) (omega (arith, len))
                p.words)
              (WordsAt-zeros d (0x60 + length five * 4) 116 (0x60 + length five * 4)
                (5 - length l.bmi_blocknrs)
                (λ at lo hi. q.before at 4 hi ∙ p.behind at 4 lo ∙ z at (omega arith) (omega arith))
                (omega arith) (omega (arith, len))),
          (
            q.words.0,
            WordsAt-zeros d 120 512 120 98
                (λ at lo hi.
                  q.behind at 4 (omega (arith, lo))
                  ∙ p.behind at 4 (omega (arith, lo, len))
                  ∙ z at (omega arith) hi)
                (omega arith) (omega arith),
          ),
        );
      }))

pub indices-Keeps :
    (b c : List ℕ) (large : Bool) (l : Layout)
    → length l.bmi_blocknrs ≤ 104
    → Keeps 512 b c
    → HoldsIndices b (indices large l)
    → HoldsIndices c (indices large l)
indices-Keeps b c true l fits f (h, k) = (
  WordsAt-Keeps 512 b c 0x60 (indices true l).0 f
      (omega (
        arith,
        length-append l.bmi_blocknrs (replicate (104 - length l.bmi_blocknrs) 0),
        length-replicate {A = ℕ} (104 - length l.bmi_blocknrs) 0,
      ))
      h,
  tt,
)
indices-Keeps b c false l fits f (h, k) = (
  WordsAt-Keeps 512 b c 0x60 (indices false l).0 f
      (omega (
        arith,
        length-append (take 5 l.bmi_blocknrs) (replicate (5 - length l.bmi_blocknrs) 0),
        length-replicate {A = ℕ} (5 - length l.bmi_blocknrs) 0,
        length-take 5 l.bmi_blocknrs,
      ))
      h,
  WordsAt-Keeps 512 b c 116 (indices false l).1 f (omega arith) k,
)

-- The parser finds the indices that the union holds.
pub parse_indices_eq :
    (c : List ℕ) (large : Bool) (l : Layout)
    → 512 ≤ length c
    → length l.bmi_blocknrs ≤ 104
    → AllSmall l.bmi_blocknrs
    → l.anidx_blk < 2 ^ 32
    → HoldsIndices c (indices large l)
    → parse_indices c large ≡ ok (indices large l)
parse_indices_eq c true l room fits small lt (h, k) =
    let n = 104 - length l.bmi_blocknrs in
    let words =
      u32_words_eq c 0x60 104 (indices true l).0
        (omega (arith, length-append l.bmi_blocknrs (replicate n 0), length-replicate {A = ℕ} n 0))
        (omega arith) (AllSmall-append l.bmi_blocknrs (replicate n 0) small (AllSmall-zeros n)) h in
    one_index _ words
  where
    one_index :
        (o : Result (List ℕ))
        → o ≡ ok (indices true l).0
        → (o >>= (λ ws. ok (ws, []))) ≡ ok (indices true l)
    one_index o e = rw e refl
parse_indices_eq c false l room fits small lt (h, k) =
    let n = 5 - length l.bmi_blocknrs in
    let five = take 5 l.bmi_blocknrs in
    let words =
      u32_words_eq c 0x60 5 (indices false l).0
        (omega (
          arith,
          length-append five (replicate n 0),
          length-replicate {A = ℕ} n 0,
          length-take 5 l.bmi_blocknrs,
        ))
        (omega arith)
        (AllSmall-append five (replicate n 0) (AllSmall-take 5 l.bmi_blocknrs small)
          (AllSmall-zeros n))
        h in
    let anodes =
      u32_words_eq c 116 99 (indices false l).1 refl (omega arith) (lt, AllSmall-zeros 98) k in
    two_indices _ _ words anodes
  where
    two_indices :
        (o r : Result (List ℕ))
        → o ≡ ok (indices false l).0
        → r ≡ ok (indices false l).1
        → (o >>= (λ ws. r >>= (λ vs. ok (ws, vs)))) ≡ ok (indices false l)
    two_indices o r e1 e2 = rw (e1, e2) refl

-- The flag in the options says whether the disk is large.
pub options-superindex :
    (g : Geometry) → not (bit_and (options g) mode_superindex == 0) ≡ g.supermode
unfolding options
options-superindex g = go g.supermode
  where
    go :
        (b : Bool)
        → not (
            bit_and
              (if b then bit_or base_options mode_superindex else base_options)
              mode_superindex
            == 0)
          ≡ b
    go true = refl
    go false = refl
