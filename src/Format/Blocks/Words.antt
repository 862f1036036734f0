-- ===== src/Format/Blocks/Words.antt =====
-- About the words of the bitmap blocks that a format writes.
use pfs.Prelude.{
  ℕ, zero, suc, ◌+◌, ◌-◌, ◌*◌, ◌/◌, ◌%◌, ◌^◌, ◌≤◌, ◌<◌, ◌&&◌, List, ◌≡◌, refl, ap, ◌∙◌, true, false,
  Bool, length, length-write_at, read_at-write_at_before, arith, read_at, write_at, ltb, leb, ◌==◌,
  word_bit, bit_at, all_below, all_below_sound, if◌then◌else◌, min, add32, ltb→lt, bit_at-zero,
}
use native.Mathlib.Decide.{dec_lt}
use pfs.Error.{Returns, returns, Returns-if, Returns-map}
use pfs.Bytes.{be32, from_be}
use pfs.Bytes.Laws.{word_at, word_at_self, word_at_after, put_u32_eq}
use pfs.Format.Blocks.{bitmap_word, put_free_words}

-- The word whose first `n` bits are set.
abbrev upper : ℕ → ℕ
upper n = if leb 32 n then 0xFFFF_FFFF else 0xFFFF_FFFF * 2 ^ (32 - n) % 2 ^ 32

abbrev table_entry : ℕ → Bool
table_entry i =
    (word_bit (upper (i / 32)) (i % 32) == (if ltb (i % 32) (i / 32) then 1 else 0))
    && ltb (upper (i / 32)) (2 ^ 32)

upper_table : all_below (33 * 32) table_entry ≡ true
unfolding all_below word_bit bit_at
upper_table = refl

table_row : (w u v bound : ℕ) → (w == u && ltb v bound) ≡ true → (w ≡ u) × (v < bound)
table_row w u v bound h = ground arith

upper_bits :
    (n k : ℕ)
    → n ≤ 32
    → k < 32
    → (word_bit (upper n) k ≡ (if ltb k n then 1 else 0)) × (upper n < 2 ^ 32)
upper_bits n k hn hk =
    let q : (n * 32 + k) / 32 ≡ n = omega arith in
    let r : (n * 32 + k) % 32 ≡ k = omega arith in
    table_row _ _ _ _
      (rw (q, r) at (all_below_sound (33 * 32) table_entry (n * 32 + k) upper_table (omega arith)))

-- The bits of a word that stands for the blocks from `s` on.
bitmap_word-bits :
    (db s k : ℕ)
    → s < db
    → k < 32
    → (word_bit (bitmap_word db s) k ≡ (if ltb (s + k) db then 1 else 0))
      × (bitmap_word db s < 2 ^ 32)
unfolding bitmap_word
bitmap_word-bits db s k hs hk =
    let same : ltb k (min (db - s) 32) ≡ ltb (s + k) db = ground (arith, hs, hk) in
    rw same at (upper_bits (min (db - s) 32) k (omega arith) hk)

-- What the words from `j` on, `n` of them, hold after the loop; nothing before them changes.
pub record Fills (db start j n : ℕ) (buf b : List ℕ) : Type 0 where
  pub same_length : length b ≡ length buf
  pub before : (at k : ℕ) → at + k ≤ 12 + j * 4 → read_at b at k ≡ read_at buf at k
  pub bits :
      (i k : ℕ)
      → j ≤ i
      → i < j + n
      → k < 32
      → word_bit (word_at b (12 + i * 4)) k ≡ (if ltb (start + i * 32 + k) db then 1 else 0)

abbrev pub ZeroFrom : ℕ → ℕ → List ℕ → Type 0
ZeroFrom j n buf = (i : ℕ) → j ≤ i → i < j + n → word_at buf (12 + i * 4) ≡ 0

no_bits : (k : ℕ) → k < 32 → word_bit 0 k ≡ 0
unfolding word_bit
no_bits k h = bit_at-zero (31 - k)

-- One word in front of the rest.
Fills-put :
    (db start j n : ℕ) (buf b : List ℕ)
    → 12 + (j + suc n) * 4 ≤ length buf
    → start + j * 32 < db
    → Fills db start
        (j + 1)
        n
        (write_at buf (12 + j * 4) (be32 (bitmap_word db (start + j * 32))))
        b
    → Fills db start j (suc n) buf b
Fills-put db start j n buf b room inside f = record {
  same_length = f.same_length ∙ length-write_at buf (12 + j * 4) _;
  before =
      λ at k h. f.before at k (omega arith) ∙ read_at-write_at_before buf (12 + j * 4) at k _ h;
  bits = λ i k lo hi hk. elim (dec_lt j i) [
    | yes later ↦ f.bits i k (omega arith) (omega arith) hk
    | no here ↦
        let e : i ≡ j = omega arith in
        let w : word_at b (12 + j * 4) ≡ bitmap_word db (start + j * 32) =
          ap from_be (f.before (12 + j * 4) 4 (omega arith))
          ∙ word_at_self buf (12 + j * 4) _ (omega arith)
              (bitmap_word-bits db (start + j * 32) k inside hk).1 in
        rw (e, w) (bitmap_word-bits db (start + j * 32) k inside hk).0
  ];
}

-- One word that stays zero.
Fills-skip :
    (db start j n : ℕ) (buf b : List ℕ)
    → db ≤ start + j * 32
    → word_at buf (12 + j * 4) ≡ 0
    → Fills db start (j + 1) n buf b
    → Fills db start j (suc n) buf b
Fills-skip db start j n buf b beyond z f = record {
  same_length = f.same_length;
  before = λ at k h. f.before at k (omega arith);
  bits = λ i k lo hi hk. elim (dec_lt j i) [
    | yes later ↦ f.bits i k (omega arith) (omega arith) hk
    | no here ↦
        let e : i ≡ j = omega arith in
        let w : word_at b (12 + j * 4) ≡ 0 =
          ap from_be (f.before (12 + j * 4) 4 (omega arith)) ∙ z in
        rw (e, w) (no_bits k hk ∙ ground (arith, beyond))
  ];
}

not_ltb : (a b : ℕ) → ltb a b ≡ false → b ≤ a
not_ltb a b h = ground arith

pub put_free_words-Fills :
    (db start : ℕ) (buf : List ℕ) (j n : ℕ)
    → 12 + (j + n) * 4 ≤ length buf
    → start + (j + n) * 32 ≤ 2 ^ 32
    → ZeroFrom j n buf
    → Returns (Fills db start j n buf) (put_free_words db start buf j n)
unfolding put_free_words
put_free_words-Fills db start buf j zero room small z = returns buf (record {
  same_length = refl;
  before = λ at k h. refl;
  bits = λ i k lo hi hk. absurd (omega arith);
})
put_free_words-Fills db start buf j (suc n) room small z =
    let e : add32 start (j * 32) ≡ start + j * 32 = omega arith in
    rw e (
      Returns-if (ltb (start + j * 32) db)
        (λ inside.
          rw (put_u32_eq buf (12 + j * 4) (bitmap_word db (start + j * 32)) (omega arith)) (
            Returns-map
              (put_free_words-Fills db start
                (write_at buf (12 + j * 4) (be32 (bitmap_word db (start + j * 32)))) (j + 1) n
                (omega (
                  arith,
                  length-write_at buf (12 + j * 4) (be32 (bitmap_word db (start + j * 32))),
                ))
                (omega arith)
                (λ i lo hi.
                  word_at_after buf (12 + j * 4) (12 + i * 4) (bitmap_word db (start + j * 32))
                    (omega arith)
                  ∙ z i (omega arith) (omega arith)))
              (λ b f. Fills-put db start j n buf b room (ltb→lt _ _ inside) f)))
        (λ beyond.
          Returns-map
            (put_free_words-Fills db start buf (j + 1) n (omega arith) (omega arith)
              (λ i lo hi. z i (omega arith) (omega arith)))
            (λ b f.
              Fills-skip db start j n buf b (not_ltb (start + j * 32) db beyond)
                (z j (omega arith) (omega arith)) f)))
