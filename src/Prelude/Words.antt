-- ===== src/Prelude/Words.antt =====
-- The bits of a 32-bit word, counted from the highest, as bitmaps use them.
use Prim.Native.Nat.{ℕ, ◌+◌, ◌-◌, ◌*◌, ◌/◌, ◌%◌, ◌^◌, ◌≤◌, ◌<◌, bit_and, bit_or}
use mathlib.Core.Path.{◌≡◌, refl}
use mathlib.Core.Logic.{◌≢◌}
use mathlib.Core.Bool.{Bool, true, ◌&&◌}
use native.Mathlib.Nat.{one-le-pow}
use native.Mathlib.Omega.{arith}
use pfs.Prelude.Tests.{◌==◌, if◌then◌else◌, all_below, all_below_sound, ==_iff}
use pfs.Prelude.Bits.{bit_at, bit_at-le-one, bit_at-bit_and, bit_at-bit_or, bit_and_pow}
use pfs.Prelude.Bits.{count_ones, count_ones_one_more}

-- `0x8000_0000 >> bit`: the mask of bit `bit`, counted from the highest.
unfoldable pub msb : ℕ → ℕ
msb bit = 0x8000_0000 / 2 ^ bit

-- u32 arithmetic.
abbrev pub add32 : ℕ → ℕ → ℕ
add32 a b = (a + b) % 2 ^ 32

abbrev pub sub32 : ℕ → ℕ → ℕ
sub32 a b = (a + 2 ^ 32 - b) % 2 ^ 32

abbrev pub mul32 : ℕ → ℕ → ℕ
mul32 a b = a * b % 2 ^ 32

-- `!m` on u32.
abbrev pub u32_not : ℕ → ℕ
u32_not m = 0xFFFF_FFFF - m

-- Bit `bit` of a 32-bit word, counted from the highest.
unfoldable pub word_bit : ℕ → ℕ → ℕ
word_bit w bit = bit_at w (31 - bit)

msb_table : all_below 32 (λ b. msb b == 2 ^ (31 - b)) ≡ true
unfolding all_below msb
msb_table = refl

msb-pow : (b : ℕ) → b < 32 → msb b ≡ 2 ^ (31 - b)
msb-pow b h = (==_iff _ _).0 (all_below_sound 32 _ b msb_table h)

abbrev mask_ok : ℕ → Bool
mask_ok n =
    (word_bit (msb (n / 32)) (n % 32) == (if n % 32 == n / 32 then 1 else 0))
    && (word_bit (u32_not (msb (n / 32))) (n % 32) == (if n % 32 == n / 32 then 0 else 1))

mask_table : all_below 1024 mask_ok ≡ true
unfolding all_below msb bit_at word_bit
mask_table = refl

mask_entry :
    (b c : ℕ)
    → ((word_bit (msb b) c == (if c == b then 1 else 0))
        && (word_bit (u32_not (msb b)) c == (if c == b then 0 else 1)))
      ≡ true
    → (word_bit (msb b) c ≡ (if c == b then 1 else 0))
      × (word_bit (u32_not (msb b)) c ≡ (if c == b then 0 else 1))
mask_entry b c h = ground arith

mask_bits :
    (b c : ℕ)
    → b < 32
    → c < 32
    → (word_bit (msb b) c ≡ (if c == b then 1 else 0))
      × (word_bit (u32_not (msb b)) c ≡ (if c == b then 0 else 1))
mask_bits b c hb hc =
    let q : (b * 32 + c) / 32 ≡ b = omega arith in
    let r : (b * 32 + c) % 32 ≡ c = omega arith in
    mask_entry b c
      (rw (q, r) at (all_below_sound 1024 mask_ok (b * 32 + c) mask_table (omega arith)))

pub word_bit-le-one : (w b : ℕ) → word_bit w b ≤ 1
unfolding word_bit
word_bit-le-one w b = bit_at-le-one (31 - b) w

scaled_test : (a p : ℕ) → 1 ≤ p → (a * p == 0) ≡ (a == 0)
scaled_test a p h = grind arith

-- The test `w & (0x8000_0000 >> bit) != 0` reads one bit.
pub msb_test : (w b : ℕ) → b < 32 → (bit_and w (msb b) == 0) ≡ (word_bit w b == 0)
unfolding word_bit
msb_test w b h =
    rw (msb-pow b h, bit_and_pow (31 - b) w) (scaled_test _ _ (one-le-pow (31 - b) 2 (omega arith)))

-- `w & !(0x8000_0000 >> bit)` clears one bit and leaves the others.
pub word_bit-clear :
    (w b c : ℕ)
    → b < 32
    → c < 32
    → word_bit (bit_and w (u32_not (msb b))) c ≡ (if c == b then 0 else word_bit w c)
unfolding word_bit
word_bit-clear w b c hb hc = ground (
  arith,
  bit_at-bit_and (31 - c) w (u32_not (msb b)),
  (mask_bits b c hb hc).1,
  bit_at-le-one (31 - c) w,
)

-- `w | (0x8000_0000 >> bit)` sets one bit and leaves the others.
pub word_bit-set :
    (w b c : ℕ)
    → b < 32
    → c < 32
    → word_bit (bit_or w (msb b)) c ≡ (if c == b then 1 else word_bit w c)
unfolding word_bit
word_bit-set w b c hb hc =
    ground
      (arith, bit_at-bit_or (31 - c) w (msb b), (mask_bits b c hb hc).0, bit_at-le-one (31 - c) w)

clear_ne :
    (w b c : ℕ)
    → b < 32
    → c < 32
    → c ≢ b
    → bit_at (bit_and w (u32_not (msb b))) (31 - c) ≡ bit_at w (31 - c)
unfolding word_bit
clear_ne w b c hb hc ne = ground (arith, word_bit-clear w b c hb hc)

set_ne :
    (w b c : ℕ) → b < 32 → c < 32 → c ≢ b → bit_at w (31 - c) ≡ bit_at (bit_or w (msb b)) (31 - c)
unfolding word_bit
set_ne w b c hb hc ne = ground (arith, word_bit-set w b c hb hc)

-- Clearing a bit that is set takes one from the count of ones.
pub count_ones-clear :
    (w b : ℕ)
    → b < 32
    → word_bit w b ≡ 1
    → count_ones 32 w ≡ count_ones 32 (bit_and w (u32_not (msb b))) + 1
unfolding word_bit
count_ones-clear w b hb one =
    count_ones_one_more 32 (31 - b) (bit_and w (u32_not (msb b))) w (omega arith)
      (ground (arith, word_bit-clear w b b hb hb)) one
      (λ j lt ne.
        let e : 31 - (31 - j) ≡ j = omega arith in
        rw e at (clear_ne w b (31 - j) hb (omega arith) (λ q. ne (omega arith))))

-- Setting a bit that is clear adds one to the count of ones.
pub count_ones-set :
    (w b : ℕ) → b < 32 → word_bit w b ≡ 0 → count_ones 32 (bit_or w (msb b)) ≡ count_ones 32 w + 1
unfolding word_bit
count_ones-set w b hb z =
    count_ones_one_more 32 (31 - b) w (bit_or w (msb b)) (omega arith) z
      (ground (arith, word_bit-set w b b hb hb))
      (λ j lt ne.
        let e : 31 - (31 - j) ≡ j = omega arith in
        rw e at (set_ne w b (31 - j) hb (omega arith) (λ q. ne (omega arith))))
