-- ===== src/Prelude/Bits.antt =====
-- Single bits of a word: the native `bit_and` and `bit_or` with a power of two, as arithmetic.
use Prim.Native.Nat.{ℕ, zero, suc, ◌+◌, ◌*◌, ◌/◌, ◌%◌, ◌^◌, ◌≤◌, ◌<◌, min, max}
use Prim.Native.Nat.{bit_and, bit_or, digits, bitwise, bit_and-bitwise, bit_or-bitwise}
use mathlib.Core.Path.{◌≡◌, ◌∙◌, refl, ap}
use mathlib.Core.Logic.{◌≢◌}
use native.Mathlib.Nat.{pow-succ'}
use native.Mathlib.Omega.{arith}

-- The native operations stand for `bitwise`, which goes over the digits on fuel. All fuel from the
-- first argument on gives the same.
module _ (z : ℕ → ℕ) (f : ℕ → ℕ → ℕ) where
  enough_fuel : (x y k j : ℕ) → x ≤ k → x ≤ j → digits z f k x y ≡ digits z f j x y
  enough_fuel (suc x) y zero j lo hi = absurd (omega arith)
  enough_fuel (suc x) y (suc k) zero lo hi = absurd (omega arith)
  enough_fuel (suc x) y (suc k) (suc j) lo hi =
      omega (arith, enough_fuel (suc x / 2) (y / 2) k j (omega arith) (omega arith))
  enough_fuel zero y zero zero lo hi = refl
  enough_fuel zero y (suc k) zero lo hi = refl
  enough_fuel zero y zero (suc j) lo hi = refl
  enough_fuel zero y (suc k) (suc j) lo hi = refl

  lowest_digit :
      (x y : ℕ)
      → bitwise z f (suc x) y ≡ f (suc x % 2) (y % 2) + 2 * bitwise z f (suc x / 2) (y / 2)
  lowest_digit x y =
      omega (arith, enough_fuel (suc x / 2) (y / 2) x (suc x / 2) (omega arith) (omega arith))

bit_or_step : (x y : ℕ) → bit_or x y ≡ max (x % 2) (y % 2) + 2 * bit_or (x / 2) (y / 2)
bit_or_step (suc x) y = simp bit_or-bitwise (lowest_digit (λ t. t) max x y)
bit_or_step zero y = simp bit_or-bitwise (omega arith)

bit_and_step : (x y : ℕ) → bit_and x y ≡ min (x % 2) (y % 2) + 2 * bit_and (x / 2) (y / 2)
bit_and_step (suc x) y = simp bit_and-bitwise (lowest_digit (λ t. zero) min x y)
bit_and_step zero y = simp bit_and-bitwise (omega arith)

-- The binary digit of `a` with weight `2 ^ k`.
unfoldable pub bit_at : ℕ → ℕ → ℕ
bit_at a zero = a % 2
bit_at a (suc k) = bit_at (a / 2) k

pub bit_at-le-one : (k a : ℕ) → bit_at a k ≤ 1
unfolding bit_at
bit_at-le-one zero a = omega arith
bit_at-le-one (suc k) a = bit_at-le-one k (a / 2)

pub bit_at-bit_and : (k a b : ℕ) → bit_at (bit_and a b) k ≡ min (bit_at a k) (bit_at b k)
unfolding bit_at
bit_at-bit_and zero a b = omega (arith, bit_and_step a b)
bit_at-bit_and (suc k) a b =
    let e : bit_and a b / 2 ≡ bit_and (a / 2) (b / 2) = omega (arith, bit_and_step a b) in
    rw e (bit_at-bit_and k (a / 2) (b / 2))

pub bit_at-bit_or : (k a b : ℕ) → bit_at (bit_or a b) k ≡ max (bit_at a k) (bit_at b k)
unfolding bit_at
bit_at-bit_or zero a b = omega (arith, bit_or_step a b)
bit_at-bit_or (suc k) a b =
    let e : bit_or a b / 2 ≡ bit_or (a / 2) (b / 2) = omega (arith, bit_or_step a b) in
    rw e (bit_at-bit_or k (a / 2) (b / 2))

pub bit_at-zero : (k : ℕ) → bit_at 0 k ≡ 0
unfolding bit_at
bit_at-zero zero = refl
bit_at-zero (suc k) = bit_at-zero k

half-double : (n : ℕ) → 2 * n / 2 ≡ n
half-double n = omega arith

-- The number of ones among the lowest `w` digits.
unfoldable pub count_ones : ℕ → ℕ → ℕ
count_ones zero a = 0
count_ones (suc w) a = a % 2 + count_ones w (a / 2)

pub count_ones_same :
    (w a b : ℕ) → ((j : ℕ) → j < w → bit_at a j ≡ bit_at b j) → count_ones w a ≡ count_ones w b
unfolding count_ones bit_at
count_ones_same zero a b h = refl
count_ones_same (suc w) a b h =
    omega (
      arith,
      h 0 (omega arith),
      count_ones_same w (a / 2) (b / 2) (λ j lt. h (suc j) (omega arith)),
    )

pub count_ones_zero : (w a : ℕ) → ((j : ℕ) → j < w → bit_at a j ≡ 0) → count_ones w a ≡ 0
unfolding count_ones bit_at
count_ones_zero zero a h = refl
count_ones_zero (suc w) a h =
    omega (arith, h 0 (omega arith), count_ones_zero w (a / 2) (λ j lt. h (suc j) (omega arith)))

-- Two words that agree but for one digit differ by one in their count.
pub count_ones_one_more :
    (w k a b : ℕ)
    → k < w
    → bit_at a k ≡ 0
    → bit_at b k ≡ 1
    → ((j : ℕ) → j < w → j ≢ k → bit_at a j ≡ bit_at b j)
    → count_ones w b ≡ count_ones w a + 1
unfolding count_ones bit_at
count_ones_one_more zero k a b lt za ob h = elim lt [ ]
count_ones_one_more (suc w) zero a b lt za ob h = omega (
  arith,
  count_ones_same w (a / 2) (b / 2)
      (λ j lt'. h (suc j) (omega arith) (λ (e : suc j ≡ 0). absurd (omega arith))),
)
count_ones_one_more (suc w) (suc k) a b lt za ob h = omega (
  arith,
  h 0 (omega arith) (λ (e : 0 ≡ suc k). absurd (omega arith)),
  count_ones_one_more w k (a / 2) (b / 2) (omega arith) za ob
      (λ j lt' ne. h (suc j) (omega arith) (λ (e : suc j ≡ suc k). ne (omega arith))),
)

-- No digit is common with 0; the bound `k` is what the recursion goes down on.
bit_and-zero_below : (k x : ℕ) → x ≤ k → bit_and x 0 ≡ 0
bit_and-zero_below zero x lo = let none_left : x ≡ 0 = omega arith in rw none_left refl
bit_and-zero_below (suc k) zero lo = refl
bit_and-zero_below (suc k) (suc x) lo =
    omega (arith, bit_and-zero_below k (suc x / 2) (omega arith), bit_and_step (suc x) 0)

bit_and-zero : (x : ℕ) → bit_and x 0 ≡ 0
bit_and-zero x = bit_and-zero_below x x (omega arith)

-- Testing one digit.
pub bit_and_pow : (k a : ℕ) → bit_and a (2 ^ k) ≡ bit_at a k * 2 ^ k
unfolding bit_at
bit_and_pow zero a = omega (arith, bit_and_step a 1, bit_and-zero (a / 2))
bit_and_pow (suc k) a =
    let e : 2 ^ suc k ≡ 2 * 2 ^ k = pow-succ' 2 k in
    rw e (
      omega (
        arith,
        bit_and_step a (2 * 2 ^ k),
        bit_and_pow k (a / 2),
        ap (λ (t : ℕ). bit_and (a / 2) t) (half-double (2 ^ k)),
      ))

bit_or-zero : (b : ℕ) → bit_or 0 b ≡ b
bit_or-zero b = simp bit_or-bitwise (omega arith)

-- Two numbers without a common digit.
pub bit_or-shifted : (k a b : ℕ) → a < 2 ^ k → bit_or a (b * 2 ^ k) ≡ a + b * 2 ^ k
bit_or-shifted zero a b h =
    let z : a ≡ 0 = omega arith in rw z (bit_or-zero (b * 2 ^ 0) ∙ omega arith)
bit_or-shifted (suc k) a b h =
    let e : 2 ^ suc k ≡ 2 * 2 ^ k = pow-succ' 2 k in
    let d : b * 2 ^ suc k ≡ 2 * (b * 2 ^ k) = rw e (grind arith) in
    rw d (
      omega (
        arith,
        e,
        bit_or_step a (2 * (b * 2 ^ k)),
        bit_or-shifted k (a / 2) b (omega (arith, e)),
        ap (λ (t : ℕ). bit_or (a / 2) t) (half-double (b * 2 ^ k)),
      ))
