-- ===== src/Prelude/Lists.antt =====
-- Lists measured and indexed by native numbers, and ranges of them that are read and written.
use Prim.Native.Nat.{ℕ, zero, suc, ◌+◌, ◌-◌, ◌≤◌, ◌<◌, min}
use mathlib.Core.Path.{◌≡◌, refl, ap}
use mathlib.Core.Logic.{◌≢◌}
use mathlib.Core.List.{List, [], ◌∷◌, ◌++◌}
use mathlib.Core.Option.{Option, none, some}
use native.Mathlib.Omega.{arith}

module _ {ℓ} {A : Type ℓ} where
  abbrev pub length : List A → ℕ
  length [] = 0
  length (x ∷ xs) = suc (length xs)

  abbrev pub get_elem? : List A → ℕ → Option A
  get_elem? [] i = none
  get_elem? (x ∷ xs) zero = some x
  get_elem? (x ∷ xs) (suc i) = get_elem? xs i

  abbrev pub get_or : List A → ℕ → A → A
  get_or [] i d = d
  get_or (x ∷ xs) zero d = x
  get_or (x ∷ xs) (suc i) d = get_or xs i d

  -- A write out of bounds changes nothing.
  abbrev pub set : List A → ℕ → A → List A
  set [] i v = []
  set (x ∷ xs) zero v = v ∷ xs
  set (x ∷ xs) (suc i) v = x ∷ set xs i v

  abbrev pub take : ℕ → List A → List A
  take zero xs = []
  take (suc n) [] = []
  take (suc n) (x ∷ xs) = x ∷ take n xs

  abbrev pub drop : ℕ → List A → List A
  drop zero xs = xs
  drop (suc n) [] = []
  drop (suc n) (x ∷ xs) = drop n xs

  abbrev pub replicate : ℕ → A → List A
  replicate zero a = []
  replicate (suc n) a = a ∷ replicate n a

  -- `ys` laid over the head of `xs`; what does not fit is lost.
  abbrev overlay : List A → List A → List A
  overlay [] ys = []
  overlay (x ∷ xs) [] = x ∷ xs
  overlay (x ∷ xs) (y ∷ ys) = y ∷ overlay xs ys

  -- The `n` elements from `lo` on.
  abbrev pub read_at : List A → ℕ → ℕ → List A
  read_at xs lo n = take n (drop lo xs)

  -- `ys` laid over `xs` from `lo` on.
  abbrev pub write_at : List A → ℕ → List A → List A
  write_at xs zero ys = overlay xs ys
  write_at [] (suc lo) ys = []
  write_at (x ∷ xs) (suc lo) ys = x ∷ write_at xs lo ys

module _ {ℓ} {A : Type ℓ} where
  pub length-append : (xs ys : List A) → length (xs ++ ys) ≡ length xs + length ys
  length-append [] ys = omega arith
  length-append (x ∷ xs) ys = omega (arith, length-append xs ys)

  pub length-set : (xs : List A) (i : ℕ) (v : A) → length (set xs i v) ≡ length xs
  length-set [] i v = refl
  length-set (x ∷ xs) zero v = refl
  length-set (x ∷ xs) (suc i) v = ap suc (length-set xs i v)

  pub get_elem?-set_self :
      (xs : List A) (i : ℕ) (v : A) → i < length xs → get_elem? (set xs i v) i ≡ some v
  get_elem?-set_self [] i v h = elim h [ ]
  get_elem?-set_self (x ∷ xs) zero v h = refl
  get_elem?-set_self (x ∷ xs) (suc i) v h = get_elem?-set_self xs i v (omega arith)

  pub get_elem?-set_ne :
      (xs : List A) (i j : ℕ) (v : A) → i ≢ j → get_elem? (set xs i v) j ≡ get_elem? xs j
  get_elem?-set_ne [] i j v h = refl
  get_elem?-set_ne (x ∷ xs) zero zero v h = absurd (h refl)
  get_elem?-set_ne (x ∷ xs) zero (suc j) v h = refl
  get_elem?-set_ne (x ∷ xs) (suc i) zero v h = refl
  get_elem?-set_ne (x ∷ xs) (suc i) (suc j) v h = get_elem?-set_ne xs i j v (λ e. h (ap suc e))

  pub length-take : (n : ℕ) (xs : List A) → length (take n xs) ≡ min n (length xs)
  length-take zero xs = omega arith
  length-take (suc n) [] = omega arith
  length-take (suc n) (x ∷ xs) = omega (arith, length-take n xs)

  pub length-drop : (n : ℕ) (xs : List A) → length (drop n xs) ≡ length xs - n
  length-drop zero xs = omega arith
  length-drop (suc n) [] = omega arith
  length-drop (suc n) (x ∷ xs) = omega (arith, length-drop n xs)

  pub length-replicate : (n : ℕ) (a : A) → length (replicate n a) ≡ n
  length-replicate zero a = refl
  length-replicate (suc n) a = ap suc (length-replicate n a)

  pub take-append : (xs ys : List A) → take (length xs) (xs ++ ys) ≡ xs
  take-append [] ys = refl
  take-append (x ∷ xs) ys = ap (λ l. x ∷ l) (take-append xs ys)

  pub drop-append : (xs ys : List A) → drop (length xs) (xs ++ ys) ≡ ys
  drop-append [] ys = refl
  drop-append (x ∷ xs) ys = drop-append xs ys

  pub take-append-drop : (n : ℕ) (xs : List A) → take n xs ++ drop n xs ≡ xs
  take-append-drop zero xs = refl
  take-append-drop (suc n) [] = refl
  take-append-drop (suc n) (x ∷ xs) = ap (λ l. x ∷ l) (take-append-drop n xs)

  length-overlay : (xs ys : List A) → length (overlay xs ys) ≡ length xs
  length-overlay [] ys = refl
  length-overlay (x ∷ xs) [] = refl
  length-overlay (x ∷ xs) (y ∷ ys) = ap suc (length-overlay xs ys)

  take-overlay : (xs ys : List A) → length ys ≤ length xs → take (length ys) (overlay xs ys) ≡ ys
  take-overlay xs [] h = refl
  take-overlay [] (y ∷ ys) h = elim h [ ]
  take-overlay (x ∷ xs) (y ∷ ys) h = ap (λ l. y ∷ l) (take-overlay xs ys (omega arith))

  drop-overlay : (xs ys : List A) (n : ℕ) → length ys ≤ n → drop n (overlay xs ys) ≡ drop n xs
  drop-overlay [] ys n h = refl
  drop-overlay (x ∷ xs) [] n h = refl
  drop-overlay (x ∷ xs) (y ∷ ys) zero h = elim h [ ]
  drop-overlay (x ∷ xs) (y ∷ ys) (suc n) h = drop-overlay xs ys n (omega arith)

  pub length-write_at :
      (xs : List A) (lo : ℕ) (ys : List A) → length (write_at xs lo ys) ≡ length xs
  length-write_at xs zero ys = length-overlay xs ys
  length-write_at [] (suc lo) ys = refl
  length-write_at (x ∷ xs) (suc lo) ys = ap suc (length-write_at xs lo ys)

  -- What was written is read back.
  pub read_at-write_at_self :
      (xs : List A) (lo : ℕ) (ys : List A)
      → lo + length ys ≤ length xs
      → read_at (write_at xs lo ys) lo (length ys) ≡ ys
  read_at-write_at_self xs zero ys h = take-overlay xs ys (omega arith)
  read_at-write_at_self [] (suc lo) ys h = absurd (omega arith)
  read_at-write_at_self (x ∷ xs) (suc lo) ys h = read_at-write_at_self xs lo ys (omega arith)

  -- What lies after the written range stays.
  pub read_at-write_at_after :
      (xs : List A) (lo at n : ℕ) (ys : List A)
      → lo + length ys ≤ at
      → read_at (write_at xs lo ys) at n ≡ read_at xs at n
  read_at-write_at_after xs zero at n ys h = ap (take n) (drop-overlay xs ys at (omega arith))
  read_at-write_at_after [] (suc lo) at n ys h = refl
  read_at-write_at_after (x ∷ xs) (suc lo) zero n ys h = absurd (omega arith)
  read_at-write_at_after (x ∷ xs) (suc lo) (suc at) n ys h =
      read_at-write_at_after xs lo at n ys (omega arith)

  -- What lies before the written range stays.
  pub read_at-write_at_before :
      (xs : List A) (lo at n : ℕ) (ys : List A)
      → at + n ≤ lo
      → read_at (write_at xs lo ys) at n ≡ read_at xs at n
  read_at-write_at_before [] zero at n ys h = refl
  read_at-write_at_before (x ∷ xs) zero at zero ys h = refl
  read_at-write_at_before (x ∷ xs) zero at (suc n) ys h = absurd (omega arith)
  read_at-write_at_before [] (suc lo) at n ys h = refl
  read_at-write_at_before (x ∷ xs) (suc lo) zero zero ys h = refl
  read_at-write_at_before (x ∷ xs) (suc lo) zero (suc n) ys h =
      ap (λ l. x ∷ l) (read_at-write_at_before xs lo zero n ys (omega arith))
  read_at-write_at_before (x ∷ xs) (suc lo) (suc at) n ys h =
      read_at-write_at_before xs lo at n ys (omega arith)

-- `lo..lo + n`
unfoldable pub range : ℕ → ℕ → List ℕ
range lo zero = []
range lo (suc n) = lo ∷ range (suc lo) n
