-- ===== src/Prelude/Ranges.antt =====
-- Ranges of ranges, and reads and writes behind a prefix.
use Prim.Native.Nat.{ℕ, zero, suc, ◌+◌, ◌≤◌}
use mathlib.Core.Path.{◌≡◌, refl, ap}
use mathlib.Core.List.{List, [], ◌∷◌, ◌++◌}
use native.Mathlib.Omega.{arith}
use pfs.Prelude.Lists.{length, get_elem?, set, take, drop, replicate, read_at, write_at}

module _ {ℓ} {A : Type ℓ} where
  pub drop-drop : (xs : List A) (lo k at : ℕ) → at ≡ lo + k → drop k (drop lo xs) ≡ drop at xs
  drop-drop xs zero k at e = let e' : at ≡ k = omega arith in rw e' refl
  drop-drop xs (suc lo) k zero e = absurd (omega arith)
  drop-drop [] (suc lo) zero (suc at) e = refl
  drop-drop [] (suc lo) (suc k) (suc at) e = refl
  drop-drop (x ∷ xs) (suc lo) k (suc at) e = drop-drop xs lo k at (omega arith)

  take-take : (xs : List A) (n m : ℕ) → n ≤ m → take n (take m xs) ≡ take n xs
  take-take xs zero m h = refl
  take-take xs (suc n) zero h = absurd (omega arith)
  take-take [] (suc n) (suc m) h = refl
  take-take (x ∷ xs) (suc n) (suc m) h = ap (λ l. x ∷ l) (take-take xs n m (omega arith))

  pub read_at-take :
      (xs : List A) (k n m : ℕ) → k + n ≤ m → read_at (take m xs) k n ≡ read_at xs k n
  read_at-take xs zero n m h = take-take xs n m (omega arith)
  read_at-take xs (suc k) n zero h = absurd (omega arith)
  read_at-take [] (suc k) n (suc m) h = refl
  read_at-take (x ∷ xs) (suc k) n (suc m) h = read_at-take xs k n m (omega arith)

  -- A range of a range.
  pub read_at-read_at :
      (xs : List A) (lo m k n : ℕ)
      → k + n ≤ m
      → read_at (read_at xs lo m) k n ≡ read_at xs (lo + k) n
  read_at-read_at xs lo m k n h =
      rw (read_at-take (drop lo xs) k n m h) (ap (take n) (drop-drop xs lo k (lo + k) refl))

  pub replicate-add : (m k : ℕ) (a : A) → replicate (m + k) a ≡ replicate m a ++ replicate k a
  replicate-add zero k a = let e : 0 + k ≡ k = omega arith in rw e refl
  replicate-add (suc m) k a =
      let e : suc m + k ≡ suc (m + k) = omega arith in rw e (ap (λ l. a ∷ l) (replicate-add m k a))

  -- Writes behind a prefix, whose length is `lo`.
  pub write_at-append :
      (xs ys zs : List A) (lo : ℕ)
      → lo ≡ length xs
      → write_at (xs ++ ys) lo zs ≡ xs ++ write_at ys 0 zs
  write_at-append [] ys zs lo e = rw e refl
  write_at-append (x ∷ xs) ys zs zero e = absurd (omega arith)
  write_at-append (x ∷ xs) ys zs (suc lo) e =
      ap (λ l. x ∷ l) (write_at-append xs ys zs lo (omega arith))

  pub write_at-prefix :
      (xs ys zs : List A) → length xs ≡ length zs → write_at (xs ++ ys) 0 zs ≡ zs ++ ys
  write_at-prefix [] [] [] h = refl
  write_at-prefix [] (y ∷ ys) [] h = refl
  write_at-prefix [] ys (z ∷ zs) h = absurd (omega arith)
  write_at-prefix (x ∷ xs) ys [] h = absurd (omega arith)
  write_at-prefix (x ∷ xs) ys (z ∷ zs) h = ap (λ l. z ∷ l) (write_at-prefix xs ys zs (omega arith))

  pub set-append :
      (xs ys : List A) (y v : A) (i : ℕ) → i ≡ length xs → set (xs ++ y ∷ ys) i v ≡ xs ++ v ∷ ys
  set-append [] ys y v i e = rw e refl
  set-append (x ∷ xs) ys y v zero e = absurd (omega arith)
  set-append (x ∷ xs) ys y v (suc i) e = ap (λ l. x ∷ l) (set-append xs ys y v i (omega arith))

  pub read_at-append :
      (xs ys : List A) (lo k n : ℕ) → lo ≡ length xs + k → read_at (xs ++ ys) lo n ≡ read_at ys k n
  read_at-append [] ys lo k n e = let e' : lo ≡ k = omega arith in rw e' refl
  read_at-append (x ∷ xs) ys zero k n e = absurd (omega arith)
  read_at-append (x ∷ xs) ys (suc lo) k n e = read_at-append xs ys lo k n (omega arith)

  -- A range inside the first of two lists.
  pub read_at-append_left :
      (xs ys : List A) (lo n : ℕ) → lo + n ≤ length xs → read_at (xs ++ ys) lo n ≡ read_at xs lo n
  read_at-append_left [] ys zero zero h = refl
  read_at-append_left [] ys zero (suc n) h = absurd (omega arith)
  read_at-append_left [] ys (suc lo) n h = absurd (omega arith)
  read_at-append_left (x ∷ xs) ys zero zero h = refl
  read_at-append_left (x ∷ xs) ys zero (suc n) h =
      ap (λ l. x ∷ l) (read_at-append_left xs ys zero n (omega arith))
  read_at-append_left (x ∷ xs) ys (suc lo) n h = read_at-append_left xs ys lo n (omega arith)

  pub get_elem?-append :
      (xs ys : List A) (lo k : ℕ) → lo ≡ length xs + k → get_elem? (xs ++ ys) lo ≡ get_elem? ys k
  get_elem?-append [] ys lo k e = let e' : lo ≡ k = omega arith in rw e' refl
  get_elem?-append (x ∷ xs) ys zero k e = absurd (omega arith)
  get_elem?-append (x ∷ xs) ys (suc lo) k e = get_elem?-append xs ys lo k (omega arith)

  pub take_all : (xs : List A) → take (length xs) xs ≡ xs
  take_all [] = refl
  take_all (x ∷ xs) = ap (λ l. x ∷ l) (take_all xs)
