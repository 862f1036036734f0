-- ===== src/Prelude/Overlays.antt =====
-- A list with other elements laid over it, as what stands before, the elements and what stands behind.
use Prim.Native.Nat.{ℕ, zero, suc, ◌+◌, ◌-◌, ◌≤◌}
use mathlib.Core.Path.{◌≡◌, refl, ap, ◌∙◌}
use mathlib.Core.List.{List, [], ◌∷◌, ◌++◌}
use native.Mathlib.Omega.{arith}
use pfs.Prelude.Lists.{length, take, drop, replicate, write_at}

module _ {ℓ} {A : Type ℓ} where
  write_at-start :
      (xs ys : List A) → length ys ≤ length xs → write_at xs 0 ys ≡ ys ++ drop (length ys) xs
  write_at-start [] [] h = refl
  write_at-start (x ∷ xs) [] h = refl
  write_at-start [] (y ∷ ys) h = absurd (omega arith)
  write_at-start (x ∷ xs) (y ∷ ys) h = ap (λ l. y ∷ l) (write_at-start xs ys (omega arith))

  pub write_at_eq :
      (xs : List A) (lo end : ℕ) (ys : List A)
      → end ≡ lo + length ys
      → end ≤ length xs
      → write_at xs lo ys ≡ take lo xs ++ ys ++ drop end xs
  write_at_eq xs zero end ys e h =
      let same : length ys ≡ end = omega arith in
      write_at-start xs ys (omega arith) ∙ ap (λ n. ys ++ drop n xs) same
  write_at_eq [] (suc lo) end ys e h = absurd (omega arith)
  write_at_eq (x ∷ xs) (suc lo) zero ys e h = absurd (omega arith)
  write_at_eq (x ∷ xs) (suc lo) (suc end) ys e h =
      ap (λ l. x ∷ l) (write_at_eq xs lo end ys (omega arith) (omega arith))

  pub drop_past : (n : ℕ) (xs : List A) → length xs ≤ n → drop n xs ≡ []
  drop_past zero [] h = refl
  drop_past (suc n) [] h = refl
  drop_past zero (x ∷ xs) h = absurd (omega arith)
  drop_past (suc n) (x ∷ xs) h = drop_past n xs (omega arith)

  pub take_past : (n : ℕ) (xs : List A) → length xs ≤ n → take n xs ≡ xs
  take_past zero [] h = refl
  take_past (suc n) [] h = refl
  take_past zero (x ∷ xs) h = absurd (omega arith)
  take_past (suc n) (x ∷ xs) h = ap (λ l. x ∷ l) (take_past n xs (omega arith))

  take-replicate : (n k : ℕ) (a : A) → n ≤ k → take n (replicate k a) ≡ replicate n a
  take-replicate zero k a h = refl
  take-replicate (suc n) zero a h = absurd (omega arith)
  take-replicate (suc n) (suc k) a h = ap (λ l. a ∷ l) (take-replicate n k a (omega arith))

  -- What is cut off a list that was made longer: the list, cut off or made longer less.
  pub take-longer :
      (n k gap : ℕ) (xs : List A) (a : A)
      → n ≤ length xs + k
      → gap ≡ n - length xs
      → take n (xs ++ replicate k a) ≡ take n xs ++ replicate gap a
  take-longer zero k gap xs a h e = let none_left : gap ≡ 0 = omega arith in rw none_left refl
  take-longer (suc n) k gap [] a h e =
      let all_left : suc n ≡ gap = omega arith in
      take-replicate (suc n) k a (omega arith) ∙ ap (λ m. replicate m a) all_left
  take-longer (suc n) k gap (x ∷ xs) a h e =
      ap (λ l. x ∷ l) (take-longer n k gap xs a (omega arith) (omega arith))
