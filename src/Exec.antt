-- ===== src/Exec.antt =====
-- Methods that change an object and may fail. What a method changed before it failed stays changed,
-- so the state comes back beside an error too.
use pfs.Prelude.{
  if◌then◌else◌, ◌≡◌, refl, Bool, true, false, List, [], ◌∷◌, ◌++◌, Option, none, some,
}
use pfs.Error.{Yields, Error, Result, ok, err, panic}

abbrev pub Exec {ℓ} : Type ℓ → Type ℓ → Type ℓ
Exec S A = S → Result A × S

module _ {ℓ} {S A : Type ℓ} where
  abbrev pub pure : A → Exec S A
  pure a s = (ok a, s)

  abbrev pub raise : Error → Exec S A
  raise e s = (err e, s)

  abbrev pub lift : Result A → Exec S A
  lift r s = (r, s)

  abbrev pub gets : (S → A) → Exec S A
  gets f s = (ok (f s), s)

module _ {ℓ} {S A B : Type ℓ} where
  abbrev pub continue : Result A → (A → Exec S B) → Exec S B
  continue (ok a) f s = f a s
  continue (err e) f s = (err e, s)
  continue panic f s = (panic, s)

  infixl 5 ◌>>=◌ ◌>>◌
  abbrev pub ◌>>=◌ : Exec S A → (A → Exec S B) → Exec S B
  ◌>>=◌ m f s = let (r, s') = m s in continue r f s'

  abbrev pub ◌>>◌ : Exec S A → Exec S B → Exec S B
  m >> n = m >>= λ _. n

abbrev pub modify : {S : Type 0} → (S → S) → Exec S (Unit {0})
modify f s = (ok tt, f s)

-- `let _ = m;`: the error is dropped, a panic is not.
abbrev pub ignored : Result (Unit {0}) → Result (Unit {0})
ignored (ok u) = ok tt
ignored (err e) = ok tt
ignored panic = panic

abbrev pub ignore : {S : Type 0} → Exec S (Unit {0}) → Exec S (Unit {0})
ignore m s = let (r, s') = m s in (ignored r, s')

-- A method of a part of the state.
abbrev pub zoom : {S T A : Type 0} → (S → T) → (S → T → S) → Exec T A → Exec S A
zoom get put m s = let (r, t) = m (get s) in (r, put s t)

-- `for x in xs { body(x)?; }`
unfoldable pub for_each : {S A : Type 0} → List A → (A → Exec S (Unit {0})) → Exec S (Unit {0})
for_each [] body = pure tt
for_each (x ∷ xs) body = do body x; for_each xs body

-- `for x in xs { out.extend(body(x)?); }`, with `out` given back.
unfoldable pub concat_each : {S A B : Type 0} → List A → (A → Exec S (List B)) → Exec S (List B)
concat_each [] body = pure []
concat_each (x ∷ xs) body = do ys ← body x; rest ← concat_each xs body; pure (ys ++ rest)

-- `if let Ok(x) = m`: an error is dropped, and what the method changed stays.
abbrev pub succeeded : {A : Type 0} → Result A → Result (Option A)
succeeded (ok a) = ok (some a)
succeeded (err e) = ok none
succeeded panic = panic

abbrev pub attempt : {S A : Type 0} → Exec S A → Exec S (Option A)
attempt m s = let (r, s') = m s in (succeeded r, s')

-- `P` holds of the value and the state when the method returns a value.
abbrev pub Ensures : {S A : Type 0} → (A → S → Type 0) → Result A × S → Type 0
Ensures P (ok a, s) = P a s
Ensures P (err e, s) = Unit
Ensures P (panic, s) = Unit

pub Ensures-continue :
    {S A B : Type 0} (P : B → S → Type 0) (r : Result A) (f : A → Exec S B) (s : S)
    → ((a : A) → r ≡ ok a → Ensures P (f a s))
    → Ensures P (continue r f s)
Ensures-continue P (ok a) f s k = k a refl
Ensures-continue P (err e) f s k = tt
Ensures-continue P panic f s k = tt

pub Ensures-bind :
    {S A B : Type 0} (P : A → S → Type 0) (Q : B → S → Type 0) (m : Exec S A) (f : A → Exec S B)
    (s : S)
    → Ensures P (m s)
    → ((a : A) (s' : S) → P a s' → Ensures Q (f a s'))
    → Ensures Q ((m >>= f) s)
Ensures-bind {S} {A} {B} P Q m f s h k = go (m s) h
  where
    go : (p : Result A × S) → Ensures P p → Ensures Q (continue (p.0) f (p.1))
    go (ok a, s') h = k a s' h
    go (err e, s') h = tt
    go (panic, s') h = tt

pub Ensures-any : {S A : Type 0} (p : Result A × S) → Ensures (λ _ _. Unit {0}) p
Ensures-any (ok a, s) = tt
Ensures-any (err e, s) = tt
Ensures-any (panic, s) = tt

pub Ensures-if :
    {S A : Type 0} (P : A → S → Type 0) (b : Bool) (m n : Exec S A) (s : S)
    → (b ≡ true → Ensures P (m s))
    → (b ≡ false → Ensures P (n s))
    → Ensures P ((if b then m else n) s)
Ensures-if P true m n s h k = h refl
Ensures-if P false m n s h k = k refl

pub Ensures-lift :
    {S A : Type 0} (P : A → Type 0) (r : Result A) (s : S)
    → Yields P r
    → Ensures (λ a _. P a) (lift r s)
Ensures-lift P (ok a) s h = h
Ensures-lift P (err e) s h = tt
Ensures-lift P panic s h = tt
