-- ===== src/Error.antt =====
-- crates/libpfs3/src/error.rs: the error type and `Result`. A third outcome, `panic`, stands for
-- a Rust panic: an index or a slice out of range, a failed assertion of the standard library, or
-- an arithmetic fault that panics in every build.
use pfs.Prelude.{ℕ, List, String, Bool, true, false, ◌≡◌, refl, Option, none, some}
use Prim.Native.Char.{code}
use pfs.Prelude.{[], ◌∷◌, if◌then◌else◌}

-- A Rust string as its code points.
abbrev pub Str : Type 0
Str = List ℕ

-- The code points of a literal.
abbrev pub chars : String → Str
chars String.[] = []
chars (String.◌∷◌ c s) = code c ∷ chars s

-- The messages of the formatted errors are kept without the numbers that `format!` puts in.
pub data Error : Type 0 where
  io : Error
  too_short : String → Error
  bad_magic : String → ℕ → Error
  bad_block_id : String → ℕ → ℕ → Error
  block_out_of_range : ℕ → Error
  anode_not_found : ℕ → Error
  not_found : Str → Error
  already_exists : Str → Error
  disk_full : String → Error
  corrupt : String → Error
  not_a_directory : Error
  not_empty : Error
  invalid_partition : String → Error
  read_only : Error

pub data Result {ℓ} (A : Type ℓ) : Type ℓ where
  ok : A → Result A
  err : Error → Result A
  panic : Result A

-- The `?` operator.
infixl 5 ◌>>=◌ ◌>>◌
abbrev pub ◌>>=◌ {ℓ κ} : {X : Type ℓ} {Y : Type κ} → Result X → (X → Result Y) → Result Y
panic >>= next = panic
err e >>= next = err e
ok x >>= next = next x

abbrev pub ◌>>◌ {ℓ} : {Y : Type ℓ} → Result (Unit {0}) → Result Y → Result Y
first >> second = first >>= λ _. second

-- `return Err(e)` unless the test holds.
abbrev pub ensure : Bool → Error → Result (Unit {0})
ensure true e = ok tt
ensure false e = err e

-- `o.ok_or(e)`
abbrev pub ok_or {ℓ} : {A : Type ℓ} → Option A → Error → Result A
ok_or none e = err e
ok_or (some a) e = ok a

-- A chain with a successful head goes on with its value.
pub follow {ℓ κ} :
    {A : Type ℓ} {B : Type κ} (m : Result A) (f : A → Result B) {a : A} {r : Result B}
    → m ≡ ok a
    → f a ≡ r
    → (m >>= f) ≡ r
follow m f e h = rw e h

-- The outcome is a value of which `P` holds: neither an error nor a panic.
pub data Returns {ℓ κ} {A : Type ℓ} (P : A → Type κ) : Result A → Type (ℓ ⊔ κ) where
  returns : (a : A) → P a → Returns P (ok a)

module _ {ℓ κ} {A : Type ℓ} {P : A → Type κ} where
  pub Returns-inv : {r : Result A} → Returns P r → (a : A) × (r ≡ ok a) × P a
  Returns-inv (returns a p) = (a, refl, p)

  pub Returns-if :
      (b : Bool) {m n : Result A}
      → (b ≡ true → Returns P m)
      → (b ≡ false → Returns P n)
      → Returns P (if b then m else n)
  Returns-if true h k = h refl
  Returns-if false h k = k refl

pub Returns-step {ℓ κ} :
    {A B : Type ℓ} {P : B → Type κ} {m : Result A} (f : A → Result B) {a : A}
    → m ≡ ok a
    → Returns P (f a)
    → Returns P (m >>= f)
Returns-step f e h = rw e h

pub Returns-map {ℓ κ μ} :
    {A : Type ℓ} {P : A → Type κ} {Q : A → Type μ} {r : Result A}
    → Returns P r
    → ((a : A) → P a → Q a)
    → Returns Q r
Returns-map (returns a p) k = returns a (k a p)

module _ {ℓ κ μ} {A B : Type ℓ} {P : A → Type κ} {Q : B → Type μ} where
  pub Returns-bind :
      {m : Result A} {f : A → Result B}
      → Returns P m
      → ((a : A) → P a → Returns Q (f a))
      → Returns Q (m >>= f)
  Returns-bind (returns a p) k = k a p

-- `r.unwrap_or(d)`, where a panic is one.
abbrev pub unwrap_or {ℓ} : {A : Type ℓ} → A → Result A → Result A
unwrap_or d (ok a) = ok a
unwrap_or d (err e) = ok d
unwrap_or d panic = panic

abbrev pub Any {ℓ} : {A : Type ℓ} → A → Type 0
Any a = Unit

-- `P` holds of the value when there is one.
abbrev pub Yields {ℓ} : {A : Type ℓ} → (A → Type 0) → Result A → Type 0
Yields P (ok a) = P a
Yields P (err e) = Unit
Yields P panic = Unit

module _ {ℓ κ} {A : Type ℓ} {B : Type κ} where
  pub Yields-bind :
      (P : B → Type 0) (m : Result A) (f : A → Result B)
      → ((a : A) → Yields P (f a))
      → Yields P (m >>= f)
  Yields-bind P (ok a) f h = h a
  Yields-bind P (err e) f h = tt
  Yields-bind P panic f h = tt

pub Yields-if {ℓ} :
    {A : Type ℓ} (P : A → Type 0) (b : Bool) (m n : Result A)
    → Yields P m
    → Yields P n
    → Yields P (if b then m else n)
Yields-if P true m n h k = h
Yields-if P false m n h k = k
