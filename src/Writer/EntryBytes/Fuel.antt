-- ===== src/Writer/EntryBytes/Fuel.antt =====
-- About the loops over the entries of a directory block in crates/libpfs3/src/writer.rs: how they run and
-- that they end.
use pfs.Prelude.{
  ℕ, zero, suc, ◌+◌, ◌≤◌, ◌<◌, List, Bool, true, false, ltb, ◌==◌, ◌≡◌, refl, arith, Option, none,
  some, length, Bool-cases, inl, inr, if◌then◌else◌, ◌⊎◌, sym, ==_iff, leb, ◌&&◌, get_elem?, ◌-◌,
  read_at,
}
use mathlib.Core.Path.{subst}
use pfs.Error.{Str, Error, Result, ok, err, panic, ◌>>=◌}
use pfs.Bytes.{index, slice}
use pfs.Util.Names.{latin1_to_string, name_eq_ci}
use pfs.Ondisk.Constants.{dir_block_header_size}
use pfs.Writer.EntryBytes.{find_entry_loop, find_in_block, end_loop, entries_end}

-- The name of the entry at `pos`, whose length stands in byte 17.
abbrev pub name_at : List ℕ → ℕ → Result Str
name_at bytes pos = do
  nlen ← index bytes (pos + 17)
  ename ← slice bytes (pos + 18) (pos + 18 + nlen)
  ok (latin1_to_string ename)

-- The finite runs over the entries of a block from a position on, and what they give: a run ends at the
-- end of the block, at a size of zero, at an entry that has the name, or in a read out of range, and
-- otherwise goes on behind the entry. Without a name it looks for the end of the entries.
pub data Finds (bytes : List ℕ) (resblocksize : ℕ) (name : Str)
    : ℕ → Result (Option ℕ) → Type 0 where
  past : {pos : ℕ} → resblocksize ≤ pos → Finds bytes resblocksize name pos (ok none)
  at_zero :
      {pos : ℕ}
      → pos < resblocksize
      → index bytes pos ≡ ok 0
      → Finds bytes resblocksize name pos (ok none)
  here :
      {pos esize : ℕ} {ename : Str}
      → pos < resblocksize
      → index bytes pos ≡ ok esize
      → (esize == 0) ≡ false
      → name_at bytes pos ≡ ok ename
      → name_eq_ci ename name ≡ true
      → Finds bytes resblocksize name pos (ok (some pos))
  next :
      {pos esize : ℕ} {ename : Str} {r : Result (Option ℕ)}
      → pos < resblocksize
      → index bytes pos ≡ ok esize
      → (esize == 0) ≡ false
      → name_at bytes pos ≡ ok ename
      → name_eq_ci ename name ≡ false
      → Finds bytes resblocksize name (pos + esize) r
      → Finds bytes resblocksize name pos r
  no_size :
      {pos : ℕ}
      → pos < resblocksize
      → index bytes pos ≡ panic
      → Finds bytes resblocksize name pos panic
  no_name :
      {pos esize : ℕ}
      → pos < resblocksize
      → index bytes pos ≡ ok esize
      → (esize == 0) ≡ false
      → name_at bytes pos ≡ panic
      → Finds bytes resblocksize name pos panic

pub data Ends (bytes : List ℕ) (resblocksize : ℕ) : ℕ → Result ℕ → Type 0 where
  past : {pos : ℕ} → resblocksize ≤ pos → Ends bytes resblocksize pos (ok pos)
  at_zero :
      {pos : ℕ} → pos < resblocksize → index bytes pos ≡ ok 0 → Ends bytes resblocksize pos (ok pos)
  next :
      {pos esize : ℕ} {r : Result ℕ}
      → pos < resblocksize
      → index bytes pos ≡ ok esize
      → (esize == 0) ≡ false
      → Ends bytes resblocksize (pos + esize) r
      → Ends bytes resblocksize pos r
  no_size :
      {pos : ℕ} → pos < resblocksize → index bytes pos ≡ panic → Ends bytes resblocksize pos panic

-- A read gives a value or panics.
abbrev OkOrPanic : {A : Type 0} → Result A → Type 0
OkOrPanic {A} m = ((a : A) × (m ≡ ok a)) ⊎ (m ≡ panic)

index-OkOrPanic : (bytes : List ℕ) (i : ℕ) → OkOrPanic (index bytes i)
index-OkOrPanic bytes i = go (get_elem? bytes i)
  where
    go : (o : Option ℕ) → OkOrPanic (elim o [ none ↦ panic | some b ↦ ok b ])
    go none = inr refl
    go (some b) = inl (b, refl)

slice-OkOrPanic : (bytes : List ℕ) (lo hi : ℕ) → OkOrPanic (slice bytes lo hi)
slice-OkOrPanic bytes lo hi = go (leb lo hi && leb hi (length bytes)) (read_at bytes lo (hi - lo))
  where
    go : (b : Bool) (x : List ℕ) → OkOrPanic (if b then ok x else panic)
    go true x = inl (x, refl)
    go false x = inr refl

bind-OkOrPanic :
    {A B : Type 0} (m : Result A) (f : A → Result B)
    → OkOrPanic m
    → ((a : A) → OkOrPanic (f a))
    → OkOrPanic (m >>= f)
bind-OkOrPanic m f (inl (a, e)) h = rw e (h a)
bind-OkOrPanic m f (inr e) h = inr (rw e refl)

name_at-OkOrPanic : (bytes : List ℕ) (pos : ℕ) → OkOrPanic (name_at bytes pos)
name_at-OkOrPanic bytes pos =
    bind-OkOrPanic (index bytes (pos + 17)) _ (index-OkOrPanic bytes (pos + 17)) (λ nlen.
      bind-OkOrPanic (slice bytes (pos + 18) (pos + 18 + nlen)) _
        (slice-OkOrPanic bytes (pos + 18) (pos + 18 + nlen)) (λ ename. inl (_, refl)))

-- What is done with a name is done with the result of the two reads.
bind_assoc :
    {A B C E : Type 0} (m : Result A) (f : A → Result B) (g : B → C) (k : C → Result E)
    → (m >>= (λ a. f a >>= (λ b. k (g b)))) ≡ ((m >>= (λ a. f a >>= (λ b. ok (g b)))) >>= k)
bind_assoc (err e) f g k = refl
bind_assoc panic f g k = refl
bind_assoc {B = B} (ok a) f g k = go (f a)
  where
    go : (r : Result B) → (r >>= (λ b. k (g b))) ≡ ((r >>= (λ b. ok (g b))) >>= k)
    go (ok b) = refl
    go (err e) = refl
    go panic = refl

fails : {A : Type 0} {e : Error} → OkOrPanic {A = A} (err e) → ⊥
fails (inl (a, h)) = cc
fails (inr h) = cc

module _ (bytes : List ℕ) (resblocksize pos : ℕ) (inside : pos < resblocksize) where
  nonzero-Ends :
      (rest : ℕ → Result ℕ) (esize : ℕ) (b : Bool)
      → index bytes pos ≡ ok esize
      → (esize == 0) ≡ b
      → (b ≡ false → Ends bytes resblocksize (pos + esize) (rest (pos + esize)))
      → Ends bytes resblocksize pos (if b then ok pos else rest (pos + esize))
  nonzero-Ends rest esize true e z k = at_zero inside (rw ((==_iff esize 0).0 z) at e)
  nonzero-Ends rest esize false e z k = next inside e z (k refl)

  size-Ends :
      (rest : ℕ → Result ℕ) (o : Result ℕ)
      → index bytes pos ≡ o
      → OkOrPanic o
      → ((esize : ℕ)
          → (esize == 0) ≡ false
          → Ends bytes resblocksize (pos + esize) (rest (pos + esize)))
      → Ends bytes resblocksize pos
          (o >>= (λ esize. if esize == 0 then ok pos else rest (pos + esize)))
  size-Ends rest (ok esize) e c k = nonzero-Ends rest esize (esize == 0) e refl (λ z. k esize z)
  size-Ends rest panic e c k = no_size inside e
  size-Ends rest (err x) e c k = absurd (fails c)

  name-Finds :
      (name : Str) (rest : Result (Option ℕ)) (esize : ℕ) (o : Result Str)
      → index bytes pos ≡ ok esize
      → (esize == 0) ≡ false
      → name_at bytes pos ≡ o
      → OkOrPanic o
      → Finds bytes resblocksize name (pos + esize) rest
      → Finds bytes resblocksize name pos
          (o >>= (λ s. if name_eq_ci s name then ok (some pos) else rest))
  name-Finds name rest esize (ok s) e z n c k = elim (Bool-cases (name_eq_ci s name)) [
    | inl same ↦ rw same (here inside e z n same)
    | inr other ↦ rw other (next inside e z n other k)
  ]
  name-Finds name rest esize panic e z n c k = no_name inside e z n
  name-Finds name rest esize (err x) e z n c k = absurd (fails c)

  nonzero-Finds :
      (name : Str) (found : Result (Option ℕ)) (esize : ℕ) (b : Bool)
      → index bytes pos ≡ ok esize
      → (esize == 0) ≡ b
      → (b ≡ false → Finds bytes resblocksize name pos found)
      → Finds bytes resblocksize name pos (if b then ok none else found)
  nonzero-Finds name found esize true e z k = at_zero inside (rw ((==_iff esize 0).0 z) at e)
  nonzero-Finds name found esize false e z k = k refl

  size-Finds :
      (name : Str) (found : ℕ → Result (Option ℕ)) (o : Result ℕ)
      → index bytes pos ≡ o
      → OkOrPanic o
      → ((esize : ℕ)
          → index bytes pos ≡ ok esize
          → (esize == 0) ≡ false
          → Finds bytes resblocksize name pos (found esize))
      → Finds bytes resblocksize name pos
          (o >>= (λ esize. if esize == 0 then ok none else found esize))
  size-Finds name found (ok esize) e c k =
      nonzero-Finds name (found esize) esize (esize == 0) e refl (λ z. k esize e z)
  size-Finds name found panic e c k = no_size inside e
  size-Finds name found (err x) e c k = absurd (fails c)

module _ (bytes : List ℕ) (resblocksize : ℕ) where
  end_loop-Ends :
      (fuel pos : ℕ)
      → resblocksize ≤ pos + fuel
      → Ends bytes resblocksize pos (end_loop (suc fuel) bytes resblocksize pos)
  unfolding end_loop
  end_loop-Ends zero pos h =
      let out : ltb pos resblocksize ≡ false = ground arith in rw out (past (omega arith))
  end_loop-Ends (suc fuel) pos h = elim (Bool-cases (ltb pos resblocksize)) [
    | inr outside ↦ rw outside (past (ground arith))
    | inl inside ↦ rw inside (
        size-Ends bytes resblocksize pos (ground arith) (end_loop (suc fuel) bytes resblocksize)
          (index bytes pos) refl (index-OkOrPanic bytes pos)
          (λ esize nonzero. end_loop-Ends fuel (pos + esize) (ground arith)))
  ]

  find_entry_loop-Finds :
      (name : Str) (fuel pos : ℕ)
      → resblocksize ≤ pos + fuel
      → Finds bytes resblocksize name pos (find_entry_loop (suc fuel) bytes resblocksize name pos)
  unfolding find_entry_loop
  find_entry_loop-Finds name zero pos h =
      let out : ltb pos resblocksize ≡ false = ground arith in rw out (past (omega arith))
  find_entry_loop-Finds name (suc fuel) pos h = elim (Bool-cases (ltb pos resblocksize)) [
    | inr outside ↦ rw outside (past (ground arith))
    | inl inside ↦ rw inside (
        size-Finds bytes resblocksize pos (ground arith) name _ (index bytes pos) refl
          (index-OkOrPanic bytes pos)
          (λ esize e nonzero.
            subst (Finds bytes resblocksize name pos)
              (sym (bind_assoc (index bytes (pos + 17)) _ latin1_to_string _))
              (name-Finds bytes resblocksize pos (ground arith) name
                (find_entry_loop (suc fuel) bytes resblocksize name (pos + esize)) esize
                (name_at bytes pos) e nonzero refl (name_at-OkOrPanic bytes pos)
                (find_entry_loop-Finds name fuel (pos + esize) (ground arith)))))
  ]

-- On any bytes the search for a name in a directory block and the search for the end of its entries
-- end within their fuel: each gives what a finite run over the entries gives that starts behind the
-- header, passes an entry of another name by its size, and ends at the end of the block, at a size of
-- zero, at the name or in a read out of range.
pub entry_loops-end :
    (bytes : List ℕ) (resblocksize : ℕ) (name : Str)
    → Finds bytes resblocksize name dir_block_header_size (find_in_block bytes resblocksize name)
      × Ends bytes resblocksize dir_block_header_size (entries_end bytes resblocksize)
unfolding find_in_block entries_end
entry_loops-end bytes resblocksize name = (
  find_entry_loop-Finds bytes resblocksize name resblocksize dir_block_header_size (omega arith),
  end_loop-Ends bytes resblocksize resblocksize dir_block_header_size (omega arith),
)
