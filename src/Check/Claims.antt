-- ===== src/Check/Claims.antt =====
-- About the blocks that entries claim.
use pfs.Prelude.{
  ℕ, ◌+◌, ◌≤◌, ◌<◌, ◌^◌, List, [], ◌∷◌, ◌≡◌, ◌≢◌, ◌↔◌, refl, sym, ap, ◌∙◌, Bool, false, ◌||◌, ◌==◌,
  Option, none, some, Option-cases, inl, inr, length, contains, add32, arith,
}
use mathlib.Core.Path.{subst}
use pfs.Error.{Str}
use pfs.Fuse.Maps.{ino_key, get, insert, get-insert_self, get-insert_ne}
use pfs.Check.Context.{CheckCtx, claim, count_claim, record_blocks}

-- No block comes twice.
abbrev pub AllOnce : List ℕ → Type 0
AllOnce [] = Unit
AllOnce (b ∷ blocks) = (contains blocks b ≡ false) × AllOnce blocks

-- No block has an owner yet.
abbrev pub AllUnowned : List (ℕ × Str) → List ℕ → Type 0
AllUnowned used [] = Unit
AllUnowned used (b ∷ blocks) = (get b used ≡ none) × AllUnowned used blocks

count_claim-errors :
    (o : Option Str) (c : CheckCtx)
    → c.errors + 1 < 2 ^ 32
    → (c.errors ≤ (count_claim o c).errors) × ((count_claim o c).errors ≤ c.errors + 1)
count_claim-errors none c h = (omega arith, omega arith)
count_claim-errors (some x) c h = (omega (arith, h), omega (arith, h))

claim-errors :
    (owner : Str) (b : ℕ) (c : CheckCtx)
    → c.errors + 1 < 2 ^ 32
    → (c.errors ≤ (claim owner b c).errors) × ((claim owner b c).errors ≤ c.errors + 1)
unfolding claim
claim-errors owner b c h =
    count_claim-errors (get b c.used_blocks)
      (record c { used_blocks = insert b owner c.used_blocks }) h

record_blocks-errors :
    (owner : Str) (blocks : List ℕ) (c : CheckCtx)
    → c.errors + length blocks < 2 ^ 32
    → c.errors ≤ (record_blocks owner blocks c).errors
unfolding record_blocks
record_blocks-errors owner [] c h = omega arith
record_blocks-errors owner (b ∷ blocks) c h =
    let one = claim-errors owner b c (omega (arith, h)) in
    let more = record_blocks-errors owner blocks (claim owner b c) (omega (arith, h, one)) in
    omega (arith, one, more)

some_ne_none : {A : Type 0} {o : Option A} {a : A} → o ≡ some a → o ≡ none → ⊥
some_ne_none h k = cc

-- A new owner of a block that none of the others is.
AllUnowned-insert :
    (used : List (ℕ × Str)) (b : ℕ) (owner : Str) (blocks : List ℕ)
    → contains blocks b ≡ false
    → AllUnowned used blocks
    → AllUnowned (insert b owner used) blocks
unfolding contains
AllUnowned-insert used b owner [] other free = tt
AllUnowned-insert used b owner (x ∷ blocks) other free =
    let ne : b ≢ x = λ e. differ b x (contains blocks b) other e in
    let rest : contains blocks b ≡ false = ground arith in
    (get-insert_ne b x owner used ne ∙ free.0, AllUnowned-insert used b owner blocks rest (free.1))
  where
    differ : (b x : ℕ) (c : Bool) → (b == x || c) ≡ false → b ≢ x
    differ b x c h e = ground arith

AllUnowned-before :
    (used : List (ℕ × Str)) (b : ℕ) (owner : Str) (blocks : List ℕ)
    → AllUnowned (insert b owner used) blocks
    → (contains blocks b ≡ false) × AllUnowned used blocks
unfolding contains
AllUnowned-before used b owner [] free = (refl, tt)
AllUnowned-before used b owner (x ∷ blocks) free =
    let (rest, unowned) = AllUnowned-before used b owner blocks (free.1) in
    let ne : b ≢ x = λ e.
      some_ne_none (get-insert_self b owner used)
        (ap (λ n. get n (insert b owner used)) e ∙ free.0) in
    let other : (b == x) ≡ false = ground (arith, ne) in
    (rw (other, rest) refl, (sym (get-insert_ne b x owner used ne) ∙ free.0, unowned))

claim_eq :
    (owner : Str) (b : ℕ) (c : CheckCtx)
    → get b c.used_blocks ≡ none
    → claim owner b c ≡ record c { used_blocks = insert b owner c.used_blocks }
unfolding claim
claim_eq owner b c free = rw free refl

-- A claim that adds no error is of a block without an owner.
claim-unowned :
    (owner : Str) (b : ℕ) (c : CheckCtx)
    → c.errors + 1 < 2 ^ 32
    → (claim owner b c).errors ≡ c.errors
    → get b c.used_blocks ≡ none
unfolding claim
claim-unowned owner b c small same = elim (Option-cases (get b c.used_blocks)) [
  | inl free ↦ free
  | inr (x, e) ↦ absurd (grown c.errors small (rw e at same))
]
  where
    grown : (n : ℕ) → n + 1 < 2 ^ 32 → add32 n 1 ≡ n → ⊥
    grown n small e = omega (arith, small, e)

-- Recording the blocks of an entry adds no error exactly when no block of it comes twice and none has an
-- owner from before, while the count of errors stays below 2^32.
pub record_blocks-clean_iff :
    (owner : Str) (blocks : List ℕ) (c : CheckCtx)
    → c.errors + length blocks < 2 ^ 32
    → ((record_blocks owner blocks c).errors ≡ c.errors)
      ↔ (AllOnce blocks × AllUnowned c.used_blocks blocks)
unfolding record_blocks
record_blocks-clean_iff owner [] c small = (λ e. (tt, tt), λ h. refl)
record_blocks-clean_iff owner (b ∷ blocks) c small =
    let next = claim owner b c in
    let one = claim-errors owner b c (omega (arith, small)) in
    let small' : next.errors + length blocks < 2 ^ 32 = omega (arith, small, one) in
    let more = record_blocks-errors owner blocks next small' in
    let rest = record_blocks-clean_iff owner blocks next small' in
    (
      λ same.
          let kept : next.errors ≡ c.errors = omega (arith, one, more, same) in
          let free = claim-unowned owner b c (omega (arith, small)) kept in
          let (once, unowned) = rest.0 (same ∙ sym kept) in
          let (other, before) =
            AllUnowned-before c.used_blocks b owner blocks
              (subst (λ d. AllUnowned d.used_blocks blocks) (claim_eq owner b c free) unowned) in
          ((other, once), (free, before)),
      λ ((other, once), (free, before)).
          let eq = claim_eq owner b c free in
          rest.1 (
            once,
            subst (λ d. AllUnowned d.used_blocks blocks) (sym eq)
                (AllUnowned-insert c.used_blocks b owner blocks other before),
          )
          ∙ ap (λ d. d.errors) eq,
    )
