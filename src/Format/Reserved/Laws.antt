-- ===== src/Format/Reserved/Laws.antt =====
-- About `ReservedAllocator::alloc` of crates/libpfs3/src/format.rs.
use pfs.Prelude.{
  ℕ, zero, suc, ◌+◌, ◌-◌, ◌%◌, ◌≤◌, ◌<◌, List, [], ◌∷◌, Bool, true, false, if◌then◌else◌, ◌≡◌, ◌∙◌,
  ◌==◌, refl, inl, inr, length, Option, none, some, get_or, set, arith, length-set, Bool-cases,
}
use native.Mathlib.Decide.{dec_lt, dec_le}
use native.Mathlib.Nat.{mod-eq_of_lt, mod-lt, le_of_lt}
use pfs.Error.{Result, ok, err, panic}
use pfs.Format.Reserved.{ReservedAllocator, alloc_loop, alloc, taken, count_free, free_count}

-- The allocator's indices stay inside its bitmap.
pub record IsValid (a : ReservedAllocator) : Type 0 where
  pub sized : length a.bitmap ≡ a.numreserved
  pub nonempty : 0 < a.numreserved
  pub roved : a.roving ≤ a.numreserved

abbrev pub IsFree : ReservedAllocator → ℕ → Type 0
IsFree a idx = get_or a.bitmap idx false ≡ true

alloc_loop-IsFree :
    (a : ReservedAllocator) (i n : ℕ) {idx : ℕ} → alloc_loop a i n ≡ some idx → IsFree a idx
unfolding alloc_loop
alloc_loop-IsFree a i zero h = cc
alloc_loop-IsFree a i (suc n) {idx} h =
    elim (Bool-cases (get_or a.bitmap ((a.roving + i) % a.numreserved) false)) [
      | inl e ↦ ground (arith, e, rw e at h)
      | inr e ↦ alloc_loop-IsFree a (i + 1) n (rw e at h)
    ]

alloc_loop-none :
    (a : ReservedAllocator) (i n j : ℕ)
    → alloc_loop a i n ≡ none
    → i ≤ j
    → j < i + n
    → get_or a.bitmap ((a.roving + j) % a.numreserved) false ≡ false
unfolding alloc_loop
alloc_loop-none a i zero j h lo hi = absurd (omega arith)
alloc_loop-none a i (suc n) j h lo hi =
    elim (Bool-cases (get_or a.bitmap ((a.roving + i) % a.numreserved) false)) [
      | inl e ↦ cc (rw e at h)
      | inr e ↦ elim (dec_lt i j) [
        | yes lt ↦ alloc_loop-none a (i + 1) n j (rw e at h) (omega arith) (omega arith)
        | no ge ↦ let same : i ≡ j = omega arith in rw same at e
      ]
    ]

wrap : (idx n : ℕ) → idx < n → (idx + n) % n ≡ idx
wrap idx n lt = grind arith

-- Going round from `roving` meets every index.
round_trip : (r n idx : ℕ) → idx < n → r ≤ n → (j : ℕ) × (j < n) × ((r + j) % n ≡ idx)
round_trip r n idx lt le = elim (dec_le r idx) [
  | yes before ↦
      let e : r + (idx - r) ≡ idx = omega arith in (idx - r, omega arith, rw e (mod-eq_of_lt lt))
  | no behind ↦
      let e : r + (idx + n - r) ≡ idx + n = omega arith in
      (idx + n - r, omega arith, rw e (wrap idx n lt))
]

get_or_out : (l : List Bool) (i : ℕ) → length l ≤ i → get_or l i false ≡ false
get_or_out [] i h = refl
get_or_out (b ∷ l) zero h = elim h [ ]
get_or_out (b ∷ l) (suc i) h = get_or_out l i (omega arith)

free_in_range : (l : List Bool) (i : ℕ) → get_or l i false ≡ true → i < length l
free_in_range l i h = elim (dec_lt i (length l)) [
  | yes lt ↦ lt
  | no ge ↦ cc (get_or_out l i (omega arith))
]

count_free-zero :
    (l : List Bool) → ((i : ℕ) → i < length l → get_or l i false ≡ false) → count_free l ≡ 0
unfolding count_free
count_free-zero [] h = refl
count_free-zero (b ∷ l) h =
    ground (arith, h 0 (omega arith), count_free-zero l (λ i lt. h (suc i) (omega arith)))

count_free-set :
    (l : List Bool) (i : ℕ)
    → get_or l i false ≡ true
    → count_free l ≡ count_free (set l i false) + 1
unfolding count_free
count_free-set [] i h = cc
count_free-set (b ∷ l) zero h = ground arith
count_free-set (b ∷ l) (suc i) h = omega (arith, count_free-set l i h)

get_or-set :
    (l : List Bool) (i j : ℕ)
    → get_or (set l i false) j false ≡ (if i == j then false else get_or l j false)
get_or-set [] i j = ground arith
get_or-set (b ∷ l) zero zero = refl
get_or-set (b ∷ l) zero (suc j) = ground arith
get_or-set (b ∷ l) (suc i) zero = ground arith
get_or-set (b ∷ l) (suc i) (suc j) = ground (arith, get_or-set l i j)

-- What `alloc` leaves and gives: a block that was free, now used, and nothing else changed; or an
-- error with nothing changed, when no block is free.
abbrev pub Allocates : ReservedAllocator → Result ℕ × ReservedAllocator → Type 0
Allocates a (ok idx, a') =
    IsFree a idx
    × (idx < a.numreserved)
    × ((j : ℕ) → get_or a'.bitmap j false ≡ (if idx == j then false else get_or a.bitmap j false))
    × (free_count a ≡ free_count a' + 1)
    × IsValid a'
Allocates a (err e, a') = (free_count a ≡ 0) × (a' ≡ a)
Allocates a (panic, a') = ⊥

Allocates-some :
    (a : ReservedAllocator) (idx : ℕ)
    → IsValid a
    → IsFree a idx
    → Allocates a
        (ok idx, record a { bitmap = set a.bitmap idx false; roving = (idx + 1) % a.numreserved })
Allocates-some a idx v free = (
  free,
  omega (arith, free_in_range a.bitmap idx free, v.sized),
  get_or-set a.bitmap idx,
  unfold free_count in count_free-set a.bitmap idx free,
  record {
    sized = length-set a.bitmap idx false ∙ v.sized;
    nonempty = v.nonempty;
    roved = le_of_lt (mod-lt (idx + 1) v.nonempty);
  },
)

Allocates-none :
    (a : ReservedAllocator) → IsValid a → alloc_loop a 0 a.numreserved ≡ none → free_count a ≡ 0
unfolding free_count
Allocates-none a v h = count_free-zero a.bitmap λ i lt.
    let (j, below, e) = round_trip a.roving a.numreserved i (omega (arith, v.sized)) v.roved in
    rw e at (alloc_loop-none a 0 a.numreserved j h (omega arith) (omega arith))

-- From a valid state `alloc` takes a free block, marks just that one as used, and lowers the free
-- count by one; it fails only when no block is free, and then changes nothing.
pub alloc-Allocates : (a : ReservedAllocator) → IsValid a → Allocates a (alloc a)
unfolding alloc
alloc-Allocates a v = go (alloc_loop a 0 a.numreserved) refl
  where
    go : (o : Option ℕ) → alloc_loop a 0 a.numreserved ≡ o → Allocates a (taken a o)
    go none e = (Allocates-none a v e, refl)
    go (some idx) e = Allocates-some a idx v (alloc_loop-IsFree a 0 a.numreserved e)
