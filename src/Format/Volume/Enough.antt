-- ===== src/Format/Volume/Enough.antt =====
-- About a format for which there are reserved blocks enough.
use pfs.Prelude.{ℕ, zero, suc, ◌+◌, ◌≤◌, ◌≡◌, arith}
use pfs.Error.{Result, ok, err, panic}
use pfs.Exec.{Exec, ◌>>=◌, continue}
use pfs.Format.Reserved.{ReservedAllocator, alloc, free_count}
use pfs.Format.Reserved.Laws.{IsValid, Allocates, alloc-Allocates}
use pfs.Format.Geometry.{Geometry, no_bmb, no_bmi}
use pfs.Format.Volume.{take_block, take_blocks, take_layout}

-- The method returns a value, and has used up `n` of the blocks that were free.
abbrev pub Uses : {A : Type 0} → ℕ → ReservedAllocator → Result A × ReservedAllocator → Type 0
Uses n a (ok x, b) = IsValid b × (free_count a ≡ free_count b + n)
Uses n a (err e, b) = ⊥
Uses n a (panic, b) = ⊥

Uses-bind :
    {A B : Type 0} (n m k : ℕ) (a : ReservedAllocator) (p : Exec ReservedAllocator A)
    (f : A → Exec ReservedAllocator B)
    → n + m ≡ k
    → Uses n a (p a)
    → ((x : A) (b : ReservedAllocator)
        → IsValid b
        → free_count a ≡ free_count b + n
        → Uses m b (f x b))
    → Uses k a ((p >>= f) a)
Uses-bind {A} {B} n m k a p f e h next = go (p a) h
  where
    total :
        (x : A) (b : ReservedAllocator) (q : Result B × ReservedAllocator)
        → free_count a ≡ free_count b + n
        → Uses m b q
        → Uses k a q
    total x b (ok y, c) c1 u = (u.0, omega (arith, c1, u.1, e))
    total x b (err er, c) c1 u = absurd u
    total x b (panic, c) c1 u = absurd u

    go : (q : Result A × ReservedAllocator) → Uses n a q → Uses k a (continue (q.0) f (q.1))
    go (ok x, b) u = total x b (f x b) (u.1) (next x b (u.0) (u.1))
    go (err er, b) u = absurd u
    go (panic, b) u = absurd u

alloc-Uses : (a : ReservedAllocator) → IsValid a → 1 ≤ free_count a → Uses 1 a (alloc a)
alloc-Uses a v h = go (alloc a) (alloc-Allocates a v)
  where
    go : (p : Result ℕ × ReservedAllocator) → Allocates a p → Uses 1 a p
    go (ok idx, b) s = (s.4, s.3)
    go (err e, b) s = omega (arith, s.0, h)
    go (panic, b) s = s

module _ (g : Geometry) where
  take_block-Uses :
      (a : ReservedAllocator) → IsValid a → 1 ≤ free_count a → Uses 1 a (take_block g a)
  unfolding take_block
  take_block-Uses a v h =
      Uses-bind 1 0 1 a alloc _ (omega arith) (alloc-Uses a v h) (λ x b w c. (w, omega arith))

  take_blocks-Uses :
      (n : ℕ) (a : ReservedAllocator) → IsValid a → n ≤ free_count a → Uses n a (take_blocks g n a)
  unfolding take_blocks
  take_blocks-Uses zero a v h = (v, omega arith)
  take_blocks-Uses (suc n) a v h =
      Uses-bind 1 n (suc n) a (take_block g) _ (omega arith) (take_block-Uses a v (omega arith))
        (λ x b w c.
          Uses-bind n 0 n b (take_blocks g n) _ (omega arith) (take_blocks-Uses n b w (omega arith))
            (λ xs d w' c'. (w', omega arith)))

  -- With one free reserved block for each bitmap block and each bitmap index block and four more, all
  -- the allocations of a format succeed and use up exactly these. The allocator is in a valid state.
  pub take_layout-Uses :
      (db : ℕ) (a : ReservedAllocator)
      → IsValid a
      → no_bmb g db + no_bmi g db + 4 ≤ free_count a
      → Uses (no_bmb g db + no_bmi g db + 4) a ((take_block g >>= take_layout g db) a)
  unfolding take_layout
  take_layout-Uses db a v h =
      let n = no_bmb g db in
      let m = no_bmi g db in
      Uses-bind 1 (n + m + 3) (n + m + 4) a (take_block g) (take_layout g db) (omega arith)
        (take_block-Uses a v (omega arith))
        (λ r b1 v1 c1.
          Uses-bind n (m + 3) (n + m + 3) b1 (take_blocks g n) _ (omega arith)
            (take_blocks-Uses n b1 v1 (omega arith))
            (λ bs b2 v2 c2.
              Uses-bind m 3 (m + 3) b2 (take_blocks g m) _ (omega arith)
                (take_blocks-Uses m b2 v2 (omega arith))
                (λ is b3 v3 c3.
                  Uses-bind 1 2 3 b3 (take_block g) _ (omega arith)
                    (take_block-Uses b3 v3 (omega arith))
                    (λ i b4 v4 c4.
                      Uses-bind 1 1 2 b4 (take_block g) _ (omega arith)
                        (take_block-Uses b4 v4 (omega arith))
                        (λ an b5 v5 c5.
                          Uses-bind 1 0 1 b5 (take_block g) _ (omega arith)
                            (take_block-Uses b5 v5 (omega arith))
                            (λ d b6 v6 c6. (v6, omega arith)))))))
