-- ===== src/Writer/Pending/Laws.antt =====
-- About `write_reserved` and `read_reserved_raw` of crates/libpfs3/src/writer.rs.
use pfs.Prelude.{
  ℕ, ◌≤◌, ◌+◌, List, [], ◌∷◌, ◌==◌, if◌then◌else◌, ◌≡◌, ◌≢◌, refl, inl, inr, arith, Bool-cases,
  Option, none, some, max,
}
use pfs.Error.{ok}
use pfs.Io.{BlockDevice}
use pfs.Writer.State.{Writer}
use pfs.Writer.Pending.{
  last_write, put_write, read_unless_pending, read_reserved_raw, write_reserved,
}

abbrev pub Writes : Type 0
Writes = List (ℕ × List ℕ)

abbrev pub writes_to : ℕ → Writes → ℕ
writes_to blk [] = 0
writes_to blk ((b, bytes) ∷ writes) = (if b == blk then 1 else 0) + writes_to blk writes

-- No block has two pending writes.
abbrev pub IsUnique : Writes → Type 0
IsUnique writes = (blk : ℕ) → writes_to blk writes ≤ 1

last_write-none :
    (blk : ℕ) (writes : Writes) → writes_to blk writes ≡ 0 → last_write blk writes ≡ none
unfolding last_write
last_write-none blk [] h = refl
last_write-none blk ((b, bytes) ∷ writes) h = ground (arith, last_write-none blk writes)

last_write-put_self :
    (blk : ℕ) (bytes : List ℕ) (writes : Writes)
    → writes_to blk writes ≤ 1
    → last_write blk (put_write blk bytes writes) ≡ some bytes
unfolding last_write put_write
last_write-put_self blk bytes [] h = ground arith
last_write-put_self blk bytes ((b, old) ∷ writes) h =
    ground (arith, last_write-put_self blk bytes writes, last_write-none blk writes)

last_write-put_ne :
    (blk other : ℕ) (bytes : List ℕ) (writes : Writes)
    → other ≢ blk
    → last_write other (put_write blk bytes writes) ≡ last_write other writes
unfolding last_write put_write
last_write-put_ne blk other bytes [] ne = ground arith
last_write-put_ne blk other bytes ((b, old) ∷ writes) ne =
    ground (arith, last_write-put_ne blk other bytes writes ne)

writes_to-put :
    (blk other : ℕ) (bytes : List ℕ) (writes : Writes)
    → writes_to other (put_write blk bytes writes)
      ≤ max (writes_to other writes) (if other == blk then 1 else 0)
unfolding put_write
writes_to-put blk other bytes [] = ground arith
writes_to-put blk other bytes ((b, old) ∷ writes) = elim (Bool-cases (b == blk)) [
  | inl e ↦ rw e (ground arith)
  | inr e ↦ rw e (ground (arith, writes_to-put blk other bytes writes))
]

module _ {D : Type 0} (device : BlockDevice D) (w : Writer D) where
  abbrev pub after : ℕ → List ℕ → Writer D
  after blk bytes = (write_reserved device blk bytes w).1

  -- What was written is what the next read of the block gives, and the read changes nothing.
  pub read_reserved_raw-write_reserved_self :
      (blk : ℕ) (bytes : List ℕ)
      → IsUnique w.pending_writes
      → read_reserved_raw device blk (after blk bytes) ≡ (ok bytes, after blk bytes)
  unfolding read_reserved_raw write_reserved
  read_reserved_raw-write_reserved_self blk bytes u =
      rw (last_write-put_self blk bytes w.pending_writes (u blk)) refl

  -- Every other block reads as before, from its pending write or from the device.
  pub read_reserved_raw-write_reserved_ne :
      (blk other : ℕ) (bytes : List ℕ)
      → other ≢ blk
      → (read_reserved_raw device other (after blk bytes)).0 ≡ (read_reserved_raw device other w).0
  unfolding read_reserved_raw write_reserved
  read_reserved_raw-write_reserved_ne blk other bytes ne =
      rw (last_write-put_ne blk other bytes w.pending_writes ne)
        (same_read (last_write other w.pending_writes))
    where
      same_read :
          (o : Option (List ℕ))
          → (read_unless_pending device other o (after blk bytes)).0
            ≡ (read_unless_pending device other o w).0
      same_read none = refl
      same_read (some bs) = refl

  pub write_reserved-IsUnique :
      (blk : ℕ) (bytes : List ℕ)
      → IsUnique w.pending_writes
      → IsUnique (after blk bytes).pending_writes
  unfolding write_reserved
  write_reserved-IsUnique blk bytes u other =
      ground (arith, u other, writes_to-put blk other bytes w.pending_writes)

-- The pending writes behave as a store: a written block reads back as written, whatever other block
-- was written reads as before, and no block ever has two pending writes.
pub write_reserved-Stores :
    {D : Type 0} (device : BlockDevice D) (w : Writer D) (blk : ℕ) (bytes : List ℕ)
    → IsUnique w.pending_writes
    → (read_reserved_raw device blk (after device w blk bytes)
        ≡ (ok bytes, after device w blk bytes))
      × ((other : ℕ)
          → other ≢ blk
          → (read_reserved_raw device other (after device w blk bytes)).0
            ≡ (read_reserved_raw device other w).0)
      × IsUnique (after device w blk bytes).pending_writes
write_reserved-Stores device w blk bytes u = (
  read_reserved_raw-write_reserved_self device w blk bytes u,
  λ other ne. read_reserved_raw-write_reserved_ne device w blk other bytes ne,
  write_reserved-IsUnique device w blk bytes u,
)
