-- ===== src/Cache/Laws.antt =====
-- About `BlockCache::read_reserved` of crates/libpfs3/src/cache.rs: coherence with the device, and capacity.
use pfs.Prelude.{
  ℕ, ◌≤◌, ◌<◌, List, [], ◌∷◌, Bool, true, false, leb, ◌==◌, if◌then◌else◌, length, Option, none,
  some, ◌≡◌, refl, sym, ap, ◌⊎◌, inl, inr, arith, Bool-cases, ==_iff,
}
use pfs.Error.{Result, ok, err, panic}
use pfs.Io.{BlockDevice}
use pfs.Cache.{
  CacheEntry, BlockCache, Env, find, remove, touch, oldest, evict, read_device, keep_block,
  next_generation, read_entry, read_reserved, older, without,
}

-- Every entry satisfies `P`.
abbrev pub AllEntries : (CacheEntry → Type 0) → List CacheEntry → Type 0
AllEntries P [] = Unit
AllEntries P (e ∷ es) = P e × AllEntries P es

length-touch : (block g : ℕ) (es : List CacheEntry) → length (touch block g es) ≡ length es
unfolding touch
length-touch block g [] = refl
length-touch block g (e ∷ es) = ground (arith, length-touch block g es)

length-remove : (block : ℕ) (es : List CacheEntry) → length (remove block es) ≤ length es
unfolding remove
length-remove block [] = omega arith
length-remove block (e ∷ es) = ground (arith, length-remove block es)

older_cases :
    (d : CacheEntry) (o : Option CacheEntry) (e : CacheEntry)
    → older d o ≡ some e
    → (d ≡ e) ⊎ (o ≡ some e)
older_cases d none e h = inl cc
older_cases d (some f) e h = elim (Bool-cases (leb d.generation f.generation)) [
  | inl q ↦ let k : some d ≡ some e = rw q at h in inl cc
  | inr q ↦ inr (rw q at h)
]

-- Removing the block of an entry that is there makes the list shorter.
remove-found :
    (es : List CacheEntry) (e : CacheEntry)
    → oldest es ≡ some e
    → length (remove e.block es) < length es
unfolding oldest remove
remove-found [] e h = cc
remove-found (d ∷ es) e h = elim (older_cases d (oldest es) e h) [
  | inl q ↦
      let same : (d.block == e.block) ≡ true = (==_iff _ _).1 (ap (λ x. x.block) q) in
      rw same (omega (arith, length-remove e.block es))
  | inr q ↦ ground (arith, remove-found es e q)
]

module _ (P : CacheEntry → Type 0) where
  AllEntries-remove :
      (block : ℕ) (es : List CacheEntry) → AllEntries P es → AllEntries P (remove block es)
  unfolding remove
  AllEntries-remove block [] h = tt
  AllEntries-remove block (e ∷ es) (p, h) = elim (Bool-cases (e.block == block)) [
    | inl q ↦ rw q (AllEntries-remove block es h)
    | inr q ↦ rw q (p, AllEntries-remove block es h)
  ]

  AllEntries-touch :
      (block g : ℕ) (es : List CacheEntry)
      → ((e : CacheEntry) → P e → P (record e { generation = g }))
      → AllEntries P es
      → AllEntries P (touch block g es)
  unfolding touch
  AllEntries-touch block g [] k h = tt
  AllEntries-touch block g (e ∷ es) k (p, h) = elim (Bool-cases (e.block == block)) [
    | inl q ↦ rw q (k e p, h)
    | inr q ↦ rw q (p, AllEntries-touch block g es k h)
  ]

  AllEntries-find :
      (block : ℕ) (es : List CacheEntry) (e : CacheEntry)
      → AllEntries P es
      → find block es ≡ some e
      → P e × (e.block ≡ block)
  unfolding find
  AllEntries-find block [] e h q = cc
  AllEntries-find block (d ∷ es) e (p, h) q = elim (Bool-cases (d.block == block)) [
    | inl k ↦
        let found : some d ≡ some e = rw k at q in
        let same : d ≡ e = cc in rw (sym same) (p, (==_iff _ _).0 k)
    | inr k ↦ AllEntries-find block es e h (rw k at q)
  ]

oldest-none : (es : List CacheEntry) → oldest es ≡ none → length es ≡ 0
unfolding oldest
oldest-none [] h = refl
oldest-none (e ∷ es) h = go (oldest es) h
  where
    go : (o : Option CacheEntry) → older e o ≡ none → length (e ∷ es) ≡ 0
    go none q = cc
    go (some f) q = ground (arith, q)

length-without :
    (es : List CacheEntry) (n : ℕ) → 1 ≤ n → length es ≤ n → length (without es (oldest es)) < n
length-without es n pos fits = go (oldest es) refl
  where
    go : (o : Option CacheEntry) → oldest es ≡ o → length (without es o) < n
    go none q = omega (arith, oldest-none es q)
    go (some e) q = omega (arith, remove-found es e q)

length-evict :
    (c : BlockCache)
    → 1 ≤ c.capacity
    → length c.entries ≤ c.capacity
    → length (evict c) < c.capacity
unfolding evict
length-evict c pos fits = ground (arith, length-without c.entries c.capacity pos fits)

-- The bytes of every cached block are those that the device gives for it, and the entries are within
-- the capacity.
pub record IsCoherent {D : Type 0} (device : BlockDevice D) (size : ℕ) (s : Env D) : Type 0 where
  pub shown : AllEntries (λ e. read_device device s.dev e.block size ≡ ok e.bytes) s.cache.entries
  pub bounded : length s.cache.entries ≤ s.cache.capacity
  pub nonempty : 1 ≤ s.cache.capacity

AllEntries-evict :
    (P : CacheEntry → Type 0) (c : BlockCache) → AllEntries P c.entries → AllEntries P (evict c)
unfolding evict
AllEntries-evict P c h = go (leb c.capacity (length c.entries)) (oldest c.entries)
  where
    go :
        (b : Bool) (o : Option CacheEntry)
        → AllEntries P (if b then without c.entries o else c.entries)
    go true none = h
    go true (some e) = AllEntries-remove P e.block c.entries h
    go false o = h

module _ {D : Type 0} (device : BlockDevice D) (block size : ℕ) where
  -- What a read through the cache gives: what the device gives, from the same device, and the cache is
  -- coherent again.
  abbrev pub Shows : Env D → Result (List ℕ) × Env D → Type 0
  Shows s p =
      (p.0 ≡ read_device device s.dev block size) × (p.1.dev ≡ s.dev) × IsCoherent device size (p.1)

  Shows-keep_block :
      (s : Env D) (r : Result (List ℕ))
      → IsCoherent device size s
      → read_device device s.dev block size ≡ r
      → Shows s (keep_block device block r s)
  Shows-keep_block s (ok bytes) c e = (
    sym e,
    refl,
    record {
      shown = (e, AllEntries-evict _ s.cache c.shown);
      bounded = length-evict s.cache c.nonempty c.bounded;
      nonempty = c.nonempty;
    },
  )
  Shows-keep_block s (err x) c e = (sym e, refl, c)
  Shows-keep_block s panic c e = (sym e, refl, c)

  Shows-read_entry :
      (s : Env D) (o : Option CacheEntry)
      → IsCoherent device size s
      → find block s.cache.entries ≡ o
      → Shows s (read_entry device block size o s)
  unfolding read_entry
  Shows-read_entry s none c e = Shows-keep_block s (read_device device s.dev block size) c refl
  Shows-read_entry s (some d) c e =
      let (bytes, same) =
        AllEntries-find (λ e. read_device device s.dev e.block size ≡ ok e.bytes) block
          s.cache.entries d c.shown e in
      (
        sym (rw same at bytes),
        refl,
        record {
          shown = AllEntries-touch _ block s.cache.generation s.cache.entries (λ e p. p) c.shown;
          bounded = omega (arith, length-touch block s.cache.generation s.cache.entries, c.bounded);
          nonempty = c.nonempty;
        },
      )

-- A read through a coherent cache gives what the device itself would give, value or error, leaves the
-- device alone, and leaves the cache coherent and within its capacity.
pub read_reserved-Shows :
    {D : Type 0} (device : BlockDevice D) (block size : ℕ) (s : Env D)
    → IsCoherent device size s
    → Shows device block size s (read_reserved device block size s)
unfolding read_reserved
read_reserved-Shows device block size s c =
    Shows-read_entry device block size (next_generation device s) (find block s.cache.entries)
      (record { shown = c.shown; bounded = c.bounded; nonempty = c.nonempty }) refl
