-- ===== src/Format/Volume/Blocks.antt =====
-- About the blocks that a format takes from the reserved area.
use pfs.Prelude.{
  ℕ, zero, suc, ◌+◌, ◌<◌, List, [], ◌∷◌, ◌++◌, ◌||◌, ◌≡◌, refl, ap, sym, ◌∙◌, true, false, Bool,
  map, length, length-append, arith, get_or, if◌then◌else◌, Option, none, some, contains,
}
use pfs.Error.{Result, ok, err, panic}
use pfs.Exec.{Exec, Ensures, Ensures-bind, ◌>>=◌}
use pfs.Format.Reserved.{ReservedAllocator, alloc, taken, alloc_loop, free_count}
use pfs.Format.Reserved.Laws.{IsValid, Allocates, alloc-Allocates}
use pfs.Format.Geometry.{Geometry, no_bmb, no_bmi}
use pfs.Format.Blocks.{Layout}
use pfs.Format.Volume.{block_of, take_block, take_blocks, take_layout}

abbrev pub IsDistinct : List ℕ → Type 0
IsDistinct [] = Unit
IsDistinct (x ∷ xs) = (contains xs x ≡ false) × IsDistinct xs

abbrev pub bit : ReservedAllocator → ℕ → Bool
bit a i = get_or a.bitmap i false

abbrev pub AllFree : ReservedAllocator → List ℕ → Type 0
AllFree a [] = Unit
AllFree a (x ∷ xs) = (bit a x ≡ true) × (x < a.numreserved) × AllFree a xs

-- From `a` to `b` just the blocks `xs` have been taken, each once.
pub record Takes (a : ReservedAllocator) (xs : List ℕ) (b : ReservedAllocator) : Type 0 where
  pub distinct : IsDistinct xs
  pub were_free : AllFree a xs
  pub bits : (j : ℕ) → bit b j ≡ (if contains xs j then false else bit a j)
  pub counted : free_count a ≡ free_count b + length xs
  pub valid : IsValid b
  pub sized : b.numreserved ≡ a.numreserved

contains-append :
    (xs ys : List ℕ) (j : ℕ) → contains (xs ++ ys) j ≡ (contains xs j || contains ys j)
unfolding contains
contains-append [] ys j = refl
contains-append (x ∷ xs) ys j = ground (arith, contains-append xs ys j)

AllFree-append :
    (a : ReservedAllocator) (xs ys : List ℕ) → AllFree a xs → AllFree a ys → AllFree a (xs ++ ys)
AllFree-append a [] ys h k = k
AllFree-append a (x ∷ xs) ys h k = (h.0, h.1, AllFree-append a xs ys (h.2) k)

still_free : (c x : Bool) → (if c then false else x) ≡ true → (c ≡ false) × (x ≡ true)
still_free false x h = (refl, h)
still_free true x h = cc

-- None of `ys` is among `xs`.
abbrev NoneIn : List ℕ → List ℕ → Type 0
NoneIn xs [] = Unit
NoneIn xs (y ∷ ys) = (contains xs y ≡ false) × NoneIn xs ys

-- What is free afterwards is not among those taken, and was free before.
free_before :
    (a b : ReservedAllocator) (xs ys : List ℕ)
    → ((j : ℕ) → bit b j ≡ (if contains xs j then false else bit a j))
    → b.numreserved ≡ a.numreserved
    → AllFree b ys
    → NoneIn xs ys × AllFree a ys
free_before a b xs [] e s h = (tt, tt)
free_before a b xs (y ∷ ys) e s h =
    let (out, free) = still_free (contains xs y) (bit a y) (sym (e y) ∙ h.0) in
    let (outs, frees) = free_before a b xs ys e s (h.2) in
    ((out, outs), (free, omega (arith, h.1, s), frees))

not_head : (x : ℕ) (xs ys : List ℕ) → NoneIn (x ∷ xs) ys → (contains ys x ≡ false) × NoneIn xs ys
unfolding contains
not_head x xs [] h = (refl, tt)
not_head x xs (y ∷ ys) h = ground (arith, h.0, not_head x xs ys (h.1))

IsDistinct-append :
    (xs ys : List ℕ) → IsDistinct xs → IsDistinct ys → NoneIn xs ys → IsDistinct (xs ++ ys)
IsDistinct-append [] ys dx dy h = dy
IsDistinct-append (x ∷ xs) ys dx dy h =
    let (out, outs) = not_head x xs ys h in
    (contains-append xs ys x ∙ rw (dx.0, out) refl, IsDistinct-append xs ys (dx.1) dy outs)

Takes-append :
    {a b c : ReservedAllocator} {xs ys : List ℕ}
    → Takes a xs b
    → Takes b ys c
    → Takes a (xs ++ ys) c
Takes-append {a} {b} {c} {xs} {ys} s t =
    let (outs, frees) = free_before a b xs ys s.bits s.sized t.were_free in
    record {
      distinct = IsDistinct-append xs ys s.distinct t.distinct outs;
      were_free = AllFree-append a xs ys s.were_free frees;
      bits = λ j. ground (arith, contains-append xs ys j, s.bits j, t.bits j);
      counted = omega (arith, s.counted, t.counted, length-append xs ys);
      valid = t.valid;
      sized = t.sized ∙ s.sized;
    }

Takes-none : {a : ReservedAllocator} → IsValid a → Takes a [] a
unfolding contains
Takes-none v = record {
  distinct = tt;
  were_free = tt;
  bits = λ j. refl;
  counted = omega arith;
  valid = v;
  sized = refl;
}

taken-numreserved :
    (a : ReservedAllocator) (o : Option ℕ) → (taken a o).1.numreserved ≡ a.numreserved
taken-numreserved a none = refl
taken-numreserved a (some idx) = refl

-- The blocks `blks` are the first sectors of reserved blocks that have been taken.
abbrev pub Took : Geometry → ReservedAllocator → List ℕ → ReservedAllocator → Type 0
Took g a blks b = (idxs : List ℕ) × (blks ≡ map (block_of g) idxs) × Takes a idxs b

map-append :
    (g : Geometry) (xs ys : List ℕ)
    → map (block_of g) (xs ++ ys) ≡ map (block_of g) xs ++ map (block_of g) ys
map-append g [] ys = refl
map-append g (x ∷ xs) ys = ap (λ l. block_of g x ∷ l) (map-append g xs ys)

Took-append :
    (g : Geometry) (a b c : ReservedAllocator) (xs ys : List ℕ)
    → Took g a xs b
    → Took g b ys c
    → Took g a (xs ++ ys) c
Took-append g a b c xs ys (is, e, s) (js, f, t) =
    (is ++ js, rw (e, f) (sym (map-append g is js)), Takes-append s t)

alloc-numreserved : (a : ReservedAllocator) → (alloc a).1.numreserved ≡ a.numreserved
unfolding alloc
alloc-numreserved a = taken-numreserved a (alloc_loop a 0 a.numreserved)

alloc-Takes :
    (a : ReservedAllocator) → IsValid a → Ensures (λ idx b. Takes a (idx ∷ []) b) (alloc a)
unfolding contains
alloc-Takes a v = go (alloc a) (alloc-Allocates a v) (alloc-numreserved a)
  where
    go :
        (p : Result ℕ × ReservedAllocator)
        → Allocates a p
        → p.1.numreserved ≡ a.numreserved
        → Ensures (λ idx b. Takes a (idx ∷ []) b) p
    go (ok idx, b) h s = record {
      distinct = (refl, tt);
      were_free = (h.0, h.1, tt);
      bits = λ j. ground (arith, h.2 j);
      counted = h.3;
      valid = h.4;
      sized = s;
    }
    go (err e, b) h s = tt
    go (panic, b) h s = tt

module _ (g : Geometry) where
  take_block-Took :
      (a : ReservedAllocator)
      → IsValid a
      → Ensures (λ blk b. Took g a (blk ∷ []) b) (take_block g a)
  unfolding take_block
  take_block-Took a v =
      Ensures-bind (λ idx b. Takes a (idx ∷ []) b) (λ blk b. Took g a (blk ∷ []) b) alloc _ a
        (alloc-Takes a v) (λ idx b t. (idx ∷ [], refl, t))

  take_blocks-Took :
      (n : ℕ) (a : ReservedAllocator)
      → IsValid a
      → Ensures (λ blks b. Took g a blks b) (take_blocks g n a)
  unfolding take_blocks
  take_blocks-Took zero a v = ([], refl, Takes-none v)
  take_blocks-Took (suc n) a v =
      Ensures-bind (λ blk b. Took g a (blk ∷ []) b) (λ blks b. Took g a blks b) (take_block g) _ a
        (take_block-Took a v)
        (λ blk b t.
          Ensures-bind (λ blks c. Took g b blks c) (λ blks c. Took g a blks c) (take_blocks g n) _ b
            (take_blocks-Took n b (t.2.valid))
            (λ blks c u. Took-append g a b c (blk ∷ []) blks t u))

  -- One more step of a chain that takes blocks.
  Took-then :
      {X Y : Type 0} (Q : Y → ReservedAllocator → Type 0) (blocks : X → List ℕ)
      (m : Exec ReservedAllocator X) (k : X → Exec ReservedAllocator Y) (a b : ReservedAllocator)
      (xs : List ℕ)
      → Took g a xs b
      → Ensures (λ x c. Took g b (blocks x) c) (m b)
      → ((x : X) (c : ReservedAllocator) → Took g a (xs ++ blocks x) c → Ensures Q (k x c))
      → Ensures Q ((m >>= k) b)
  Took-then Q blocks m k a b xs t h next =
      Ensures-bind (λ x c. Took g b (blocks x) c) Q m k b h
        (λ x c u. next x c (Took-append g a b c xs (blocks x) t u))

  -- The blocks of a layout, in the order in which they are taken.
  abbrev pub layout_blocks : Layout → List ℕ
  layout_blocks l =
      (l.rext_blk ∷ [])
      ++ l.bm_blocknrs
      ++ l.bmi_blocknrs
      ++ (l.anidx_blk ∷ [])
      ++ (l.anode_blk ∷ [])
      ++ (l.rootdir_blk ∷ [])

  -- The blocks that a format takes for the extension, the bitmap, its index, the anode index, the
  -- anodes and the root directory are the first sectors of reserved blocks that were free: no reserved
  -- block is taken twice, just these become used, and the free count falls by their number. The
  -- allocator is in a valid state, and there are blocks enough.
  pub take_layout-Took :
      (db : ℕ) (a : ReservedAllocator)
      → IsValid a
      → Ensures (λ l b. Took g a (layout_blocks l) b) ((take_block g >>= take_layout g db) a)
  unfolding take_layout
  take_layout-Took db a v =
      Ensures-bind (λ x b. Took g a (x ∷ []) b) Q (take_block g) (take_layout g db) a
        (take_block-Took a v)
        (λ r b1 t1.
          Took-then Q (λ bs. bs) (take_blocks g (no_bmb g db)) _ a b1 _ t1
            (take_blocks-Took _ b1 (t1.2.valid))
            (λ bs b2 t2.
              Took-then Q (λ bs. bs) (take_blocks g (no_bmi g db)) _ a b2 _ t2
                (take_blocks-Took _ b2 (t2.2.valid))
                (λ is b3 t3.
                  Took-then Q (λ x. x ∷ []) (take_block g) _ a b3 _ t3
                    (take_block-Took b3 (t3.2.valid))
                    (λ i b4 t4.
                      Took-then Q (λ x. x ∷ []) (take_block g) _ a b4 _ t4
                        (take_block-Took b4 (t4.2.valid))
                        (λ n b5 t5.
                          Took-then Q (λ x. x ∷ []) (take_block g) _ a b5 _ t5
                            (take_block-Took b5 (t5.2.valid)) (λ d b6 t6. t6))))))
    where
      Q : Layout → ReservedAllocator → Type 0
      Q l b = Took g a (layout_blocks l) b
