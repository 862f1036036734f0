-- ===== src/Anode/Laws.antt =====
-- About `AnodeReader::get_chain` of crates/libpfs3/src/anode.rs: the shape of chains.
use pfs.Prelude.{
  ◌*◌, ℕ, zero, suc, ◌+◌, ◌≤◌, List, [], ◌∷◌, false, ltb, ◌==◌, length, contains, ◌≡◌, refl, arith,
  ==_iff,
}
use pfs.Error.{err, anode_not_found, ◌>>=◌, Yields, Yields-bind, Yields-if}
use pfs.Exec.{Ensures, Ensures-bind, Ensures-any, Ensures-if, Ensures-lift, lift}
use pfs.Bytes.{read_u32, slice}
use pfs.Io.{BlockDevice}
use pfs.Cache.{Env, read_reserved}
use pfs.Ondisk.Anode
use pfs.Ondisk.Anode.{Anode}
use pfs.Ondisk.Constants.{anode_eof, anode_size, anode_block_header_size}
use pfs.Ondisk.Headers.{parse_anode_block}
use pfs.Anode.{
  AnodeReader, anode_in, read_anode, resolve_anode_block, split_anodenr, get_anode, chain_loop,
  get_chain, max_chain_len,
}

parse-nr : (buf : List ℕ) (nr : ℕ) → Yields (λ an. an.nr ≡ nr) (Anode.parse buf nr)
unfolding Anode.parse
parse-nr buf nr = Yields-if _ (ltb (length buf) 12) _ _ tt (
    Yields-bind _ (read_u32 buf 0) _ (λ cs.
      Yields-bind _ (read_u32 buf 4) _ (λ bn. Yields-bind _ (read_u32 buf 8) _ (λ next. refl))))

-- Each anode has the number that the one before it names, and the last names none.
abbrev pub IsLinked : ℕ → List Anode → Type 0
IsLinked nr [] = nr ≡ anode_eof
IsLinked nr (an ∷ chain) = (an.nr ≡ nr) × IsLinked an.next chain

abbrev pub nrs : List Anode → List ℕ
nrs [] = []
nrs (an ∷ chain) = an.nr ∷ nrs chain

-- No number occurs twice, nor among the ones seen.
abbrev pub AreNew : List ℕ → List ℕ → Type 0
AreNew seen [] = Unit
AreNew seen (nr ∷ rest) = (contains seen nr ≡ false) × AreNew (nr ∷ seen) rest

anode_in-nr :
    (bytes : List ℕ) (offset nr : ℕ) → Yields (λ an. an.nr ≡ nr) (anode_in bytes offset nr)
unfolding anode_in
anode_in-nr bytes offset nr = Yields-bind _ (parse_anode_block bytes) _ λ header.
    let base = anode_block_header_size + offset * anode_size in
    Yields-if (λ (an : Anode). an.nr ≡ nr) (ltb (length bytes) (base + anode_size))
      (err (anode_not_found nr))
      (slice bytes base (base + anode_size) >>= λ raw. Anode.parse raw nr) tt
      (Yields-bind (λ (an : Anode). an.nr ≡ nr) (slice bytes base (base + anode_size))
        (λ raw. Anode.parse raw nr) (λ raw. parse-nr raw nr))

module _ {D : Type 0} (device : BlockDevice D) (r : AnodeReader) where
  read_anode-nr :
      (nr offset blk_nr : ℕ) (s : Env D)
      → Ensures (λ an _. an.nr ≡ nr) (read_anode device r nr offset blk_nr s)
  unfolding read_anode
  read_anode-nr nr offset blk_nr s =
      Ensures-if _ (blk_nr == 0) _ _ s (λ _. tt)
        (λ _.
          Ensures-bind (λ _ _. Unit) _ (read_reserved device blk_nr r.reserved_blksize) _ s
            (Ensures-any _)
            (λ bytes s' _.
              Ensures-lift (λ (an : Anode). an.nr ≡ nr) (anode_in bytes offset nr) s'
                (anode_in-nr bytes offset nr)))

  get_anode-nr : (nr : ℕ) (s : Env D) → Ensures (λ an _. an.nr ≡ nr) (get_anode device r nr s)
  unfolding get_anode
  get_anode-nr nr s =
      Ensures-bind (λ _ _. Unit) _ (lift (split_anodenr r.split_mode r.anodes_per_block nr)) _ s
        (Ensures-any _)
        (λ p s' _.
          Ensures-bind (λ _ _. Unit) _ (resolve_anode_block device r p.0) _ s' (Ensures-any _)
            (λ blk_nr s'' _. read_anode-nr nr p.1 blk_nr s''))

  -- What `chain_loop` promises of the chain that it gives.
  abbrev IsChain : ℕ → List ℕ → ℕ → List Anode → Env D → Type 0
  IsChain left seen nr chain s = IsLinked nr chain × AreNew seen (nrs chain) × (length chain ≤ left)

  chain_loop-IsChain :
      (left : ℕ) (seen : List ℕ) (nr : ℕ) (s : Env D)
      → Ensures (IsChain left seen nr) (chain_loop device r left seen nr s)
  unfolding chain_loop
  chain_loop-IsChain zero seen nr s =
      Ensures-if _ (nr == anode_eof) _ _ s (λ e. ((==_iff nr anode_eof).0 e, tt, omega arith))
        (λ _. Ensures-if _ (contains seen nr) _ _ s (λ _. tt) (λ _. tt))
  chain_loop-IsChain (suc left) seen nr s =
      Ensures-if _ (nr == anode_eof) _ _ s (λ e. ((==_iff nr anode_eof).0 e, tt, omega arith))
        (λ _.
          Ensures-if _ (contains seen nr) _ _ s (λ _. tt)
            (λ new. Ensures-bind _ _ (get_anode device r nr) _ s (get_anode-nr nr s) (λ an s' same.
              Ensures-bind _ _ (chain_loop device r left (nr ∷ seen) an.next) _ s'
                (chain_loop-IsChain left (nr ∷ seen) an.next s')
                (λ rest s'' (linked, distinct, short).
                  ((same, linked), rw same (new, distinct), omega arith)))))

-- A chain that is read without an error starts at the anode asked for, goes from each anode to the one
-- that it names, ends at an anode that names none, never meets an anode twice, and has at most a
-- million anodes.
pub get_chain-IsChain :
    {D : Type 0} (device : BlockDevice D) (r : AnodeReader) (nr : ℕ) (s : Env D)
    → Ensures
        (λ chain _. IsLinked nr chain × AreNew [] (nrs chain) × (length chain ≤ max_chain_len))
        (get_chain device r nr s)
unfolding get_chain
get_chain-IsChain device r nr s = chain_loop-IsChain device r max_chain_len [] nr s
