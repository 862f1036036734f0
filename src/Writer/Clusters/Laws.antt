-- ===== src/Writer/Clusters/Laws.antt =====
-- About the extents of `create_anode_chain` of crates/libpfs3/src/writer.rs.
use pfs.Prelude.{
  ℕ, zero, suc, ◌+◌, List, [], ◌∷◌, ◌++◌, ◌==◌, ◌≡◌, refl, ◌∙◌, ap, arith, range, Bool-cases, inl,
  inr, ==_iff, append_assoc, append-nil,
}
use pfs.Writer.Clusters.{runs, clusters}

-- The blocks of a list of extents.
pub expand : List (ℕ × ℕ) → List ℕ
expand [] = []
expand ((start, count) ∷ rest) = range start count ++ expand rest

range-suc : (lo n : ℕ) → range lo (n + 1) ≡ range lo n ++ (lo + n) ∷ []
unfolding range
range-suc lo zero = ground arith
range-suc lo (suc n) =
    let e : suc n + 1 ≡ suc (n + 1) = omega arith in
    rw e (
      ap (λ l. lo ∷ l)
        (range-suc (suc lo) n ∙ ap (λ (k : ℕ). range (suc lo) n ++ k ∷ []) (omega arith)))

expand-runs :
    (start count : ℕ) (blks : List ℕ) → expand (runs start count blks) ≡ range start count ++ blks
unfolding expand runs
expand-runs start count [] = rw append-nil
expand-runs start count (blk ∷ blks) = elim (Bool-cases (blk == start + count)) [
  | inl e ↦ rw e (
      rw ((==_iff blk (start + count)).0 e) (
        expand-runs start (count + 1) blks
        ∙ (ap (λ l. l ++ blks) (range-suc start count)
            ∙ append_assoc (range start count) ((start + count) ∷ []) blks)))
  | inr e ↦ rw e (ap (λ l. range start count ++ l) (expand-runs blk 1 blks ∙ one blk blks))
]
  where
    one : (blk : ℕ) (blks : List ℕ) → range blk 1 ++ blks ≡ blk ∷ blks
    one blk blks = unfold range in refl

-- The extents that a file's blocks are grouped into hold exactly these blocks, in order.
pub expand-clusters : (blks : List ℕ) → expand (clusters blks) ≡ blks
unfolding clusters
expand-clusters [] = unfold expand in refl
expand-clusters (blk ∷ blks) = expand-runs blk 1 blks ∙ unfold range in refl
