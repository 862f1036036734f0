-- ===== src/Writer/Clusters.antt =====
-- Grouping blocks into extents: the first loop of `create_anode_chain`.
pub mod Laws
use pfs.Prelude.{ℕ, ◌+◌, List, [], ◌∷◌, ◌==◌, if◌then◌else◌}

-- The run of `count` blocks from `start`, and the runs of the blocks behind it.
unfoldable pub runs : ℕ → ℕ → List ℕ → List (ℕ × ℕ)
runs start count [] = (start, count) ∷ []
runs start count (blk ∷ blks) =
    let longer = runs start (count + 1) blks in
    let next = (start, count) ∷ runs blk 1 blks in if blk == start + count then longer else next

-- The maximal runs of consecutive blocks, as start and length.
unfoldable pub clusters : List ℕ → List (ℕ × ℕ)
unfolding runs
clusters [] = []
clusters (blk ∷ blks) = runs blk 1 blks
