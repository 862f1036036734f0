-- ===== src/Writer/Sectors.antt =====
-- Cutting bytes into sectors, and patching a buffer: the pure parts of writer.rs and of
-- `write_reserved_blocks` of ondisk/mod.rs.
use pfs.Prelude.{ℕ, ◌+◌, List, [], ◌∷◌, ltb, leb, if◌then◌else◌, length, min}
use pfs.Error.{Result, ok, ◌>>=◌}
use pfs.Bytes.{slice, copy_from_slice, zeros, put_u32}
use pfs.Ondisk.Constants.{rb_off_datestamp, rb_off_reserved_free, rb_off_blocksfree}

-- The bytes from `start` on, one sector of them, padded with zeros.
unfoldable pub sector_at : List ℕ → ℕ → ℕ → Result (List ℕ)
sector_at bytes sector_size start =
    if ltb start (length bytes)
    then (do
      piece ← slice bytes start (min (start + sector_size) (length bytes))
      copy_from_slice (zeros sector_size) 0 piece)
    else ok (zeros sector_size)

-- Put the words at `off`, `off + 4`, … as far as they fit.
unfoldable pub put_words_fitting : List ℕ → ℕ → List ℕ → Result (List ℕ)
unfolding put_u32
put_words_fitting buf off [] = ok buf
put_words_fitting buf off (w ∷ ws) =
    if leb (off + 4) (length buf)
    then (do buf' ← put_u32 buf off w; put_words_fitting buf' (off + 4) ws)
    else put_words_fitting buf (off + 4) ws

-- Put the words at `off`, `off + 4`, ….
unfoldable pub put_words : List ℕ → ℕ → List ℕ → Result (List ℕ)
unfolding put_u32
put_words buf off [] = ok buf
put_words buf off (w ∷ ws) = do buf' ← put_u32 buf off w; put_words buf' (off + 4) ws

-- The rootblock cluster with a new datestamp, free counts and reserved bitmap.
unfoldable pub patch_cluster : List ℕ → ℕ → ℕ → ℕ → ℕ → List ℕ → Result (List ℕ)
unfolding put_u32 put_words_fitting
patch_cluster cluster bs datestamp reserved_free blocksfree res_bitmap = do
  c ← put_u32 cluster rb_off_datestamp datestamp
  c ← put_u32 c rb_off_reserved_free reserved_free
  c ← put_u32 c rb_off_blocksfree blocksfree
  put_words_fitting c (bs + 12) res_bitmap
