-- ===== src/Bytes/Fields.antt =====
-- Sequences of writes of a block's fields, as in the bodies that fill a fresh block: `put_u32`,
-- `put_u16`, `data[i] = v` and `copy_from_slice` one after the other.
pub mod Laws
use pfs.Prelude.{ℕ, List, [], ◌∷◌}
use pfs.Error.{Result, ok, ◌>>=◌}
use pfs.Bytes.{put_u32, put_u16, set_byte, copy_from_slice}

-- One write, at an offset.
pub data Field : Type 0 where
  put32 put16 put8 : ℕ → ℕ → Field
  put_slice : ℕ → List ℕ → Field

unfoldable pub put_field : List ℕ → Field → Result (List ℕ)
unfolding put_u32 put_u16
put_field buf (put32 off v) = put_u32 buf off v
put_field buf (put16 off v) = put_u16 buf off v
put_field buf (put8 off v) = set_byte buf off v
put_field buf (put_slice off s) = copy_from_slice buf off s

unfoldable pub put_fields : List ℕ → List Field → Result (List ℕ)
unfolding put_field
put_fields buf [] = ok buf
put_fields buf (f ∷ fs) = do b ← put_field buf f; put_fields b fs
