-- ===== src/Util/Names.antt =====
-- The text part of crates/libpfs3/src/util.rs. A string is the list of its code points.
pub mod Laws
use pfs.Prelude.{
  ℕ, ◌+◌, ◌-◌, ◌*◌, ◌/◌, ◌%◌, List, [], ◌∷◌, ◌++◌, Bool, true, false, ◌&&◌, map, ltb, leb, ◌==◌,
  if◌then◌else◌,
}
use pfs.Error.{Str}

-- `str::as_bytes`: UTF-8.
abbrev pub encode_char : ℕ → List ℕ
encode_char c =
    if ltb c 0x80
    then c ∷ []
    else if ltb c 0x800
    then (0xC0 + c / 64) ∷ (0x80 + c % 64) ∷ []
    else if ltb c 0x10000
    then (0xE0 + c / 4096) ∷ (0x80 + c / 64 % 64) ∷ (0x80 + c % 64) ∷ []
    else (0xF0 + c / 262144) ∷ (0x80 + c / 4096 % 64) ∷ (0x80 + c / 64 % 64) ∷ (0x80 + c % 64) ∷ []

unfoldable pub as_bytes : Str → List ℕ
as_bytes [] = []
as_bytes (c ∷ s) = encode_char c ++ as_bytes s

-- Each byte becomes the code point of the same number.
unfoldable pub latin1_to_string : List ℕ → Str
latin1_to_string bytes = map (λ b. b) bytes

abbrev pub to_ascii_lowercase : ℕ → ℕ
to_ascii_lowercase c = if leb b'A' c && leb c b'Z' then c + 32 else c

-- `str::eq_ignore_ascii_case`
unfoldable pub name_eq_ci : Str → Str → Bool
name_eq_ci [] [] = true
name_eq_ci [] (b ∷ t) = false
name_eq_ci (a ∷ s) [] = false
name_eq_ci (a ∷ s) (b ∷ t) = to_ascii_lowercase a == to_ascii_lowercase b && name_eq_ci s t

abbrev pub ends_with_slash : Str → Bool
ends_with_slash [] = false
ends_with_slash (c ∷ []) = c == b'/'
ends_with_slash (c ∷ d ∷ s) = ends_with_slash (d ∷ s)

unfoldable pub join_pfs3_path : Str → Str → Str
join_pfs3_path parent name =
    if ends_with_slash parent then parent ++ name else parent ++ b'/' ∷ name

-- `path.split('/').filter(|s| !s.is_empty()).collect()`: the word read so far stands in `word`.
abbrev pub cons_part : Str → List Str → List Str
cons_part [] parts = parts
cons_part (c ∷ word) parts = (c ∷ word) ∷ parts

unfoldable pub split_from : Str → Str → List Str
split_from word [] = cons_part word []
split_from word (c ∷ path) = elim (c == b'/') [
  | true ↦ cons_part word (split_from [] path)
  | false ↦ split_from (word ++ c ∷ []) path
]

unfoldable pub path_parts : Str → List Str
unfolding split_from
path_parts path = split_from [] path
