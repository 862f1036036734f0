-- ===== src/Util/Protection.antt =====
-- The protection bits of crates/libpfs3/src/util.rs.
pub mod Laws
use pfs.Prelude.{
  ℕ, ◌-◌, List, [], ◌∷◌, ◌++◌, Bool, true, false, Option, none, some, bit_and, bit_or, ◌==◌,
  if◌then◌else◌,
}
use pfs.Error.{Str}

-- `!m` on u8.
abbrev pub u8_not : ℕ → ℕ
u8_not m = 255 - m

unfoldable pub amiga_protection_to_mode : ℕ → Bool → ℕ
amiga_protection_to_mode prot is_dir =
    let mode : ℕ = if is_dir then 0o40000 else 0o100000 in
    let mode = if bit_and prot 0x08 == 0 then bit_or mode 0o444 else mode in
    let mode = if bit_and prot 0x04 == 0 then bit_or mode 0o222 else mode in
    if bit_and prot 0x02 == 0 then bit_or mode 0o111 else mode

unfoldable pub unix_mode_to_amiga_protection : ℕ → ℕ
unix_mode_to_amiga_protection mode =
    let prot : ℕ = 0x0F in
    let prot = if bit_and mode 0o400 == 0 then prot else bit_and prot (u8_not 0x08) in
    let prot =
      if bit_and mode 0o200 == 0
      then prot
      else bit_and (bit_and prot (u8_not 0x04)) (u8_not 0x01) in
    if bit_and mode 0o100 == 0 then prot else bit_and prot (u8_not 0x02)

-- The letter, or a dash.
abbrev pub flag_char : Bool → ℕ → ℕ
flag_char shown letter = if shown then letter else b'-'

abbrev is_set : ℕ → ℕ → Bool
is_set prot m = if bit_and prot m == 0 then false else true

unfoldable pub amiga_protection_string : ℕ → Str
amiga_protection_string prot =
    flag_char (is_set prot 0x80) b'h'
    ∷ flag_char (is_set prot 0x40) b's'
    ∷ flag_char (is_set prot 0x20) b'p'
    ∷ flag_char (is_set prot 0x10) b'a'
    ∷ flag_char (bit_and prot 0x08 == 0) b'r'
    ∷ flag_char (bit_and prot 0x04 == 0) b'w'
    ∷ flag_char (bit_and prot 0x02 == 0) b'e'
    ∷ flag_char (bit_and prot 0x01 == 0) b'd'
    ∷ []

-- How a specification applies: `=` from nothing granted, `+` and `-` to the current bits.
pub data Mode : Type 0 where
  set_to add remove : Mode

-- The two arms of a flag that a one grants (h, s, p, a).
abbrev grant_by_one : Mode → ℕ → ℕ → ℕ
grant_by_one remove prot bit = bit_and prot (u8_not bit)
grant_by_one _ prot bit = bit_or prot bit

-- The two arms of a flag that a one denies (r, w, e, d).
abbrev grant_by_zero : Mode → ℕ → ℕ → ℕ
grant_by_zero remove prot bit = bit_or prot bit
grant_by_zero _ prot bit = bit_and prot (u8_not bit)

abbrev apply_char : Mode → ℕ → ℕ → Option ℕ
apply_char mode ch prot =
    if ch == b'h'
    then some (grant_by_one mode prot 0x80)
    else if ch == b's'
    then some (grant_by_one mode prot 0x40)
    else if ch == b'p'
    then some (grant_by_one mode prot 0x20)
    else if ch == b'a'
    then some (grant_by_one mode prot 0x10)
    else if ch == b'r'
    then some (grant_by_zero mode prot 0x08)
    else if ch == b'w'
    then some (grant_by_zero mode prot 0x04)
    else if ch == b'e'
    then some (grant_by_zero mode prot 0x02)
    else if ch == b'd'
    then some (grant_by_zero mode prot 0x01)
    else none

-- The loop over the letters.
unfoldable pub apply_chars : Mode → Str → ℕ → Option ℕ
apply_chars mode [] prot = some prot
apply_chars mode (ch ∷ chars) prot = elim (apply_char mode ch prot) [
  | none ↦ none
  | some prot' ↦ apply_chars mode chars prot'
]

unfoldable pub parse_amiga_protection : ℕ → Str → Option ℕ
unfolding apply_chars
parse_amiga_protection current [] = none
parse_amiga_protection current (c ∷ rest) =
    if c == b'+'
    then apply_chars add rest current
    else if c == b'-'
    then apply_chars remove rest current
    else apply_chars set_to (c ∷ rest) 0x0F
