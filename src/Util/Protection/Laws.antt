-- ===== src/Util/Protection/Laws.antt =====
-- About the protection bits of crates/libpfs3/src/util.rs: as letters and as a Unix mode.
use pfs.Prelude.{
  ℕ, ◌+◌, ◌*◌, ◌<◌, [], ◌∷◌, Bool, ◌&&◌, not, ◌∙◌, true, false, Option, none, some, ◌≡◌, refl,
  bit_and, ◌==◌, if◌then◌else◌, arith, all_below, all_below_sound, bit_at, bit_at-le-one,
  bit_and_pow,
}
use pfs.Error.{Str}
use pfs.Util.Protection.{
  amiga_protection_to_mode, unix_mode_to_amiga_protection, amiga_protection_string,
  parse_amiga_protection,
}

-- The letters of a string of flags without its dashes.
pub letters : Str → Str
letters [] = []
letters (c ∷ s) = let rest = letters s in if c == b'-' then rest else c ∷ rest

abbrev is_none : Option ℕ → Bool
is_none none = true
is_none (some m) = false

is_none_sound : (o : Option ℕ) → is_none o ≡ true → o ≡ none
is_none_sound none h = refl
is_none_sound (some m) h = cc

abbrev same : Option ℕ → ℕ → Bool
same none n = false
same (some m) n = m == n

same_sound : (o : Option ℕ) (n : ℕ) → same o n ≡ true → o ≡ some n
same_sound none n h = cc
same_sound (some m) n h = ground arith

-- No sign stands in front, so the specification is absolute.
abbrev is_absolute : Str → Bool
is_absolute [] = true
is_absolute (c ∷ s) = not (c == b'+') && not (c == b'-')

parse-absolute :
    (current : ℕ) (s : Str)
    → is_absolute s ≡ true
    → parse_amiga_protection current s ≡ parse_amiga_protection 0 s
unfolding parse_amiga_protection
parse-absolute current [] h = refl
parse-absolute current (c ∷ s) h = ground arith

abbrev string_letters : ℕ → Str
string_letters prot = letters (amiga_protection_string prot)

abbrev reads_back : ℕ → Bool
reads_back prot =
    is_absolute (string_letters prot)
    && (if prot == 0x0F
        then is_none (parse_amiga_protection 0 (string_letters prot))
        else same (parse_amiga_protection 0 (string_letters prot)) prot)

reads_back_table : all_below 256 reads_back ≡ true
unfolding all_below parse_amiga_protection amiga_protection_string letters
reads_back_table = refl

reads_back_sound :
    (prot : ℕ) (s : Str)
    → (is_absolute s
        && (if prot == 0x0F
            then is_none (parse_amiga_protection 0 s)
            else same (parse_amiga_protection 0 s) prot))
      ≡ true
    → (is_absolute s ≡ true)
      × (parse_amiga_protection 0 s ≡ (if prot == 0x0F then none else some prot))
reads_back_sound prot s h = ground (
  arith,
  same_sound (parse_amiga_protection 0 s) prot,
  is_none_sound (parse_amiga_protection 0 s),
)

-- The letters that the string of a protection byte shows parse back to that byte, whatever the
-- current bits are; only the byte that denies everything and has no flag shows no letter, and
-- the empty specification is refused.
pub parse-string :
    (current prot : ℕ)
    → prot < 256
    → parse_amiga_protection current (letters (amiga_protection_string prot))
      ≡ (if prot == 0x0F then none else some prot)
parse-string current prot h =
    let (absolute, parsed) =
      reads_back_sound prot (string_letters prot)
        (all_below_sound 256 reads_back prot reads_back_table h) in
    parse-absolute current (string_letters prot) absolute ∙ parsed

-- Through the Amiga bits and back, a Unix mode keeps its owner's read, write and execute bits,
-- and group and others get the same three.
pub amiga_protection_to_mode-unix :
    (mode : ℕ) (is_dir : Bool)
    → bit_and (amiga_protection_to_mode (unix_mode_to_amiga_protection mode) is_dir) 0o777
      ≡ bit_at mode 8 * 0o444 + bit_at mode 7 * 0o222 + bit_at mode 6 * 0o111
unfolding amiga_protection_to_mode unix_mode_to_amiga_protection
amiga_protection_to_mode-unix mode is_dir = ground (
  arith,
  bit_and_pow 8 mode,
  bit_and_pow 7 mode,
  bit_and_pow 6 mode,
  bit_at-le-one 8 mode,
  bit_at-le-one 7 mode,
  bit_at-le-one 6 mode,
)
