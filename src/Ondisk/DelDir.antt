-- ===== src/Ondisk/DelDir.antt =====
-- `DelDirEntry` of crates/libpfs3/src/ondisk/mod.rs: an entry of the trash directory.
use pfs.Prelude.{
  ℕ, ◌*◌, ◌^◌, List, [], ◌∷◌, Option, none, some, bit_or, ltb, ◌==◌, if◌then◌else◌, length,
}
use pfs.Error.{Str, Result, ok, ◌>>=◌}
use pfs.Bytes.{slice, u16_at, u32_at}
use pfs.Util.Names.{latin1_to_string}

pub record DelDirEntry : Type 0 where
  pub anode : ℕ
  pub fsize : ℕ
  pub fsizex : ℕ
  pub creation_day : ℕ
  pub creation_minute : ℕ
  pub creation_tick : ℕ
  pub filename : Str

-- `trim_end_matches('\0')`
abbrev keep_char : ℕ → Str → Str
keep_char c [] = if c == 0 then [] else c ∷ []
keep_char c (d ∷ s) = c ∷ d ∷ s

unfoldable pub trim_end_nul : Str → Str
trim_end_nul [] = []
trim_end_nul (c ∷ s) = keep_char c (trim_end_nul s)

unfoldable pub parse : List ℕ → Result (Option DelDirEntry)
unfolding u16_at u32_at trim_end_nul latin1_to_string
parse buf = if ltb (length buf) 32 then ok none else do
  anode ← u32_at buf 0
  if anode == 0 then ok none else (do
    fsize ← u32_at buf 4
    creation_day ← u16_at buf 8
    creation_minute ← u16_at buf 10
    creation_tick ← u16_at buf 12
    name ← slice buf 14 30
    fsizex ← u16_at buf 30
    ok (
        some (record {
          anode = anode;
          fsize = fsize;
          fsizex = fsizex;
          creation_day = creation_day;
          creation_minute = creation_minute;
          creation_tick = creation_tick;
          filename = trim_end_nul (latin1_to_string name);
        })))

unfoldable pub file_size : DelDirEntry → ℕ
file_size e = bit_or e.fsize (e.fsizex * 2 ^ 32)
