-- ===== src/Examples/Reading.antt =====
-- The readers' theorems, and those of the helpers, at concrete inputs.
use pfs.Prelude.{
  ◌+◌, ◌-◌, ◌*◌, ◌≤◌, [], ◌∷◌, length, ◌≡◌, refl, arith, some, none, false, bit_and, bit_at,
  contains, ◌==◌, if◌then◌else◌,
}
use pfs.Error.{ok, Returns}
use pfs.Exec.{Ensures}
use pfs.Bytes.{zeros}
use pfs.Anode.{get_chain, max_chain_len}
use pfs.Anode.Laws.{IsLinked, AreNew, nrs, get_chain-IsChain}
use pfs.Cache.{read_reserved}
use pfs.Cache.Laws.{Shows, read_reserved-Shows}
use pfs.Dir.Block.{parse_dirblock_entries}
use pfs.Dir.Total.{parse_dirblock_entries-Returns}
use pfs.Ondisk.Constants.{dir_block_header_size}
use pfs.Ondisk.DirEntry.{parse}
use pfs.Ondisk.DirEntry.Bounds.{Advances, parse-Advances}
use pfs.Util.Dates.{days_to_ymd, amiga_to_systime, current_amiga_datestamp}
use pfs.Util.Dates.Laws.{next_day, days_to_ymd_calendar, amiga_to_systime-current}
use pfs.Util.Protection.{
  amiga_protection_to_mode, unix_mode_to_amiga_protection, amiga_protection_string,
  parse_amiga_protection,
}
use pfs.Util.Protection.Laws.{letters, parse-string, amiga_protection_to_mode-unix}
use pfs.Examples.Data.{memory, chain_env, small_anodes}

get_chain_example :
    Ensures
      (λ chain _. IsLinked 1 chain × AreNew [] (nrs chain) × (length chain ≤ max_chain_len))
      (get_chain memory small_anodes 1 chain_env)
get_chain_example = get_chain-IsChain memory small_anodes 1 chain_env

get_chain_run :
    (get_chain memory small_anodes 1 chain_env).0
    ≡ ok (record { clustersize = 4; blocknr = 100; next = 0; nr = 1 } ∷ [])
unfolding get_chain contains
get_chain_run = refl

read_reserved_example : Shows memory 3 40 chain_env (read_reserved memory 3 40 chain_env)
read_reserved_example =
    read_reserved-Shows memory 3 40 chain_env
      (record { shown = tt; bounded = omega arith; nonempty = omega arith })

parse_dirblock_entries_example :
    Returns
      (λ entries. length entries * 18 ≤ length (zeros 40) - dir_block_header_size)
      (parse_dirblock_entries (zeros 40))
parse_dirblock_entries_example = parse_dirblock_entries-Returns (zeros 40)

parse_example : Returns (Advances (18 ∷ zeros 30) 0) (parse (18 ∷ zeros 30) 0)
parse_example = parse-Advances (18 ∷ zeros 30) 0

days_to_ymd_example :
    (days_to_ymd 0 ≡ record { year = 1970; month = 1; day = 1 })
    × (days_to_ymd (11_016 + 1) ≡ next_day (days_to_ymd 11_016))
days_to_ymd_example = days_to_ymd_calendar 11_016 (omega arith)

amiga_to_systime_example :
    let s = current_amiga_datestamp 1_700_000_000 in
    amiga_to_systime s.0 s.1 s.2 ≡ record { secs = 1_700_000_000; nanos = 0 }
amiga_to_systime_example = amiga_to_systime-current 1_700_000_000 (omega arith) (omega arith)

parse-string_example :
    parse_amiga_protection 5 (letters (amiga_protection_string 0x41))
    ≡ (if 0x41 == 0x0F then none else some 0x41)
parse-string_example = parse-string 5 0x41 (omega arith)

amiga_protection_to_mode_example :
    bit_and (amiga_protection_to_mode (unix_mode_to_amiga_protection 0o750) false) 0o777
    ≡ bit_at 0o750 8 * 0o444 + bit_at 0o750 7 * 0o222 + bit_at 0o750 6 * 0o111
amiga_protection_to_mode_example = amiga_protection_to_mode-unix 0o750 false
