-- ===== src/Util/Dates.antt =====
-- The dates of crates/libpfs3/src/util.rs. A `SystemTime` is given by the seconds and nanoseconds
-- since 1970; it is never before that here, so `duration_since(UNIX_EPOCH)` succeeds.
pub mod Laws
use pfs.Prelude.{
  ℕ, zero, suc, ◌+◌, ◌-◌, ◌*◌, ◌/◌, ◌%◌, ◌^◌, List, [], ◌∷◌, ◌++◌, ltb, leb, ◌==◌, if◌then◌else◌,
  length, replicate,
}
use pfs.Error.{Str}

abbrev pub amiga_epoch_offset : ℕ
amiga_epoch_offset = 2922 * 86400

pub record SystemTime : Type 0 where
  pub secs : ℕ
  pub nanos : ℕ

unfoldable pub amiga_to_systime : ℕ → ℕ → ℕ → SystemTime
amiga_to_systime days minutes ticks = record {
  secs = amiga_epoch_offset + days * 86400 + minutes * 60 + ticks / 50;
  nanos = ticks % 50 * 20_000_000;
}

pub record Date : Type 0 where
  pub year : ℕ
  pub month : ℕ
  pub day : ℕ

unfoldable pub days_to_ymd : ℕ → Date
days_to_ymd days =
    let z = (days + 719_468) % 2 ^ 32 in
    let era = z / 146_097 in
    let doe = z - era * 146_097 in
    let yoe = (doe - doe / 1_460 + doe / 36_524 - doe / 146_096) / 365 in
    let y = yoe + era * 400 in
    let doy = doe - (365 * yoe + yoe / 4 - yoe / 100) in
    let mp = (5 * doy + 2) / 153 in
    let d = doy - (153 * mp + 2) / 5 + 1 in
    let m = if ltb mp 10 then mp + 3 else mp - 9 in
    let y = if leb m 2 then y + 1 else y in record { year = y; month = m; day = d }

-- The decimal digits of a number below `10 ^ fuel`.
abbrev pub decimal : ℕ → ℕ → Str
decimal zero n = []
decimal (suc fuel) n =
    let rest = decimal fuel (n / 10) in (if ltb n 10 then [] else rest) ++ (b'0' + n % 10) ∷ []

-- `{n:0width}` for a u32 or a smaller number.
abbrev pub padded : ℕ → ℕ → Str
padded width n = let digits = decimal 10 n in replicate (width - length digits) b'0' ++ digits

unfoldable pub amiga_date_string : ℕ → ℕ → ℕ → Str
unfolding amiga_to_systime days_to_ymd
amiga_date_string days minutes ticks =
    let t = amiga_to_systime days minutes ticks in
    let secs = t.secs in
    let time_of_day = secs % 86400 in
    let hours = time_of_day / 3600 in
    let mins = time_of_day % 3600 / 60 in
    let s = time_of_day % 60 in
    let date = days_to_ymd (secs / 86400 % 2 ^ 32) in
    padded 4 date.year
    ++ b'-' ∷ padded 2 date.month
    ++ b'-' ∷ padded 2 date.day
    ++ b' ' ∷ padded 2 hours
    ++ b':' ∷ padded 2 mins
    ++ b':' ∷ padded 2 s

-- `now` is what `SystemTime::now` gives: the seconds since 1970, 0 for a clock before that.
unfoldable pub current_amiga_datestamp : ℕ → ℕ × ℕ × ℕ
current_amiga_datestamp now =
    let amiga_secs = now - amiga_epoch_offset in
    (amiga_secs / 86400 % 2 ^ 16, amiga_secs % 86400 / 60 % 2 ^ 16, amiga_secs % 60 * 50 % 2 ^ 16)
