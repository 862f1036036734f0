-- ===== src/Util/Dates/Laws.antt =====
-- About the dates of crates/libpfs3/src/util.rs: the calendar and datestamps.
use pfs.Prelude.{
  ℕ, ◌+◌, ◌-◌, ◌*◌, ◌%◌, ◌≤◌, ◌<◌, Bool, true, ◌&&◌, ◌||◌, not, ◌≡◌, refl, ◌==◌, ltb, ltb→lt,
  if◌then◌else◌, arith, Bool-cases, inl, inr, all_below, all_below_sound,
}
use pfs.Util.Dates.{
  Date, amiga_epoch_offset, amiga_to_systime, days_to_ymd, current_amiga_datestamp,
}

abbrev pub is_leap : ℕ → Bool
is_leap y = (y % 4 == 0) && (not (y % 100 == 0) || (y % 400 == 0))

abbrev pub month_length : ℕ → ℕ → ℕ
month_length y m =
    if m == 2
    then (if is_leap y then 29 else 28)
    else if (m == 4) || (m == 6) || (m == 9) || (m == 11)
    then 30
    else 31

-- The day after, by the rules of the calendar.
pub next_day : Date → Date
next_day d =
    if ltb d.day (month_length d.year d.month)
    then record d { day = d.day + 1 }
    else if ltb d.month 12
    then record d { month = d.month + 1; day = 1 }
    else record { year = d.year + 1; month = 1; day = 1 }

abbrev same_date : Date → Date → Bool
same_date a b = (a.year == b.year) && (a.month == b.month) && (a.day == b.day)

same_date_sound : (a b : Date) → same_date a b ≡ true → a ≡ b
same_date_sound a b h = ground arith

abbrev follows : ℕ → Bool
follows n = same_date (days_to_ymd (n + 1)) (next_day (days_to_ymd n))

calendar_table0 : all_below 23_000 follows ≡ true
unfolding all_below days_to_ymd next_day
calendar_table0 = refl

calendar_table1 : all_below 23_000 (λ n. follows (23_000 + n)) ≡ true
unfolding all_below days_to_ymd next_day
calendar_table1 = refl

calendar_table2 : all_below 23_000 (λ n. follows (46_000 + n)) ≡ true
unfolding all_below days_to_ymd next_day
calendar_table2 = refl

shifted_follows :
    (base n : ℕ)
    → all_below 23_000 (λ k. follows (base + k)) ≡ true
    → base ≤ n
    → n < base + 23_000
    → follows n ≡ true
shifted_follows base n table lo hi =
    let e : base + (n - base) ≡ n = omega arith in
    rw e at (all_below_sound 23_000 (λ k. follows (base + k)) (n - base) table (omega arith))

follows_all : (n : ℕ) → n < 69_000 → follows n ≡ true
follows_all n h = elim (Bool-cases (ltb n 23_000)) [
  | inl p ↦ all_below_sound 23_000 follows n calendar_table0 (omega (arith, ltb→lt n 23_000))
  | inr p ↦ elim (Bool-cases (ltb n 46_000)) [
    | inl q ↦ shifted_follows 23_000 n calendar_table1 (ground arith) (ground arith)
    | inr q ↦ shifted_follows 46_000 n calendar_table2 (ground arith) (ground arith)
  ]
]

-- Day 0 is 1970-01-01, and each later day, up to the last that a datestamp can give (day 68502,
-- in July 2157), is the day after the one before by the rules of the Gregorian calendar.
pub days_to_ymd_calendar :
    (n : ℕ)
    → n < 69_000
    → (days_to_ymd 0 ≡ record { year = 1970; month = 1; day = 1 })
      × (days_to_ymd (n + 1) ≡ next_day (days_to_ymd n))
days_to_ymd_calendar n h = (unfold days_to_ymd in refl, same_date_sound _ _ (follows_all n h))

-- A datestamp taken from the clock, from the start of 1978 on and before 65536 days later, stands for
-- the second at which it was taken.
pub amiga_to_systime-current :
    (now : ℕ)
    → amiga_epoch_offset ≤ now
    → now < amiga_epoch_offset + 65536 * 86400
    → let s = current_amiga_datestamp now in
      amiga_to_systime s.0 s.1 s.2 ≡ record { secs = now; nanos = 0 }
amiga_to_systime-current now lo hi = unfold amiga_to_systime current_amiga_datestamp in ground arith
