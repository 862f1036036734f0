-- ===== src/Writer/EntryBytes/RoundTrip.antt =====
-- About `build_dir_entry` of crates/libpfs3/src/writer.rs and `DirEntry::parse` of
-- crates/libpfs3/src/ondisk/direntry.rs.
use pfs.Prelude.{
  ℕ, ◌+◌, ◌-◌, ◌*◌, ◌/◌, ◌%◌, ◌^◌, ◌≤◌, ◌<◌, List, [], ◌∷◌, ◌++◌, false, ltb, leb, ◌==◌, ◌≡◌, refl,
  ◌∙◌, sym, ap, arith, length, take, length-append, read_at-append, take-append, min, bit_or, ◌||◌,
  bit_or-shifted, append-nil, some,
}
use pfs.Error.{Str, ok, Returns, returns, follow}
use pfs.Bytes.{index, slice}
use pfs.Bytes.Laws.{slice_eq}
use pfs.Ondisk.DirEntry
use pfs.Ondisk.DirEntry.{
  DirEntry, ExtraFields, no_extra, extra_field, extra_from, round_up_even, parse_extrafields,
  parse_comment, parse_raw,
}
use pfs.Util.Names.{as_bytes}
use pfs.Util.Names.Laws.{latin1-id, IsAscii, as_bytes-ascii}
use pfs.Writer.EntryBytes.{entry_size, build_dir_entry}
use pfs.Util.Dates.{current_amiga_datestamp}
use pfs.Writer.EntryBytes.Fields.{length-extra}
use pfs.Writer.EntryBytes.Layout.{
  build_dir_entry_eq, head, pad, extra, entry_bytes, length-head, length-zeros, entry_size_eq,
}
use pfs.Writer.EntryBytes.Parsed.{written, parse_raw_eq, entry_size-small}

-- The three parts of a datestamp are u16.
date_small :
    (now : ℕ)
    → let (day, minute, tick) = current_amiga_datestamp now in
      (day < 2 ^ 16) × (minute < 2 ^ 16) × (tick < 2 ^ 16)
unfolding current_amiga_datestamp
date_small now = (omega arith, omega arith, omega arith)

pub index_in_place :
    (before entry after : List ℕ)
    → 0 < length entry
    → index (before ++ (entry ++ after)) (length before) ≡ index entry 0
index_in_place [] [] after h = absurd (omega arith)
index_in_place [] (b ∷ entry) after h = refl
index_in_place (c ∷ before) entry after h = index_in_place before entry after h

-- An entry whose bytes stand between others parses in place.
parse_in_place :
    (before entry after : List ℕ) (e : DirEntry)
    → length entry < 256
    → 18 ≤ length entry
    → index entry 0 ≡ ok (length entry)
    → parse_raw entry ≡ ok e
    → DirEntry.parse (before ++ (entry ++ after)) (length before)
      ≡ ok (some (e, length before + length entry))
unfolding DirEntry.parse
parse_in_place before entry after e small long first parsed =
    let b = before ++ (entry ++ after) in
    let off = length before in
    let len : length b ≡ off + (length entry + length after) =
      omega (arith, length-append before (entry ++ after), length-append entry after) in
    let inside : leb (length b) off ≡ false = ground (arith, len) in
    let some_size : (length entry == 0) ≡ false = ground arith in
    let valid : (ltb (length b) (off + length entry) || ltb (length entry) 18) ≡ false =
      ground (arith, len) in
    let same : off + length entry - off ≡ length entry = omega arith in
    let sliced : slice b off (off + length entry) ≡ ok entry =
      slice_eq b off (off + length entry) (omega arith) (omega (arith, len))
      ∙ rw same (
          ap ok (
            read_at-append before (entry ++ after) off 0 (length entry) (omega arith)
            ∙ take-append entry after)) in
    rw inside (
      follow _ _ (index_in_place before entry after (omega arith) ∙ first)
        (rw (some_size, valid) (follow _ _ sliced (follow _ _ parsed refl))))

-- What the written entry is to the reader.
abbrev pub ReadsBack : ℕ → Str → ℕ → ℕ → ℕ → ℕ → List ℕ → Type 0
ReadsBack now name entry_type anode fsize protection entry =
    (before after : List ℕ)
    → (e : DirEntry) × (DirEntry.parse (before ++ (entry ++ after)) (length before)
        ≡ ok (some (e, length before + length entry)))
      × (e.name ≡ name)
      × (e.entry_type ≡ entry_type)
      × (e.anode ≡ anode)
      × (DirEntry.file_size e ≡ fsize)
      × (e.protection ≡ protection)
      × ((e.creation_day, e.creation_minute, e.creation_tick) ≡ current_amiga_datestamp now)
      × (e.comment ≡ [])

length-entry_bytes :
    (nm : List ℕ) (entry_type anode fsize protection : ℕ) (date : ℕ × ℕ × ℕ)
    → length (entry_bytes nm entry_type anode fsize protection date)
      ≡ entry_size (length nm) (ltb 0 (fsize / 2 ^ 32 % 2 ^ 16))
length-entry_bytes nm entry_type anode fsize protection date =
    let n = length nm in
    let fsizex = fsize / 2 ^ 32 % 2 ^ 16 in
    let h = head (entry_size n (ltb 0 fsizex)) entry_type anode fsize protection n date in
    omega (
      arith,
      length-append ((h ++ nm) ++ 0 ∷ pad n) (extra fsizex),
      length-append (h ++ nm) (0 ∷ pad n),
      length-append h nm,
      length-head (entry_size n (ltb 0 fsizex)) entry_type anode fsize protection n date,
      length-zeros ((19 + n) % 2),
      length-extra fsizex,
      entry_size_eq n (ltb 0 fsizex),
    )

index-entry_bytes :
    (nm : List ℕ) (entry_type anode fsize protection : ℕ) (date : ℕ × ℕ × ℕ)
    → index (entry_bytes nm entry_type anode fsize protection date) 0
      ≡ ok (entry_size (length nm) (ltb 0 (fsize / 2 ^ 32 % 2 ^ 16)) % 256)
unfolding head
index-entry_bytes nm entry_type anode fsize protection (day, minute, tick) = refl

ascii_name :
    (name : Str)
    → IsAscii name
    → length name ≤ 107
    → take (min (length (as_bytes name)) 107) (as_bytes name) ≡ name
ascii_name name ascii short =
    let all : min (length name) 107 ≡ length name = omega arith in
    rw (as_bytes-ascii name ascii, all)
      (ap (take (length name)) (sym (append-nil name)) ∙ take-append name [])

-- A directory entry for an ASCII name of at most 107 bytes, an anode number on 32 bits and a size
-- below 2^48 is built without a panic; between any other bytes the reader's parser finds it, gives the
-- offset behind it, and gives back the name, the type, the anode, the size, the protection, the
-- date of the clock and no comment.
pub build_dir_entry-ReadsBack :
    (now : ℕ) (name : Str) (entry_type anode fsize protection : ℕ)
    → IsAscii name
    → length name ≤ 107
    → anode < 2 ^ 32
    → fsize < 2 ^ 48
    → Returns
        (ReadsBack now name entry_type anode fsize protection)
        (build_dir_entry now name entry_type anode fsize protection)
unfolding DirEntry.file_size
build_dir_entry-ReadsBack now name entry_type anode fsize protection ascii short ha hf =
    let date = current_amiga_datestamp now in
    let (hd, hm, ht) = date_small now in
    let entry = entry_bytes name entry_type anode fsize protection date in
    let size = entry_size (length name) (ltb 0 (fsize / 2 ^ 32 % 2 ^ 16)) in
    let small : size < 256 =
      entry_size-small (length name) (ltb 0 (fsize / 2 ^ 32 % 2 ^ 16)) short in
    let len : length entry ≡ size =
      length-entry_bytes name entry_type anode fsize protection date in
    let long : 18 ≤ size =
      omega (arith, entry_size_eq (length name) (ltb 0 (fsize / 2 ^ 32 % 2 ^ 16))) in
    let byte : size % 256 ≡ length entry = omega (arith, len) in
    let built : build_dir_entry now name entry_type anode fsize protection ≡ ok entry =
      build_dir_entry_eq now name entry_type anode fsize protection
      ∙ ap (λ nm. ok (entry_bytes nm entry_type anode fsize protection date))
          (ascii_name name ascii short) in
    let sized : bit_or (fsize % 2 ^ 32) (fsize / 2 ^ 32 % 2 ^ 16 * 2 ^ 32) ≡ fsize =
      bit_or-shifted 32 (fsize % 2 ^ 32) (fsize / 2 ^ 32 % 2 ^ 16) (omega arith) ∙ omega arith in
    rw built (
      returns entry λ before after. (
        written name entry_type anode fsize protection date,
        parse_in_place before entry after (written name entry_type anode fsize protection date)
            (omega (arith, len)) (omega (arith, len))
            (index-entry_bytes name entry_type anode fsize protection date ∙ ap ok byte)
            (parse_raw_eq name entry_type anode fsize protection date.0 date.1 date.2 short ha hd hm
              ht),
        latin1-id name,
        refl,
        refl,
        sized,
        refl,
        refl,
        refl,
      ))
