-- ===== src/Writer/EntryBytes/Parsed.antt =====
-- The bytes of a written entry, read by `DirEntry::parse` of ondisk/direntry.rs.
use pfs.Prelude.{
  ℕ, ◌+◌, ◌-◌, ◌/◌, ◌%◌, ◌^◌, ◌≤◌, ◌<◌, List, [], ◌∷◌, ◌++◌, Bool, true, false, ltb, ◌≡◌, refl, ◌∙◌,
  ap, arith, length, read_at, length-append, append_assoc, min,
}
use pfs.Error.{ok, follow}
use pfs.Bytes.{be16, be32, index, slice, from_be}
use pfs.Bytes.Laws.{u16_at_eq, u32_at_eq, slice_eq}
use pfs.Ondisk.DirEntry.{
  DirEntry, ExtraFields, no_extra, parse_extrafields, parse_comment, parse_raw,
}
use pfs.Util.Names.{latin1_to_string}
use pfs.Writer.EntryBytes.{entry_size}
use pfs.Writer.EntryBytes.Fields.{
  behind, raw, length-raw, read_name, index_comment, parse_comment_empty, parse_extrafields_eq,
}
use pfs.Writer.EntryBytes.Layout.{head, pad, extra, entry_bytes, length-head, entry_size_eq}

-- The entry as it should read back.
abbrev pub written : List ℕ → ℕ → ℕ → ℕ → ℕ → ℕ × ℕ × ℕ → DirEntry
written nm entry_type anode fsize protection (day, minute, tick) = record {
  entry_size = entry_size (length nm) (ltb 0 (fsize / 2 ^ 32 % 2 ^ 16));
  entry_type = entry_type;
  anode = anode;
  fsize = fsize % 2 ^ 32;
  creation_day = day;
  creation_minute = minute;
  creation_tick = tick;
  protection = protection;
  name = latin1_to_string nm;
  comment = [];
  extra = record no_extra { fsizex = fsize / 2 ^ 32 % 2 ^ 16 };
}

-- What stands in a head.
module _ (size entry_type anode fsize protection n day minute tick : ℕ) (rest : List ℕ) where
  abbrev headed : List ℕ
  headed = head size entry_type anode fsize protection n (day, minute, tick) ++ rest

  length-headed : length headed ≡ 18 + length rest
  length-headed = omega (
    arith,
    length-append (head size entry_type anode fsize protection n (day, minute, tick)) rest,
    length-head size entry_type anode fsize protection n (day, minute, tick),
  )

  head_bytes :
      (index headed 0 ≡ ok (size % 256))
      × (index headed 1 ≡ ok entry_type)
      × (index headed 16 ≡ ok protection)
      × (index headed 17 ≡ ok n)
  unfolding head be32 be16
  head_bytes = (refl, refl, refl, refl)

  head_anode : anode < 2 ^ 32 → from_be (read_at headed 2 4) ≡ anode
  unfolding head be32 be16 from_be
  head_anode h = omega arith

  head_fsize : from_be (read_at headed 6 4) ≡ fsize % 2 ^ 32
  unfolding head be32 be16 from_be
  head_fsize = omega arith

  head_day : day < 2 ^ 16 → from_be (read_at headed 10 2) ≡ day
  unfolding head be32 be16 from_be
  head_day h = omega arith

  head_minute : minute < 2 ^ 16 → from_be (read_at headed 12 2) ≡ minute
  unfolding head be32 be16 from_be
  head_minute h = omega arith

  head_tick : tick < 2 ^ 16 → from_be (read_at headed 14 2) ≡ tick
  unfolding head be32 be16 from_be
  head_tick h = omega arith

  parse_raw-headed :
      (nm : List ℕ) (x : ExtraFields)
      → size < 256
      → anode < 2 ^ 32
      → day < 2 ^ 16
      → minute < 2 ^ 16
      → tick < 2 ^ 16
      → n ≤ length rest
      → read_at headed 18 n ≡ nm
      → parse_comment headed (18 + n) ≡ ok []
      → parse_extrafields headed n ≡ ok x
      → parse_raw headed
        ≡ ok (record {
          entry_size = size;
          entry_type = entry_type;
          anode = anode;
          fsize = fsize % 2 ^ 32;
          creation_day = day;
          creation_minute = minute;
          creation_tick = tick;
          protection = protection;
          name = latin1_to_string nm;
          comment = [];
          extra = x;
        })
  unfolding parse_raw
  parse_raw-headed nm x hs ha hd hm ht fits name comment fields =
      let len = length-headed in
      let (b0, b1, b16, b17) = head_bytes in
      let size' : size % 256 ≡ size = omega arith in
      let upto : min (18 + n) (length headed) ≡ 18 + n = omega (arith, len) in
      let n' : 18 + n - 18 ≡ n = omega arith in
      let named : slice headed 18 (min (18 + n) (length headed)) ≡ ok nm =
        rw upto
          (slice_eq headed 18 (18 + n) (omega arith) (omega (arith, len)) ∙ rw n' (ap ok name)) in
      follow _ _ (b0 ∙ ap ok size') (
        follow _ _ b1 (
          follow _ _ (u32_at_eq headed 2 (omega (arith, len)) ∙ ap ok (head_anode ha)) (
            follow _ _ (u32_at_eq headed 6 (omega (arith, len)) ∙ ap ok head_fsize) (
              follow _ _ (u16_at_eq headed 10 (omega (arith, len)) ∙ ap ok (head_day hd)) (
                follow _ _ (u16_at_eq headed 12 (omega (arith, len)) ∙ ap ok (head_minute hm)) (
                  follow _ _ (u16_at_eq headed 14 (omega (arith, len)) ∙ ap ok (head_tick ht)) (
                    follow _ _ b16 (
                      follow _ _ b17
                        (follow _ _ named (follow _ _ comment (follow _ _ fields refl)))))))))))

pub entry_size-small : (n : ℕ) (b : Bool) → n ≤ 107 → entry_size n b < 256
entry_size-small n true h = omega (arith, entry_size_eq n true)
entry_size-small n false h = omega (arith, entry_size_eq n false)

pub parse_raw_eq :
    (nm : List ℕ) (entry_type anode fsize protection day minute tick : ℕ)
    → length nm ≤ 107
    → anode < 2 ^ 32
    → day < 2 ^ 16
    → minute < 2 ^ 16
    → tick < 2 ^ 16
    → parse_raw (entry_bytes nm entry_type anode fsize protection (day, minute, tick))
      ≡ ok (written nm entry_type anode fsize protection (day, minute, tick))
parse_raw_eq nm entry_type anode fsize protection day minute tick short ha hd hm ht =
    let n = length nm in
    let fsizex = fsize / 2 ^ 32 % 2 ^ 16 in
    let size = entry_size n (ltb 0 fsizex) in
    let h = head size entry_type anode fsize protection n (day, minute, tick) in
    let sized = length-head size entry_type anode fsize protection n (day, minute, tick) in
    let buf = raw h nm (extra fsizex) sized in
    let assoc : entry_bytes nm entry_type anode fsize protection (day, minute, tick) ≡ buf =
      rw
        (
          append_assoc (h ++ nm) (0 ∷ pad n) (extra fsizex),
          append_assoc h nm (0 ∷ pad n ++ extra fsizex),
        )
        refl in
    let len = length-raw h nm (extra fsizex) sized in
    rw assoc (
      parse_raw-headed size entry_type anode fsize protection n day minute tick
        (nm ++ behind h nm (extra fsizex) sized) nm (record no_extra { fsizex = fsizex })
        (entry_size-small n (ltb 0 fsizex) short) ha hd hm ht
        (omega (arith, length-append nm (behind h nm (extra fsizex) sized)))
        (read_name h nm (extra fsizex) sized)
        (parse_comment_empty buf (18 + n) (omega (arith, len))
          (index_comment h nm (extra fsizex) sized))
        (parse_extrafields_eq h nm fsizex sized (omega arith)))
