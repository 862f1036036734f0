-- ===== src/Writer/EntryBytes/Fields.antt =====
-- What the reader of ondisk/direntry.rs finds behind the head of a written entry: the name, an empty
-- comment and the extra fields.
use pfs.Prelude.{
  ℕ, ◌+◌, ◌-◌, ◌%◌, ◌^◌, ◌≤◌, ◌<◌, List, [], ◌∷◌, ◌++◌, true, false, ltb, leb, if◌then◌else◌, ◌≡◌,
  refl, ◌∙◌, sym, ap, arith, length, get_elem?, read_at, lt→ltb, le→leb, length-append,
  read_at-append, get_elem?-append, take-append, some, Bool-cases, inl, inr,
}
use pfs.Error.{ok, follow}
use pfs.Bytes.{be16, index, from_be, u16_at}
use pfs.Bytes.Laws.{u16_at_eq}
use pfs.Ondisk.DirEntry.{
  no_extra, extra_field, extra_from, round_up_even, parse_extrafields, parse_comment,
}
use pfs.Util.Names.{latin1_to_string}
use pfs.Writer.EntryBytes.Layout.{pad, extra, length-zeros, round_up_even_eq}

index-some : (buf : List ℕ) (i b : ℕ) → get_elem? buf i ≡ some b → index buf i ≡ ok b
index-some buf i b e = rw (e, index) refl

-- An empty comment.
pub parse_comment_empty :
    (buf : List ℕ) (off : ℕ)
    → off < length buf
    → index buf off ≡ ok 0
    → parse_comment buf off ≡ ok []
unfolding parse_comment latin1_to_string
parse_comment_empty buf off lt e =
    let stay : off + 1 + 0 ≡ off + 1 = omega arith in
    let none_left : off + 1 - (off + 1) ≡ 0 = omega arith in
    rw
      (
        lt→ltb off (length buf) lt,
        e,
        stay,
        le→leb (off + 1) (length buf) (omega arith),
        le→leb (off + 1) (off + 1) (omega arith),
        none_left,
      )
      refl

-- The extra fields behind an empty comment.
parse_extrafields_at :
    (buf : List ℕ) (nlength at : ℕ)
    → 18 + nlength < length buf
    → index buf (18 + nlength) ≡ ok 0
    → at ≡ round_up_even (18 + nlength + 1)
    → at + 2 ≤ length buf
    → parse_extrafields buf nlength ≡ extra_from buf at
unfolding parse_extrafields
parse_extrafields_at buf nlength at lt e here fits =
    let beyond : leb (length buf) (18 + nlength) ≡ false = ground arith in
    let plus : 18 + nlength + 1 + 0 ≡ 18 + nlength + 1 = omega arith in
    let same : round_up_even (18 + nlength + 1 + 0) ≡ at = rw plus (sym here) in
    let room : ltb (length buf) (at + 2) ≡ false = ground arith in
    rw beyond (follow _ _ e (rw (same, room) refl))

extra_from-none : (buf : List ℕ) (at : ℕ) → u16_at buf at ≡ ok 0 → extra_from buf at ≡ ok no_extra
unfolding extra_from extra_field
extra_from-none buf at e = follow _ _ e refl

extra_field_present :
    (buf : List ℕ) (pos : ℕ)
    → pos + 2 ≤ length buf
    → extra_field buf 0x0040 0x0040 2 pos ≡ ok (from_be (read_at buf pos 2), pos + 2)
unfolding extra_field
extra_field_present buf pos h =
    let two : pos + 2 - pos ≡ 2 = omega arith in
    rw (le→leb pos (pos + 2) (omega arith), le→leb (pos + 2) (length buf) h, two) refl

extra_from-fsizex :
    (buf : List ℕ) (at : ℕ)
    → u16_at buf at ≡ ok 0x0040
    → at + 4 ≤ length buf
    → extra_from buf at ≡ ok (record no_extra { fsizex = from_be (read_at buf (at + 2) 2) })
unfolding extra_from extra_field
extra_from-fsizex buf at e fits =
    follow _ _ e (follow _ _ (extra_field_present buf (at + 2) (omega arith)) refl)

-- Behind a head: the name, the empty comment, the padding and the extra fields.
module _ (h nm ex : List ℕ) (sized : length h ≡ 18) where
  abbrev pub behind : List ℕ
  behind = 0 ∷ pad (length nm) ++ ex

  abbrev pub raw : List ℕ
  raw = h ++ (nm ++ behind)

  pub length-raw : length raw ≡ 18 + (length nm + (1 + ((19 + length nm) % 2 + length ex)))
  length-raw = omega (
    arith,
    length-append h (nm ++ behind),
    length-append nm behind,
    length-append (pad (length nm)) ex,
    length-zeros ((19 + length nm) % 2),
    sized,
  )

  -- What stands `k` bytes behind the name.
  read_behind : (k m : ℕ) → read_at raw (18 + length nm + k) m ≡ read_at behind k m
  read_behind k m =
      read_at-append h (nm ++ behind) (18 + length nm + k) (length nm + k) m (omega (arith, sized))
      ∙ read_at-append nm behind (length nm + k) k m refl

  pub index_comment : index raw (18 + length nm) ≡ ok 0
  index_comment =
      let e : get_elem? raw (18 + length nm) ≡ some 0 =
        get_elem?-append h (nm ++ behind) (18 + length nm) (length nm) (omega (arith, sized))
        ∙ get_elem?-append nm behind (length nm) 0 (omega arith) in
      index-some raw (18 + length nm) 0 e

  -- What stands `k` bytes behind the padding.
  read_extra :
      (k m at : ℕ)
      → at ≡ 18 + length nm + (1 + (19 + length nm) % 2 + k)
      → read_at raw at m ≡ read_at ex k m
  read_extra k m at e =
      let p : ℕ = 1 + (19 + length nm) % 2 in
      let eq : at ≡ 18 + length nm + (p + k) = omega (arith, e) in
      rw eq (
        read_behind (p + k) m
        ∙ read_at-append (0 ∷ pad (length nm)) ex (p + k) k m
            (omega (arith, length-zeros ((19 + length nm) % 2))))

  pub read_name : read_at raw 18 (length nm) ≡ nm
  read_name =
      read_at-append h (nm ++ behind) 18 0 (length nm) (omega (arith, sized))
      ∙ take-append nm behind

-- The extra fields of a written entry.
pub length-extra : (fsizex : ℕ) → length (extra fsizex) ≡ (if ltb 0 fsizex then 4 else 2)
unfolding be16
length-extra fsizex = ground arith

read_extra_flags :
    (fsizex : ℕ) → from_be (read_at (extra fsizex) 0 2) ≡ (if ltb 0 fsizex then 0x0040 else 0)
unfolding be16 from_be
read_extra_flags fsizex = elim (Bool-cases (ltb 0 fsizex)) [ inl e ↦ rw e refl | inr e ↦ rw e refl ]

read_extra_size :
    (fsizex : ℕ)
    → ltb 0 fsizex ≡ true
    → fsizex < 2 ^ 16
    → from_be (read_at (extra fsizex) 2 2) ≡ fsizex
unfolding be16 from_be
read_extra_size fsizex e small = rw e (omega arith)

abbrev flags_of : ℕ → ℕ
flags_of fsizex = if ltb 0 fsizex then 0x0040 else 0

set_flag : (fsizex : ℕ) → ltb 0 fsizex ≡ true → flags_of fsizex ≡ 0x0040
set_flag fsizex e = rw e refl

no_flag : (fsizex : ℕ) → ltb 0 fsizex ≡ false → flags_of fsizex ≡ 0
no_flag fsizex e = rw e refl

module _ (h nm : List ℕ) (fsizex : ℕ) (sized : length h ≡ 18) (small : fsizex < 2 ^ 16) where
  pub parse_extrafields_eq :
      parse_extrafields (raw h nm (extra fsizex) sized) (length nm)
      ≡ ok (record no_extra { fsizex = fsizex })
  parse_extrafields_eq =
      let buf = raw h nm (extra fsizex) sized in
      let n = length nm in
      let at = 18 + n + (1 + (19 + n) % 2 + 0) in
      let len = length-raw h nm (extra fsizex) sized in
      let le = length-extra fsizex in
      let here : at ≡ round_up_even (18 + n + 1) = omega (arith, round_up_even_eq (18 + n + 1)) in
      let flags : u16_at buf at ≡ ok (flags_of fsizex) =
        u16_at_eq buf at (ground (arith, len, le))
        ∙ ap ok (
            ap from_be (read_extra h nm (extra fsizex) sized 0 2 at refl)
            ∙ read_extra_flags fsizex) in
      parse_extrafields_at buf n at (omega (arith, len)) (index_comment h nm (extra fsizex) sized)
        here (ground (arith, len, le))
      ∙ elim (Bool-cases (ltb 0 fsizex)) [
        | inl e ↦
            extra_from-fsizex buf at (flags ∙ ap ok (set_flag fsizex e)) (ground (arith, len, le))
            ∙ ap (λ v. ok (record no_extra { fsizex = v }))
                (ap from_be (read_extra h nm (extra fsizex) sized 2 2 (at + 2) (omega arith))
                  ∙ read_extra_size fsizex e small)
        | inr e ↦
            let z : fsizex ≡ 0 = ground arith in
            extra_from-none buf at (flags ∙ ap ok (no_flag fsizex e)) ∙ rw z refl
      ]
