-- ===== src/Bytes/Fields/Laws.antt =====
-- About sequences of field writes.
use pfs.Prelude.{
  get_or, ℕ, zero, suc, ◌+◌, ◌^◌, ◌≤◌, ◌<◌, List, [], ◌∷◌, ◌≡◌, refl, ap, ◌∙◌, Bool, true, false,
  ◌&&◌, ◌||◌, leb, ◌==◌, if◌then◌else◌, Option, none, some, length, read_at, write_at, set, arith,
  le→leb, lt→ltb, leb→le, length-write_at, read_at-write_at_self, read_at-write_at_before,
  read_at-write_at_after,
}
use pfs.Prelude.{◌⊎◌, inl, inr}
use pfs.Error.{ok, follow}
use pfs.Bytes.{zeros, be16, be32, from_be, u16_at, u32_at}
use pfs.Bytes.Laws.{u16_at_eq, u32_at_eq, from_be-be16, from_be-be32, put_u32_eq, put_u16_eq}
use pfs.Bytes.Fields.{Field, put32, put16, put8, put_slice, put_field, put_fields}

abbrev pub offset : Field → ℕ
offset (put32 off v) = off
offset (put16 off v) = off
offset (put8 off v) = off
offset (put_slice off s) = off

unfoldable pub content : Field → List ℕ
unfolding be32 be16
content (put32 off v) = be32 v
content (put16 off v) = be16 v
content (put8 off v) = v ∷ []
content (put_slice off s) = s

-- The length of the content.
abbrev pub width : Field → ℕ
width (put32 off v) = 4
width (put16 off v) = 2
width (put8 off v) = 1
width (put_slice off s) = length s

length-content : (f : Field) → length (content f) ≡ width f
unfolding content be32 be16
length-content (put32 off v) = refl
length-content (put16 off v) = refl
length-content (put8 off v) = refl
length-content (put_slice off s) = refl

-- The buffer after the writes, where all fit.
unfoldable pub written : List ℕ → List Field → List ℕ
unfolding content
written buf [] = buf
written buf (f ∷ fs) = written (write_at buf (offset f) (content f)) fs

-- All fields end at `hi` or before.
abbrev pub all_within : ℕ → List Field → Bool
all_within hi [] = true
all_within hi (f ∷ fs) = leb (offset f + width f) hi && all_within hi fs

-- All fields lie from `lo` on.
abbrev pub all_from : ℕ → List Field → Bool
all_from lo [] = true
all_from lo (f ∷ fs) = leb lo (offset f) && all_from lo fs

set-write_at : (buf : List ℕ) (i v : ℕ) → set buf i v ≡ write_at buf i (v ∷ [])
set-write_at [] zero v = refl
set-write_at [] (suc i) v = refl
set-write_at (b ∷ []) zero v = refl
set-write_at (b ∷ c ∷ buf) zero v = refl
set-write_at (b ∷ buf) (suc i) v = ap (λ l. b ∷ l) (set-write_at buf i v)

put_field_eq :
    (buf : List ℕ) (f : Field)
    → offset f + width f ≤ length buf
    → put_field buf f ≡ ok (write_at buf (offset f) (content f))
unfolding content put_field
put_field_eq buf (put32 off v) h = put_u32_eq buf off v h
put_field_eq buf (put16 off v) h = put_u16_eq buf off v h
put_field_eq buf (put8 off v) h =
    rw (lt→ltb off (length buf) (omega arith)) (ap ok (set-write_at buf off v))
put_field_eq buf (put_slice off s) h = rw (le→leb (off + length s) (length buf) h) refl

all_within-head :
    (hi : ℕ) (f : Field) (fs : List Field)
    → all_within hi (f ∷ fs) ≡ true
    → (offset f + width f ≤ hi) × (all_within hi fs ≡ true)
all_within-head hi f fs h = ground arith

all_from-head :
    (lo : ℕ) (f : Field) (fs : List Field)
    → all_from lo (f ∷ fs) ≡ true
    → (lo ≤ offset f) × (all_from lo fs ≡ true)
all_from-head lo f fs h = ground arith

-- Writes that fit succeed.
pub put_fields_eq :
    (buf : List ℕ) (fs : List Field) (hi : ℕ)
    → all_within hi fs ≡ true
    → hi ≤ length buf
    → put_fields buf fs ≡ ok (written buf fs)
unfolding put_fields written
put_fields_eq buf [] hi h k = refl
put_fields_eq buf (f ∷ fs) hi h k =
    let (here, rest) = all_within-head hi f fs h in
    let buf' = write_at buf (offset f) (content f) in
    follow _ _ (put_field_eq buf f (omega arith))
      (put_fields_eq buf' fs hi rest (omega (arith, length-write_at buf (offset f) (content f))))

pub length-written : (buf : List ℕ) (fs : List Field) → length (written buf fs) ≡ length buf
unfolding written
length-written buf [] = refl
length-written buf (f ∷ fs) =
    length-written (write_at buf (offset f) (content f)) fs
    ∙ length-write_at buf (offset f) (content f)

-- What lies before all the fields stays.
pub written-before :
    (buf : List ℕ) (fs : List Field) (lo at n : ℕ)
    → all_from lo fs ≡ true
    → at + n ≤ lo
    → read_at (written buf fs) at n ≡ read_at buf at n
unfolding written
written-before buf [] lo at n h k = refl
written-before buf (f ∷ fs) lo at n h k =
    let (here, rest) = all_from-head lo f fs h in
    written-before (write_at buf (offset f) (content f)) fs lo at n rest k
    ∙ read_at-write_at_before buf (offset f) at n (content f) (omega arith)

-- What lies behind all the fields stays.
pub written-after :
    (buf : List ℕ) (fs : List Field) (hi at n : ℕ)
    → all_within hi fs ≡ true
    → hi ≤ at
    → read_at (written buf fs) at n ≡ read_at buf at n
unfolding written
written-after buf [] hi at n h k = refl
written-after buf (f ∷ fs) hi at n h k =
    let (here, rest) = all_within-head hi f fs h in
    written-after (write_at buf (offset f) (content f)) fs hi at n rest k
    ∙ read_at-write_at_after buf (offset f) at n (content f) (omega (arith, length-content f))

-- What the `n` bytes at `at` are known to hold after one more write.
abbrev known_after : Field → ℕ → ℕ → Option (List ℕ) → Option (List ℕ)
unfolding content
known_after f at n cur =
    if offset f == at && width f == n
    then some (content f)
    else if leb (offset f + width f) at || leb (at + n) (offset f)
    then cur
    else none

-- What the `n` bytes at `at` hold after the writes, as far as the fields tell.
unfoldable pub field_at : List Field → ℕ → ℕ → Option (List ℕ) → Option (List ℕ)
unfolding content
field_at [] at n cur = cur
field_at (f ∷ fs) at n cur = field_at fs at n (known_after f at n cur)

abbrev Known : Option (List ℕ) → List ℕ → Type 0
Known none s = Unit
Known (some c) s = s ≡ c

Known-if :
    (b c : Bool) (cur : Option (List ℕ)) (x s : List ℕ)
    → (b ≡ true → s ≡ x)
    → (c ≡ true → Known cur s)
    → Known (if b then some x else if c then cur else none) s
Known-if true c cur x s h k = h refl
Known-if false true cur x s h k = k refl
Known-if false false cur x s h k = tt

Known-same : (cur : Option (List ℕ)) (s t : List ℕ) → s ≡ t → Known cur t → Known cur s
Known-same none s t e h = tt
Known-same (some c) s t e h = e ∙ h

same_place : (o w at n : ℕ) → (o == at && w == n) ≡ true → (at ≡ o) × (n ≡ w)
same_place o w at n h = ground arith

same_field :
    (buf : List ℕ) (f : Field) (at n : ℕ)
    → offset f + width f ≤ length buf
    → (offset f == at && width f == n) ≡ true
    → read_at (write_at buf (offset f) (content f)) at n ≡ content f
same_field buf f at n fits e =
    let (ea, en) = same_place (offset f) (width f) at n e in
    let en : n ≡ length (content f) = omega (arith, length-content f) in
    rw (ea, en) (read_at-write_at_self buf (offset f) (content f) (omega (arith, length-content f)))

apart : (x y : ℕ) (b : Bool) → (leb x y || b) ≡ true → (x ≤ y) ⊎ (b ≡ true)
apart x y b h = ground arith

other_field :
    (buf : List ℕ) (f : Field) (at n : ℕ)
    → (leb (offset f + width f) at || leb (at + n) (offset f)) ≡ true
    → read_at (write_at buf (offset f) (content f)) at n ≡ read_at buf at n
other_field buf f at n e = elim (apart (offset f + width f) at _ e) [
  | inl before ↦
      read_at-write_at_after buf (offset f) at n (content f) (omega (arith, length-content f))
  | inr behind ↦ read_at-write_at_before buf (offset f) at n (content f) (leb→le _ _ behind)
]

known_after-Known :
    (buf : List ℕ) (f : Field) (at n : ℕ) (cur : Option (List ℕ))
    → offset f + width f ≤ length buf
    → Known cur (read_at buf at n)
    → Known (known_after f at n cur) (read_at (write_at buf (offset f) (content f)) at n)
unfolding known_after
known_after-Known buf f at n cur fits h =
    Known-if (offset f == at && width f == n)
      (leb (offset f + width f) at || leb (at + n) (offset f)) cur (content f) _
      (λ e. same_field buf f at n fits e) (λ e. Known-same cur _ _ (other_field buf f at n e) h)

pub field_at-Known :
    (buf : List ℕ) (fs : List Field) (hi at n : ℕ) (cur : Option (List ℕ))
    → all_within hi fs ≡ true
    → hi ≤ length buf
    → Known cur (read_at buf at n)
    → Known (field_at fs at n cur) (read_at (written buf fs) at n)
unfolding field_at written
field_at-Known buf [] hi at n cur h k e = e
field_at-Known buf (f ∷ fs) hi at n cur h k e =
    let (here, rest) = all_within-head hi f fs h in
    field_at-Known (write_at buf (offset f) (content f)) fs hi at n (known_after f at n cur) rest
      (omega (arith, length-write_at buf (offset f) (content f)))
      (known_after-Known buf f at n cur (omega arith) e)

-- A field that no later one touches reads back.
pub written_self :
    (buf : List ℕ) (fs : List Field) (hi at n : ℕ) {s : List ℕ}
    → all_within hi fs ≡ true
    → hi ≤ length buf
    → field_at fs at n none ≡ some s
    → read_at (written buf fs) at n ≡ s
written_self buf fs hi at n h k e = rw e at (field_at-Known buf fs hi at n none h k tt)

-- The reads that the parsers use, of a field that no later one touches.
module _ (buf : List ℕ) (fs : List Field) (hi : ℕ) (h : all_within hi fs ≡ true)
    (k : hi ≤ length buf) where
  pub u32_written :
      (at v : ℕ)
      → field_at fs at 4 none ≡ some (be32 v)
      → v < 2 ^ 32
      → at + 4 ≤ hi
      → u32_at (written buf fs) at ≡ ok v
  u32_written at v e lt room =
      u32_at_eq (written buf fs) at (omega (arith, length-written buf fs))
      ∙ ap ok (ap from_be (written_self buf fs hi at 4 h k e) ∙ from_be-be32 v lt)

  pub u16_written :
      (at v : ℕ)
      → field_at fs at 2 none ≡ some (be16 v)
      → v < 2 ^ 16
      → at + 2 ≤ hi
      → u16_at (written buf fs) at ≡ ok v
  u16_written at v e lt room =
      u16_at_eq (written buf fs) at (omega (arith, length-written buf fs))
      ∙ ap ok (ap from_be (written_self buf fs hi at 2 h k e) ∙ from_be-be16 v lt)

  -- What the buffer held where no field touches it.
  pub written-kept :
      (at n : ℕ) {s : List ℕ}
      → field_at fs at n (some s) ≡ some s
      → read_at buf at n ≡ s
      → read_at (written buf fs) at n ≡ s
  written-kept at n {s} e old = rw e at (field_at-Known buf fs hi at n (some s) h k old)

pub read_at-zeros : (len at n : ℕ) → at + n ≤ len → read_at (zeros len) at n ≡ zeros n
read_at-zeros len zero zero h = refl
read_at-zeros zero zero (suc n) h = absurd (omega arith)
read_at-zeros (suc len) zero (suc n) h = ap (λ l. 0 ∷ l) (read_at-zeros len zero n (omega arith))
read_at-zeros zero (suc at) n h = absurd (omega arith)
read_at-zeros (suc len) (suc at) n h = read_at-zeros len at n (omega arith)

pub read_one : (b : List ℕ) (i v : ℕ) → i < length b → read_at b i 1 ≡ v ∷ [] → get_or b i 0 ≡ v
read_one [] i v h e = elim h [ ]
read_one (x ∷ b) zero v h e = ap (λ l. get_or l 0 0) e
read_one (x ∷ b) (suc i) v h e = read_one b i v (omega arith) e
