-- ===== src/Writer/EntryBytes/Layout.antt =====
-- The bytes that `build_dir_entry` of crates/libpfs3/src/writer.rs leaves, one after the other.
use pfs.Prelude.{
  ℕ, ◌+◌, ◌/◌, ◌%◌, ◌^◌, ◌≤◌, ◌<◌, List, [], ◌∷◌, ◌++◌, Bool, true, false, ltb, if◌then◌else◌, ◌≡◌,
  refl, ◌∙◌, sym, ap, arith, length, take, set, write_at, lt→ltb, le→leb, length-append,
  length-replicate, replicate-add, write_at-append, write_at-prefix, set-append, bit_and_pow,
  bit_at, min, append_assoc, append-nil, length-take,
}
use pfs.Error.{Str, ok, ◌>>=◌, follow}
use pfs.Bytes.{be16, be32, zeros, put_u16, set_byte, copy_from_slice}
use pfs.Bytes.Laws.{put_u16_eq}
use pfs.Ondisk.DirEntry.{round_up_even}
use pfs.Util.Names.{as_bytes}
use pfs.Util.Dates.{current_amiga_datestamp}
use pfs.Writer.EntryBytes.{entry_size, put_entry_head, build_dir_entry}

pub round_up_even_eq : (n : ℕ) → round_up_even n ≡ n + n % 2
unfolding bit_at
round_up_even_eq n = ground (arith, bit_and_pow 0 n)

pub set_byte_eq : (buf : List ℕ) (i b : ℕ) → i < length buf → set_byte buf i b ≡ ok (set buf i b)
set_byte_eq buf i b h = rw (lt→ltb i (length buf) h) refl

pub copy_eq :
    (buf : List ℕ) (lo : ℕ) (bs : List ℕ)
    → lo + length bs ≤ length buf
    → copy_from_slice buf lo bs ≡ ok (write_at buf lo bs)
copy_eq buf lo bs h = rw (le→leb (lo + length bs) (length buf) h) refl

pub length-zeros : (n : ℕ) → length (zeros n) ≡ n
length-zeros n = length-replicate n _

-- The 18 bytes before the name.
unfoldable pub head : ℕ → ℕ → ℕ → ℕ → ℕ → ℕ → ℕ × ℕ × ℕ → List ℕ
unfolding be32 be16
head size entry_type anode fsize protection nlen (day, minute, tick) =
    size % 256 ∷ entry_type ∷ be32 anode
    ++ be32 (fsize % 2 ^ 32)
    ++ be16 day
    ++ be16 minute
    ++ be16 tick
    ++ protection ∷ nlen ∷ []

-- The padding before the extra fields.
abbrev pub pad : ℕ → List ℕ
pad nlen = zeros ((19 + nlen) % 2)

abbrev pub extra : ℕ → List ℕ
extra fsizex = if ltb 0 fsizex then be16 0x0040 ++ be16 fsizex else be16 0

put_entry_head_eq :
    (size : ℕ) (rest : List ℕ) (entry_type anode fsize protection nlen : ℕ) (date : ℕ × ℕ × ℕ)
    → size ≡ 18 + length rest
    → put_entry_head (zeros 18 ++ rest) entry_type anode fsize protection nlen date
      ≡ ok (head size entry_type anode fsize protection nlen date ++ rest)
unfolding put_entry_head head
put_entry_head_eq size rest entry_type anode fsize protection nlen (day, minute, tick) e =
    rw e (ground arith)

pub length-head :
    (size entry_type anode fsize protection nlen : ℕ) (date : ℕ × ℕ × ℕ)
    → length (head size entry_type anode fsize protection nlen date) ≡ 18
unfolding head
length-head size entry_type anode fsize protection nlen (day, minute, tick) = refl

zeros-add : (m k : ℕ) → zeros (m + k) ≡ zeros m ++ zeros k
zeros-add m k = replicate-add m k _

-- Putting a name behind a head, over as many zeros.
put_name_eq :
    (h nm : List ℕ) (k : ℕ)
    → length h ≡ 18
    → copy_from_slice (h ++ zeros (length nm + k)) 18 nm ≡ ok ((h ++ nm) ++ zeros k)
put_name_eq h nm k e =
    copy_eq (h ++ zeros (length nm + k)) 18 nm
      (omega (arith, e, length-append h (zeros (length nm + k)), length-zeros (length nm + k)))
    ∙ rw
        (
          zeros-add (length nm) k,
          write_at-append h (zeros (length nm) ++ zeros k) nm 18 (sym e),
          write_at-prefix (zeros (length nm)) (zeros k) nm (length-zeros (length nm)),
          append_assoc h nm (zeros k),
        )
        refl

-- Writing a word over zeros behind a prefix.
put_behind_eq :
    (q zs : List ℕ) (at v : ℕ)
    → at ≡ length q
    → put_u16 (q ++ 0 ∷ 0 ∷ zs) at v ≡ ok ((q ++ be16 v) ++ zs)
unfolding be16
put_behind_eq q zs at v e =
    put_u16_eq (q ++ 0 ∷ 0 ∷ zs) at v (omega (arith, e, length-append q (0 ∷ 0 ∷ zs)))
    ∙ rw
        (
          write_at-append q (0 ∷ 0 ∷ zs) (be16 v) at e,
          write_at-prefix (0 ∷ 0 ∷ []) zs (be16 v) refl,
          append_assoc q (be16 v) zs,
        )
        refl

length-behind : (q : List ℕ) (at v : ℕ) → at ≡ length q → at + 2 ≡ length (q ++ be16 v)
unfolding be16
length-behind q at v e = omega (arith, e, length-append q (be16 v))

-- The extra fields, over the zeros behind the padding.
put_extra :
    (q : List ℕ) (at fsizex : ℕ) (b : Bool)
    → at ≡ length q
    → (put_u16 (q ++ zeros (if b then 4 else 2)) at (if b then 0x0040 else 0) >>= λ e.
        if b then put_u16 e (at + 2) fsizex else ok e)
      ≡ ok (q ++ (if b then be16 0x0040 ++ be16 fsizex else be16 0))
put_extra q at fsizex true e =
    rw
      (
        put_behind_eq q (0 ∷ 0 ∷ []) at 0x0040 e,
        put_behind_eq (q ++ be16 0x0040) [] (at + 2) fsizex (length-behind q at 0x0040 e),
        append-nil ((q ++ be16 0x0040) ++ be16 fsizex),
        append_assoc q (be16 0x0040) (be16 fsizex),
      )
      refl
put_extra q at fsizex false e = rw (put_behind_eq q [] at 0 e, append-nil (q ++ be16 0)) refl

-- How many bytes the flags and the fields take.
abbrev extra_bytes : Bool → ℕ
extra_bytes has_fsizex = if has_fsizex then 4 else 2

pub entry_size_eq :
    (nlen : ℕ) (b : Bool)
    → entry_size nlen b ≡ 18 + (nlen + (1 + ((19 + nlen) % 2 + extra_bytes b)))
unfolding entry_size
entry_size_eq nlen true = omega (arith, round_up_even_eq (18 + nlen + 1 + 4))
entry_size_eq nlen false = omega (arith, round_up_even_eq (18 + nlen + 1 + 2))

-- The bytes of an entry.
abbrev pub entry_bytes : List ℕ → ℕ → ℕ → ℕ → ℕ → ℕ × ℕ × ℕ → List ℕ
entry_bytes nm entry_type anode fsize protection date =
    let fsizex = fsize / 2 ^ 32 % 2 ^ 16 in
    ((head (entry_size (length nm) (ltb 0 fsizex)) entry_type anode fsize protection (length nm)
          date
        ++ nm)
      ++ 0 ∷ pad (length nm))
    ++ extra fsizex

set_end_eq :
    (h nm : List ℕ) (eb : ℕ)
    → length h ≡ 18
    → set_byte ((h ++ nm) ++ zeros (1 + ((19 + length nm) % 2 + eb))) (18 + length nm) 0
      ≡ ok (((h ++ nm) ++ 0 ∷ pad (length nm)) ++ zeros eb)
set_end_eq h nm eb lh =
    let n = length nm in
    let x = (19 + n) % 2 + eb in
    let lhn : 18 + n ≡ length (h ++ nm) = omega (arith, length-append h nm, lh) in
    let room : zeros (1 + x) ≡ 0 ∷ zeros x = zeros-add 1 x in
    rw room (
      set_byte_eq ((h ++ nm) ++ 0 ∷ zeros x) (18 + n) 0
        (omega (arith, lhn, length-append (h ++ nm) (0 ∷ zeros x)))
      ∙ rw
          (
            set-append (h ++ nm) (zeros x) 0 0 (18 + n) lhn,
            zeros-add ((19 + n) % 2) eb,
            append_assoc (h ++ nm) (0 ∷ pad n) (zeros eb),
          )
          refl)

-- The steps of `build_dir_entry`, for a name of `length nm` bytes.
steps_eq :
    (nm : List ℕ) (entry_type anode fsize protection fsizex : ℕ) (date : ℕ × ℕ × ℕ) (b : Bool)
    → (put_entry_head
          (zeros (entry_size (length nm) b))
          entry_type
          anode
          fsize
          protection
          (length nm)
          date
        >>= λ e. copy_from_slice e 18 nm >>= λ e. set_byte e (18 + length nm) 0 >>= λ e.
            put_u16 e (round_up_even (18 + length nm + 1)) (if b then 0x0040 else 0) >>= λ e.
            if b then put_u16 e (round_up_even (18 + length nm + 1) + 2) fsizex else ok e)
      ≡ ok (
          ((head (entry_size (length nm) b) entry_type anode fsize protection (length nm) date
              ++ nm)
            ++ 0 ∷ pad (length nm))
          ++ (if b then be16 0x0040 ++ be16 fsizex else be16 0))
steps_eq nm entry_type anode fsize protection fsizex date b =
    let n = length nm in
    let x = (19 + n) % 2 + extra_bytes b in
    let h = head (entry_size n b) entry_type anode fsize protection n date in
    let q = (h ++ nm) ++ 0 ∷ pad n in
    let lh = length-head (entry_size n b) entry_type anode fsize protection n date in
    let size : zeros (entry_size n b) ≡ zeros 18 ++ zeros (n + (1 + x)) =
      ap zeros (entry_size_eq n b) ∙ zeros-add 18 (n + (1 + x)) in
    let at_end : round_up_even (18 + n + 1) ≡ length q = omega (
      arith,
      round_up_even_eq (18 + n + 1),
      length-append (h ++ nm) (0 ∷ pad n),
      length-append h nm,
      lh,
      length-zeros ((19 + n) % 2),
    ) in
    follow _ _
      (ap (λ z. put_entry_head z entry_type anode fsize protection n date) size
        ∙ put_entry_head_eq (entry_size n b) (zeros (n + (1 + x))) entry_type anode fsize protection
            n date (omega (arith, entry_size_eq n b, length-zeros (n + (1 + x)))))
      (follow _ _ (put_name_eq h nm (1 + x) lh) (
        follow _ _ (set_end_eq h nm (extra_bytes b) lh)
          (put_extra q (round_up_even (18 + n + 1)) fsizex b at_end)))

-- The same, with the length of the name given.
steps_at :
    (nm : List ℕ) (n entry_type anode fsize protection fsizex : ℕ) (date : ℕ × ℕ × ℕ) (b : Bool)
    → n ≡ length nm
    → (put_entry_head (zeros (entry_size n b)) entry_type anode fsize protection n date >>= λ e.
        copy_from_slice e 18 nm >>= λ e. set_byte e (18 + n) 0 >>= λ e.
        put_u16 e (round_up_even (18 + n + 1)) (if b then 0x0040 else 0) >>= λ e.
        if b then put_u16 e (round_up_even (18 + n + 1) + 2) fsizex else ok e)
      ≡ ok (
          ((head (entry_size (length nm) b) entry_type anode fsize protection (length nm) date
              ++ nm)
            ++ 0 ∷ pad (length nm))
          ++ (if b then be16 0x0040 ++ be16 fsizex else be16 0))
steps_at nm n entry_type anode fsize protection fsizex date b e =
    rw e (steps_eq nm entry_type anode fsize protection fsizex date b)

-- The entry's bytes, in their order.
pub build_dir_entry_eq :
    (now : ℕ) (name : Str) (entry_type anode fsize protection : ℕ)
    → build_dir_entry now name entry_type anode fsize protection
      ≡ ok (
          entry_bytes
            (take (min (length (as_bytes name)) 107) (as_bytes name))
            entry_type
            anode
            fsize
            protection
            (current_amiga_datestamp now))
unfolding build_dir_entry
build_dir_entry_eq now name entry_type anode fsize protection =
    let bs = as_bytes name in
    let nm = take (min (length bs) 107) bs in
    let fsizex = fsize / 2 ^ 32 % 2 ^ 16 in
    let n : length nm ≡ min (length bs) 107 = omega (arith, length-take (min (length bs) 107) bs) in
    steps_at nm (min (length bs) 107) entry_type anode fsize protection fsizex
      (current_amiga_datestamp now) (ltb 0 fsizex) (sym n)
