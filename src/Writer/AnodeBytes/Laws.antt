-- ===== src/Writer/AnodeBytes/Laws.antt =====
-- About the anode slots that crates/libpfs3/src/writer.rs writes, and `Anode::parse`.
use pfs.Prelude.{
  ℕ, ◌+◌, ◌^◌, ◌≤◌, ◌<◌, List, length, ◌≡◌, refl, arith, read_at, write_at, read_at-write_at_before,
  read_at-write_at_after, length-write_at, read_at-read_at, ◌∙◌, ◌≢◌, ◌⊎◌, inl, inr,
}
use native.Mathlib.Decide.{dec_lt}
use pfs.Error.{ok, Returns, returns}
use pfs.Bytes.{be32}
use pfs.Ondisk.Anode
use pfs.Ondisk.Anode.{Anode}
use pfs.Bytes.Laws.{
  word_at, word_at_self, word_at_after, word_at_before, length-read_at, put_u32_eq,
}
use pfs.Writer.AnodeBytes.{put_anode, put_stamped_anode, slot_base}

-- The bytes that `put_stamped_anode` leaves.
abbrev pub stamped : List ℕ → ℕ → ℕ → ℕ → ℕ → ℕ → List ℕ
stamped bytes offset clustersize blocknr next datestamp =
    write_at
      (write_at
        (write_at (write_at bytes (slot_base offset) (be32 clustersize)) (slot_base offset + 4)
          (be32 blocknr))
        (slot_base offset + 8) (be32 next))
      4 (be32 datestamp)

length-be32 : (v : ℕ) → length (be32 v) ≡ 4
unfolding be32
length-be32 v = refl

put_stamped_anode_eq :
    (bytes : List ℕ) (offset clustersize blocknr next datestamp : ℕ)
    → slot_base offset + 12 ≤ length bytes
    → put_stamped_anode bytes offset clustersize blocknr next datestamp
      ≡ ok (stamped bytes offset clustersize blocknr next datestamp)
unfolding put_stamped_anode put_anode
put_stamped_anode_eq bytes offset clustersize blocknr next datestamp h =
    let b1 = write_at bytes (slot_base offset) (be32 clustersize) in
    let b2 = write_at b1 (slot_base offset + 4) (be32 blocknr) in
    let b3 = write_at b2 (slot_base offset + 8) (be32 next) in
    let l1 : length b1 ≡ length bytes =
      length-write_at bytes (slot_base offset) (be32 clustersize) in
    let l2 : length b2 ≡ length b1 = length-write_at b1 (slot_base offset + 4) (be32 blocknr) in
    let l3 : length b3 ≡ length b2 = length-write_at b2 (slot_base offset + 8) (be32 next) in
    rw (
      put_u32_eq bytes (slot_base offset) clustersize (omega arith),
      put_u32_eq b1 (slot_base offset + 4) blocknr (omega arith),
      put_u32_eq b2 (slot_base offset + 8) next (omega arith),
      put_u32_eq b3 4 datestamp (omega arith),
    )

-- Reading an anode is reading its three words.
parse_eq :
    (buf : List ℕ) (base nr : ℕ)
    → base + 12 ≤ length buf
    → Anode.parse (read_at buf base 12) nr
      ≡ ok (record {
        clustersize = word_at buf base;
        blocknr = word_at buf (base + 4);
        next = word_at buf (base + 8);
        nr = nr;
      })
unfolding Anode.parse
parse_eq buf base nr h =
    let raw = read_at buf base 12 in
    let len : length raw ≡ 12 = length-read_at buf base 12 h in
    let zero_off : base + 0 ≡ base = omega arith in
    rw (
      len,
      read_at-read_at buf base 12 0 4 (omega arith),
      read_at-read_at buf base 12 4 4 (omega arith),
      read_at-read_at buf base 12 8 4 (omega arith),
      zero_off,
    )

-- The three words of the slot at `base` behind the four writes.
module _ (bytes : List ℕ) (base cs bn next ds : ℕ) where
  abbrev first : List ℕ
  first = write_at bytes base (be32 cs)

  abbrev second : List ℕ
  second = write_at first (base + 4) (be32 bn)

  abbrev third : List ℕ
  third = write_at second (base + 8) (be32 next)

  words :
      8 ≤ base
      → base + 12 ≤ length bytes
      → cs < 2 ^ 32
      → bn < 2 ^ 32
      → next < 2 ^ 32
      → (word_at (write_at third 4 (be32 ds)) base ≡ cs)
        × (word_at (write_at third 4 (be32 ds)) (base + 4) ≡ bn)
        × (word_at (write_at third 4 (be32 ds)) (base + 8) ≡ next)
  words header fits hc hb hn =
      let l1 : length first ≡ length bytes = length-write_at bytes base (be32 cs) in
      let l2 : length second ≡ length first = length-write_at first (base + 4) (be32 bn) in
      (
        word_at_after third 4 base ds (omega arith)
            ∙ word_at_before second (base + 8) base next (omega arith)
            ∙ word_at_before first (base + 4) base bn (omega arith)
            ∙ word_at_self bytes base cs (omega arith) hc,
        word_at_after third 4 (base + 4) ds (omega arith)
            ∙ word_at_before second (base + 8) (base + 4) next (omega arith)
            ∙ word_at_self first (base + 4) bn (omega arith) hb,
        word_at_after third 4 (base + 8) ds (omega arith)
            ∙ word_at_self second (base + 8) next (omega arith) hn,
      )

  -- A range that the four writes miss.
  elsewhere :
      (at n : ℕ)
      → 8 ≤ at
      → (at + n ≤ base) ⊎ (base + 12 ≤ at)
      → read_at (write_at third 4 (be32 ds)) at n ≡ read_at bytes at n
  unfolding be32
  elsewhere at n header (inl below) =
      read_at-write_at_after third 4 at n (be32 ds) (omega arith)
      ∙ read_at-write_at_before second (base + 8) at n (be32 next) (omega arith)
      ∙ read_at-write_at_before first (base + 4) at n (be32 bn) (omega arith)
      ∙ read_at-write_at_before bytes base at n (be32 cs) (omega arith)
  elsewhere at n header (inr above) =
      read_at-write_at_after third 4 at n (be32 ds) (omega arith)
      ∙ read_at-write_at_after second (base + 8) at n (be32 next) (omega arith)
      ∙ read_at-write_at_after first (base + 4) at n (be32 bn) (omega arith)
      ∙ read_at-write_at_after bytes base at n (be32 cs) (omega arith)

-- What a block of anodes holds once slot `offset` has been written: the anode reads back, and every
-- other slot reads as before.
abbrev pub HoldsAnode : List ℕ → ℕ → ℕ → ℕ → ℕ → List ℕ → Type 0
HoldsAnode bytes offset clustersize blocknr next block =
    ((nr : ℕ)
      → Anode.parse (read_at block (slot_base offset) 12) nr
        ≡ ok (record { clustersize = clustersize; blocknr = blocknr; next = next; nr = nr }))
    × ((other : ℕ)
        → other ≢ offset
        → read_at block (slot_base other) 12 ≡ read_at bytes (slot_base other) 12)
    × (length block ≡ length bytes)

length-stamped :
    (bytes : List ℕ) (offset clustersize blocknr next datestamp : ℕ)
    → length (stamped bytes offset clustersize blocknr next datestamp) ≡ length bytes
length-stamped bytes offset clustersize blocknr next datestamp =
    length-write_at _ 4 (be32 datestamp)
    ∙ length-write_at _ (slot_base offset + 8) (be32 next)
    ∙ length-write_at _ (slot_base offset + 4) (be32 blocknr)
    ∙ length-write_at bytes (slot_base offset) (be32 clustersize)

-- An anode whose fields are u32 is written into a slot inside the block without a panic, reads back
-- from it with the reader's parser, and leaves every other slot of the block and its length as they are.
pub put_stamped_anode-Holds :
    (bytes : List ℕ) (offset clustersize blocknr next datestamp : ℕ)
    → slot_base offset + 12 ≤ length bytes
    → clustersize < 2 ^ 32
    → blocknr < 2 ^ 32
    → next < 2 ^ 32
    → Returns
        (HoldsAnode bytes offset clustersize blocknr next)
        (put_stamped_anode bytes offset clustersize blocknr next datestamp)
put_stamped_anode-Holds bytes offset clustersize blocknr next datestamp fits hc hb hn =
    let base = slot_base offset in
    let block = stamped bytes offset clustersize blocknr next datestamp in
    let len = length-stamped bytes offset clustersize blocknr next datestamp in
    let (wc, wb, wn) =
      words bytes base clustersize blocknr next datestamp (omega arith) fits hc hb hn in
    rw (put_stamped_anode_eq bytes offset clustersize blocknr next datestamp fits) (
      returns block (
        λ nr. rw (parse_eq block base nr (omega (arith, len)), wc, wb, wn) refl,
        λ other ne.
            elsewhere bytes base clustersize blocknr next datestamp (slot_base other) 12
              (omega arith) (apart offset other ne),
        len,
      ))
  where
    apart :
        (offset other : ℕ)
        → other ≢ offset
        → (slot_base other + 12 ≤ slot_base offset) ⊎ (slot_base offset + 12 ≤ slot_base other)
    apart offset other ne = elim (dec_lt other offset) [
      | yes lt ↦ inl (omega arith)
      | no ge ↦ elim (dec_lt offset other) [
        | yes gt ↦ inr (omega arith)
        | no le ↦ absurd (ne (omega arith))
      ]
    ]
