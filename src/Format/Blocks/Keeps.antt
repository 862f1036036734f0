-- ===== src/Format/Blocks/Keeps.antt =====
-- About writes that leave the start of a block alone.
use pfs.Prelude.{
  ℕ, ◌+◌, ◌≤◌, List, [], ◌∷◌, ◌≡◌, refl, ◌∙◌, true, length, length-write_at,
  read_at-write_at_before, arith, read_at, write_at, leb, leb→le,
}
use pfs.Error.{Returns, returns, Returns-if, Returns-map, Returns-bind}
use pfs.Bytes.{be32, put_u32}
use pfs.Bytes.Laws.{put_u32_eq}
use pfs.Bytes.Fields.{Field, put32, put16}
use pfs.Bytes.Fields.Laws.{all_from, written, written-before, put_fields_eq, length-written}
use pfs.Ondisk.Constants.{bmblkid}
use pfs.Writer.Sectors.{put_words_fitting}
use pfs.Format.Blocks.{put_reserved_bitmap}

-- Everything that ends at `m` or before stays, and so does the length.
pub record Keeps (m : ℕ) (b c : List ℕ) : Type 0 where
  pub same_length : length c ≡ length b
  pub same : (at n : ℕ) → at + n ≤ m → read_at c at n ≡ read_at b at n

pub Keeps-trans : {m k : ℕ} {b c d : List ℕ} → k ≤ m → Keeps k b c → Keeps m c d → Keeps k b d
Keeps-trans le f g = record {
  same_length = g.same_length ∙ f.same_length;
  same = λ at n h. g.same at n (omega arith) ∙ f.same at n h;
}

pub Keeps-refl : {m : ℕ} {b : List ℕ} → Keeps m b b
Keeps-refl = record { same_length = refl; same = λ at n h. refl }

pub Keeps-write_at :
    (m : ℕ) (b : List ℕ) (lo : ℕ) (s : List ℕ) → m ≤ lo → Keeps m b (write_at b lo s)
Keeps-write_at m b lo s h = record {
  same_length = length-write_at b lo s;
  same = λ at n k. read_at-write_at_before b lo at n s (omega arith);
}

pub Keeps-written :
    (m : ℕ) (b : List ℕ) (fs : List Field) → all_from m fs ≡ true → Keeps m b (written b fs)
Keeps-written m b fs h = record {
  same_length = length-written b fs;
  same = λ at n k. written-before b fs m at n h k;
}

pub put_u32-Keeps :
    (m : ℕ) (b : List ℕ) (lo v : ℕ)
    → m ≤ lo
    → lo + 4 ≤ length b
    → Returns (Keeps m b) (put_u32 b lo v)
put_u32-Keeps m b lo v h k = rw (put_u32_eq b lo v k) (returns _ (Keeps-write_at m b lo (be32 v) h))

pub put_words_fitting-Keeps :
    (m : ℕ) (b : List ℕ) (lo : ℕ) (ws : List ℕ)
    → m ≤ lo
    → Returns (Keeps m b) (put_words_fitting b lo ws)
unfolding put_words_fitting
put_words_fitting-Keeps m b lo [] h = returns b Keeps-refl
put_words_fitting-Keeps m b lo (w ∷ ws) h =
    Returns-if (leb (lo + 4) (length b))
      (λ fits. Returns-bind (put_u32-Keeps m b lo w h (leb→le _ _ fits)) (λ c f.
        Returns-map (put_words_fitting-Keeps m c (lo + 4) ws (omega arith))
          (λ d g. Keeps-trans (omega arith) f g)))
      (λ _. put_words_fitting-Keeps m b (lo + 4) ws (omega arith))

pub put_reserved_bitmap-Keeps :
    (m : ℕ) (b : List ℕ) (off : ℕ) (ws : List ℕ)
    → m ≤ off
    → off + 12 ≤ length b
    → Returns (Keeps m b) (put_reserved_bitmap b off ws)
unfolding put_reserved_bitmap
put_reserved_bitmap-Keeps m b off ws h k =
    let fs = put16 off bmblkid ∷ put32 (off + 8) 0 ∷ [] in
    rw (put_fields_eq b fs (off + 12) (ground arith) k) (
      Returns-map (put_words_fitting-Keeps m (written b fs) (off + 12) ws (omega arith))
        (λ d g. Keeps-trans (omega arith) (Keeps-written m b fs (ground (arith, h))) g))
