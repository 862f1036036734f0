-- ===== src/Format/Blocks/WordsAt.antt =====
-- About words put into a block that a format writes, and how they are read.
use pfs.Prelude.{
  ℕ, zero, suc, ◌+◌, ◌*◌, ◌^◌, ◌≤◌, ◌<◌, List, [], ◌∷◌, ◌++◌, ◌≡◌, refl, ◌∙◌, true, Bool, length,
  length-write_at, read_at-write_at_before, read_at-write_at_after, read_at-write_at_self, arith,
  read_at, write_at, replicate, take, leb, le→leb, if◌then◌else◌,
}
use pfs.Error.{Result, ok, ◌>>=◌, Returns, returns, Returns-map, Returns-step}
use pfs.Bytes.{be32, zeros, u32_at, u32_words, put_u32}
use pfs.Bytes.Laws.{put_u32_eq, u32_at_eq, from_be-be32}
use pfs.Writer.Sectors.{put_words}
use pfs.Format.Blocks.Keeps.{Keeps}

-- The words stand in the bytes from `off` on.
abbrev pub WordsAt : List ℕ → ℕ → List ℕ → Type 0
WordsAt c off [] = Unit
WordsAt c off (w ∷ ws) = (read_at c off 4 ≡ be32 w) × WordsAt c (off + 4) ws

abbrev pub AllSmall : List ℕ → Type 0
AllSmall [] = Unit
AllSmall (w ∷ ws) = (w < 2 ^ 32) × AllSmall ws

pub AllSmall-append : (xs ys : List ℕ) → AllSmall xs → AllSmall ys → AllSmall (xs ++ ys)
AllSmall-append [] ys h k = k
AllSmall-append (x ∷ xs) ys (lt, h) k = (lt, AllSmall-append xs ys h k)

pub AllSmall-zeros : (n : ℕ) → AllSmall (replicate n 0)
AllSmall-zeros zero = tt
AllSmall-zeros (suc n) = (omega arith, AllSmall-zeros n)

pub AllSmall-take : (n : ℕ) (xs : List ℕ) → AllSmall xs → AllSmall (take n xs)
AllSmall-take zero xs h = tt
AllSmall-take (suc n) [] h = tt
AllSmall-take (suc n) (x ∷ xs) (lt, h) = (lt, AllSmall-take n xs h)

pub WordsAt-append :
    (c : List ℕ) (off next : ℕ) (xs ys : List ℕ)
    → next ≡ off + length xs * 4
    → WordsAt c off xs
    → WordsAt c next ys
    → WordsAt c off (xs ++ ys)
WordsAt-append c off next [] ys e h k = let same : next ≡ off = omega (arith, e) in rw same at k
WordsAt-append c off next (x ∷ xs) ys e (w, h) k =
    (w, WordsAt-append c (off + 4) next xs ys (omega (arith, e)) h k)

-- Zeros from `lo` to `hi` are words of zero.
pub WordsAt-zeros :
    (c : List ℕ) (lo hi off n : ℕ)
    → ((at : ℕ) → lo ≤ at → at + 4 ≤ hi → read_at c at 4 ≡ zeros 4)
    → lo ≤ off
    → off + n * 4 ≤ hi
    → WordsAt c off (replicate n 0)
unfolding be32
WordsAt-zeros c lo hi off zero z h k = tt
WordsAt-zeros c lo hi off (suc n) z h k =
    (z off h (omega arith), WordsAt-zeros c lo hi (off + 4) n z (omega arith) (omega arith))

pub WordsAt-Keeps :
    (m : ℕ) (b c : List ℕ) (off : ℕ) (ws : List ℕ)
    → Keeps m b c
    → off + length ws * 4 ≤ m
    → WordsAt b off ws
    → WordsAt c off ws
WordsAt-Keeps m b c off [] f h k = tt
WordsAt-Keeps m b c off (w ∷ ws) f h (e, k) =
    (f.same off 4 (omega arith) ∙ e, WordsAt-Keeps m b c (off + 4) ws f (omega arith) k)

-- Words that stand in the bytes are what a reader of words finds.
pub u32_words_eq :
    (c : List ℕ) (off n : ℕ) (ws : List ℕ)
    → n ≡ length ws
    → off + n * 4 ≤ length c
    → AllSmall ws
    → WordsAt c off ws
    → u32_words c off n ≡ ok ws
unfolding u32_words
u32_words_eq c off zero [] e h s k = refl
u32_words_eq c off (suc n) [] e h s k = cc
u32_words_eq c off zero (w ∷ ws) e h s k = cc
u32_words_eq c off (suc n) (w ∷ ws) len h (lt, s) (e, k) =
    let fits : leb (off + 4) (length c) ≡ true = le→leb (off + 4) (length c) (omega arith) in
    let head : u32_at c off ≡ ok w =
      u32_at_eq c off (omega arith) ∙ rw (e, from_be-be32 w lt) refl in
    both _ _ _ fits head (u32_words_eq c (off + 4) n ws (omega (arith, len)) (omega arith) s k)
  where
    both :
        (b : Bool) (o : Result ℕ) (r : Result (List ℕ))
        → b ≡ true
        → o ≡ ok w
        → r ≡ ok ws
        → (if b then o >>= (λ word. r >>= (λ words. ok (word ∷ words))) else r) ≡ ok (w ∷ ws)
    both b o r e e1 e2 = rw (e, e1, e2) refl

-- What the words put at `lo` change.
pub record Puts (lo : ℕ) (ws b c : List ℕ) : Type 0 where
  pub same_length : length c ≡ length b
  pub before : (at n : ℕ) → at + n ≤ lo → read_at c at n ≡ read_at b at n
  pub behind : (at n : ℕ) → lo + length ws * 4 ≤ at → read_at c at n ≡ read_at b at n
  pub words : WordsAt c lo ws

pub put_words-Puts :
    (b : List ℕ) (lo : ℕ) (ws : List ℕ)
    → lo + length ws * 4 ≤ length b
    → Returns (Puts lo ws b) (put_words b lo ws)
unfolding put_words
put_words-Puts b lo [] h =
    returns b
      (record { same_length = refl; before = λ at n k. refl; behind = λ at n k. refl; words = tt })
put_words-Puts b lo (w ∷ ws) h =
    let b1 = write_at b lo (be32 w) in
    let len = length-write_at b lo (be32 w) in
    Returns-step _ (put_u32_eq b lo w (omega arith)) (
      Returns-map (put_words-Puts b1 (lo + 4) ws (omega (arith, len))) (λ c p. record {
        same_length = p.same_length ∙ len;
        before =
            λ at n k. p.before at n (omega arith) ∙ read_at-write_at_before b lo at n (be32 w) k;
        behind = λ at n k.
            p.behind at n (omega arith) ∙ read_at-write_at_after b lo at n (be32 w) (omega arith);
        words = (
          p.before lo 4 (omega arith) ∙ read_at-write_at_self b lo (be32 w) (omega arith),
          p.words,
        );
      }))

pub put_u32-Puts :
    (b : List ℕ) (lo w : ℕ) → lo + 4 ≤ length b → Returns (Puts lo (w ∷ []) b) (put_u32 b lo w)
unfolding be32
put_u32-Puts b lo w h = rw (put_u32_eq b lo w h) (
    returns _ (record {
      same_length = length-write_at b lo (be32 w);
      before = λ at n k. read_at-write_at_before b lo at n (be32 w) k;
      behind = λ at n k. read_at-write_at_after b lo at n (be32 w) k;
      words = (read_at-write_at_self b lo (be32 w) h, tt);
    }))
