-- ===== src/Fuse/Listing.antt =====
-- About the lines that readdir replies with.
use pfs.Prelude.{
  ℕ, zero, suc, ◌+◌, List, [], ◌∷◌, ◌++◌, ◌≡◌, refl, ap, sym, ◌∙◌, Bool, true, none, some, drop,
  get_elem?, arith, Bool-cases, inl, inr, append_assoc,
}
use pfs.Error.{Str}
use pfs.Io.{BlockDevice}
use pfs.Fuse.Reply.{Reply, reply, error, died}
use pfs.Fuse.Types.{FileType, FsInner, Pfs3Fs}
use pfs.Fuse.Reads.{Dirent, add_all, numbered_from, full_listing, readdir}

-- Nothing is left, or the next line does not fit behind those that are shown.
abbrev pub Stops : (List Dirent → Dirent → Bool) → List Dirent → List Dirent → Type 0
Stops full shown [] = Unit
Stops full shown (d ∷ rest) = full shown d ≡ true

-- The lines shown are the first of `lines`, as many as fit.
abbrev pub Splits : (List Dirent → Dirent → Bool) → List Dirent → List Dirent → Type 0
Splits full shown lines = (rest : List Dirent) × (shown ++ rest ≡ lines) × Stops full shown rest

add_all-Splits :
    (full : List Dirent → Dirent → Bool) (added lines : List Dirent)
    → Splits full (add_all full added lines) (added ++ lines)
unfolding add_all
add_all-Splits full added [] = ([], refl, tt)
add_all-Splits full added (d ∷ lines) =
    let (rest, e, stops) = add_all-Splits full (added ++ d ∷ []) lines in
    elim (Bool-cases (full added d)) [
      | inl f ↦ rw f (d ∷ lines, refl, f)
      | inr f ↦ rw f (rest, e ∙ append_assoc added (d ∷ []) lines, stops)
    ]

drop-numbered_from :
    (n i at : ℕ) (lines : List (ℕ × FileType × Str))
    → at ≡ i + n
    → drop n (numbered_from i lines) ≡ numbered_from at (drop n lines)
unfolding numbered_from
drop-numbered_from zero i at lines e =
    let same : i ≡ at = omega arith in ap (λ n. numbered_from n lines) same
drop-numbered_from (suc n) i at [] e = refl
drop-numbered_from (suc n) i at ((ino, kind, name) ∷ lines) e =
    drop-numbered_from n (i + 1) at lines (omega arith)

of_some : {A : Type 0} (x d : A) → some x ≡ some d → x ≡ d
of_some x d e = ap (λ o. elim o [ none ↦ x | some y ↦ y ]) e

numbered_from-offset :
    (i k : ℕ) (lines : List (ℕ × FileType × Str)) (d : Dirent)
    → get_elem? (numbered_from i lines) k ≡ some d
    → d.offset ≡ i + k + 1
unfolding numbered_from
numbered_from-offset i k [] d h = cc
numbered_from-offset i zero ((ino, kind, name) ∷ lines) d h =
    let first : i + 1 ≡ d.offset = ap (λ x. x.offset) (of_some _ d h) in omega (arith, first)
numbered_from-offset i (suc k) ((ino, kind, name) ∷ lines) d h =
    let later = numbered_from-offset (i + 1) k lines d h in omega (arith, later)

get_elem?-front :
    {A : Type 0} (xs ys : List A) (k : ℕ) (d : A)
    → get_elem? xs k ≡ some d
    → get_elem? (xs ++ ys) k ≡ some d
get_elem?-front [] ys k d h = cc
get_elem?-front (x ∷ xs) ys zero d h = h
get_elem?-front (x ∷ xs) ys (suc k) d h = get_elem?-front xs ys k d h

-- The lines `shown` for an offset into a listing: the lines from there on, as many as fit, each with
-- the offset that asks for the lines behind it.
pub record Pages (full : List Dirent → Dirent → Bool) (offset : ℕ)
    (listing : List (ℕ × FileType × Str)) (shown : List Dirent) : Type 0 where
  pub splits : Splits full shown (drop offset (numbered_from 0 listing))
  pub resumes : (k : ℕ) (d : Dirent) → get_elem? shown k ≡ some d → d.offset ≡ offset + k + 1

add_all-Pages :
    (full : List Dirent → Dirent → Bool) (offset : ℕ) (listing : List (ℕ × FileType × Str))
    → Pages full offset listing (add_all full [] (drop offset (numbered_from 0 listing)))
add_all-Pages full offset listing =
    let shown = add_all full [] (drop offset (numbered_from 0 listing)) in
    let (rest, e, stops) = add_all-Splits full [] (drop offset (numbered_from 0 listing)) in
    record {
      splits = (rest, e, stops);
      resumes = λ k d h. numbered_from-offset offset k (drop offset listing) d (
          ap (λ l. get_elem? l k) (sym (drop-numbered_from offset 0 offset listing (omega arith)))
          ∙ ap (λ l. get_elem? l k) (sym e)
          ∙ get_elem?-front shown rest k d h);
    }

abbrev pub PagesOf :
    {D : Type 0}
    → (List Dirent → Dirent → Bool)
    → ℕ
    → List (ℕ × FileType × Str)
    → Reply (List Dirent) × FsInner D
    → Type 0
PagesOf full offset listing (reply shown, t) = Pages full offset listing shown
PagesOf full offset listing (error e, t) = ⊥
PagesOf full offset listing (died, t) = ⊥

-- Reading a directory that can be listed replies with the lines of its listing from the offset on,
-- in order and as many as fit, and each line carries the offset that asks for the lines behind it, so
-- that repeated requests show every line once.
pub readdir-Pages :
    {D : Type 0} (device : BlockDevice D) (fs : Pfs3Fs) (full : List Dirent → Dirent → Bool)
    (ino offset : ℕ) (s t : FsInner D) (listing : List (ℕ × FileType × Str))
    → full_listing device fs ino s ≡ (reply listing, t)
    → PagesOf full offset listing (readdir device fs full ino offset s)
unfolding readdir
readdir-Pages device fs full ino offset s t listing h = rw h (add_all-Pages full offset listing)
