-- ===== src/Util/Names/Laws.antt =====
-- About the names of crates/libpfs3/src/util.rs: comparison, and names as UTF-8 and as Latin-1.
use pfs.Prelude.{ℕ, ◌<◌, List, [], ◌∷◌, true, ◌≡◌, refl, ap, arith}
use pfs.Error.{Str}
use pfs.Util.Names.{as_bytes, latin1_to_string, name_eq_ci}

pub name_eq_ci_refl : (s : Str) → name_eq_ci s s ≡ true
unfolding name_eq_ci
name_eq_ci_refl [] = refl
name_eq_ci_refl (c ∷ s) = ground (arith, name_eq_ci_refl s)

pub name_eq_ci_symm : (s t : Str) → name_eq_ci s t ≡ true → name_eq_ci t s ≡ true
unfolding name_eq_ci
name_eq_ci_symm [] [] h = refl
name_eq_ci_symm [] (b ∷ t) h = cc
name_eq_ci_symm (a ∷ s) [] h = cc
name_eq_ci_symm (a ∷ s) (b ∷ t) h = ground (arith, name_eq_ci_symm s t)

pub name_eq_ci_trans :
    (s t u : Str) → name_eq_ci s t ≡ true → name_eq_ci t u ≡ true → name_eq_ci s u ≡ true
unfolding name_eq_ci
name_eq_ci_trans [] [] u h k = k
name_eq_ci_trans [] (b ∷ t) u h k = cc
name_eq_ci_trans (a ∷ s) [] u h k = cc
name_eq_ci_trans (a ∷ s) (b ∷ t) [] h k = cc
name_eq_ci_trans (a ∷ s) (b ∷ t) (c ∷ u) h k = ground (arith, name_eq_ci_trans s t u)

abbrev pub IsAscii : Str → Type 0
IsAscii [] = Unit
IsAscii (c ∷ s) = (c < 128) × IsAscii s

pub latin1-id : (bytes : List ℕ) → latin1_to_string bytes ≡ bytes
unfolding latin1_to_string
latin1-id [] = refl
latin1-id (b ∷ bytes) = ap (λ l. b ∷ l) (latin1-id bytes)

pub as_bytes-ascii : (s : Str) → IsAscii s → as_bytes s ≡ s
unfolding as_bytes
as_bytes-ascii [] h = refl
as_bytes-ascii (c ∷ s) h = ground (arith, as_bytes-ascii s h.1)
