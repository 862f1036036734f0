-- ===== src/Check/Context.antt =====
-- `CheckCtx` and `record_blocks` of src/cmd/check.rs: what a check has found so far.
use pfs.Prelude.{
  ℕ, suc, List, [], ◌∷◌, ◌++◌, Option, none, some, ◌==◌, if◌then◌else◌, contains, add32,
}
use pfs.Error.{Str}
use pfs.Ondisk.Anode.{Anode}
use pfs.Fuse.Maps.{ino_key, get, insert}

abbrev pub max_depth : ℕ
max_depth = 128

-- `used_blocks` gives the owner of each block.
pub record CheckCtx : Type 0 where
  pub errors : ℕ
  pub warnings : ℕ
  pub files : ℕ
  pub dirs : ℕ
  pub used_blocks : List (ℕ × Str)
  pub used_anodes : List ℕ
  pub repairs : ℕ
  pub broken_files : List (ℕ × Str)
  pub wrong_size : List (ℕ × Str × ℕ)
  pub correct_blocksfree : Option ℕ
  pub correct_reserved_free : Option ℕ

abbrev pub new_ctx : CheckCtx
new_ctx = record {
  errors = 0;
  warnings = 0;
  files = 0;
  dirs = 0;
  used_blocks = [];
  used_anodes = [];
  repairs = 0;
  broken_files = [];
  wrong_size = [];
  correct_blocksfree = none;
  correct_reserved_free = none;
}

abbrev pub add_error : CheckCtx → CheckCtx
add_error c = record c { errors = add32 c.errors 1 }

abbrev pub add_warning : CheckCtx → CheckCtx
add_warning c = record c { warnings = add32 c.warnings 1 }

abbrev pub add_broken : ℕ → Str → CheckCtx → CheckCtx
add_broken parent_anode name c = record (add_error c) {
  broken_files = c.broken_files ++ (parent_anode, name) ∷ [];
}

abbrev pub count_claim : Option Str → CheckCtx → CheckCtx
count_claim none c = c
count_claim (some prev_owner) c = add_error c

-- One block gets an owner; it is an error if it had one.
unfoldable pub claim : Str → ℕ → CheckCtx → CheckCtx
claim owner b c =
    count_claim (get b c.used_blocks) (record c { used_blocks = insert b owner c.used_blocks })

unfoldable pub record_blocks : Str → List ℕ → CheckCtx → CheckCtx
unfolding claim
record_blocks owner [] c = c
record_blocks owner (b ∷ blocks) c = record_blocks owner blocks (claim owner b c)

abbrev pub add_anodes : List Anode → List ℕ → List ℕ
unfolding contains
add_anodes [] used = used
add_anodes (an ∷ chain) used = add_anodes chain (if contains used an.nr then used else an.nr ∷ used)

abbrev pub slashes : Str → ℕ
slashes [] = 0
slashes (c ∷ s) = let n = slashes s in if c == b'/' then suc n else n
