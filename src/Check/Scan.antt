-- ===== src/Check/Scan.antt =====
-- `scan_dir` of src/cmd/check.rs: the walk over the directories of a volume.
use pfs.Prelude.{
  ℕ, zero, suc, ◌+◌, ◌-◌, ◌*◌, ◌/◌, List, [], ◌∷◌, ◌++◌, ◌&&◌, ◌||◌, ltb, ◌==◌, if◌then◌else◌,
  length, contains, add32,
}
use pfs.Error.{Str, Result, ok, err, panic}
use pfs.Exec.{Exec, pure, lift, gets, modify, for_each, ◌>>=◌, ◌>>◌}
use pfs.Io.{BlockDevice}
use pfs.Util.Names.{join_pfs3_path}
use pfs.Ondisk.Anode.{Anode}
use pfs.Ondisk.DirEntry.{DirEntry, is_dir, is_file, is_rollover, file_size}
use pfs.Volume.{Volume, list_dir_by_anode, validate_anode_chain, get_anode_chain}
use pfs.Fuse.Maps.{ino_key}
use pfs.Check.Context.{
  max_depth, CheckCtx, add_error, add_warning, add_broken, record_blocks, add_anodes, slashes,
}

-- The volume and what was found so far.
pub record Checking (D : Type 0) : Type 0 where
  pub vol : Volume D
  pub ctx : CheckCtx

abbrev pub caught : {A : Type 0} → Result A → Result (Result A)
caught (ok a) = ok (ok a)
caught (err e) = ok (err e)
caught panic = panic

module _ {D : Type 0} where
  -- A method of the volume, whose result the caller looks at.
  abbrev pub looking : {A : Type 0} → Exec (Volume D) A → Exec (Checking D) (Result A)
  looking m s = let (r, v) = m s.vol in (caught r, record s { vol = v })

  abbrev pub note : (CheckCtx → CheckCtx) → Exec (Checking D) (Unit {0})
  note f = modify (λ s. record s { ctx = f s.ctx })

module _ {D : Type 0} (device : BlockDevice D) where
  abbrev pub note_chain : Result (List Anode) → Exec (Checking D) (Unit {0})
  unfolding contains
  note_chain (ok chain) = note (λ c. record c { used_anodes = add_anodes chain c.used_anodes })
  note_chain (err e) = pure tt
  note_chain panic = lift panic

  unfoldable pub record_anode_chain : ℕ → Exec (Checking D) (Unit {0})
  unfolding get_anode_chain note_chain
  record_anode_chain anodenr = do chain ← looking (get_anode_chain device anodenr); note_chain chain

  -- A directory whose chain was read; `scan` goes into it.
  abbrev pub dir_checked :
      (ℕ → Str → Exec (Checking D) (Unit {0}))
      → ℕ
      → DirEntry
      → Str
      → Result (List ℕ)
      → Exec (Checking D) (Unit {0})
  unfolding record_blocks record_anode_chain
  dir_checked scan dir_anode entry entry_path (ok blocks) = do
    note (record_blocks entry_path blocks)
    record_anode_chain entry.anode
    scan entry.anode entry_path
  dir_checked scan dir_anode entry entry_path (err e) = note (add_broken dir_anode entry.name)
  dir_checked scan dir_anode entry entry_path panic = lift panic

  -- A chain that is too short for the size of its file.
  unfoldable pub check_size : ℕ → DirEntry → ℕ → ℕ → CheckCtx → CheckCtx
  unfolding file_size
  check_size dir_anode entry bs chain_blocks c =
      let expected = (file_size entry + bs - 1) / bs in
      if ltb chain_blocks expected && ltb 0 (file_size entry)
      then record (add_warning c) {
        wrong_size = c.wrong_size ++ (dir_anode, entry.name, chain_blocks * bs) ∷ [];
      }
      else c

  abbrev pub file_checked : ℕ → DirEntry → Str → Result (List ℕ) → Exec (Checking D) (Unit {0})
  unfolding record_blocks record_anode_chain check_size
  file_checked dir_anode entry entry_path (ok blocks) = do
    bs ← gets (λ s. device.block_size s.vol.env.dev)
    if bs == 0 then lift panic else pure tt
    note (check_size dir_anode entry bs (length blocks))
    note (record_blocks entry_path blocks)
    record_anode_chain entry.anode
  file_checked dir_anode entry entry_path (err e) = note (add_broken dir_anode entry.name)
  file_checked dir_anode entry entry_path panic = lift panic

  -- The body of the loop over the entries of a directory.
  unfoldable pub scan_entry :
      (ℕ → Str → Exec (Checking D) (Unit {0})) → ℕ → Str → DirEntry → Exec (Checking D) (Unit {0})
  unfolding join_pfs3_path is_dir is_file is_rollover validate_anode_chain dir_checked file_checked
  scan_entry scan dir_anode path entry =
      let entry_path = join_pfs3_path path entry.name in
      if is_dir entry
      then (do
        note (λ c. record c { dirs = add32 c.dirs 1 })
        checked ← looking (validate_anode_chain device entry.anode)
        dir_checked scan dir_anode entry entry_path checked)
      else if is_file entry || is_rollover entry
      then (do
        note (λ c. record c { files = add32 c.files 1 })
        checked ← looking (validate_anode_chain device entry.anode)
        file_checked dir_anode entry entry_path checked)
      else pure tt

  abbrev pub scan_listed :
      (DirEntry → Exec (Checking D) (Unit {0}))
      → Result (List DirEntry)
      → Exec (Checking D) (Unit {0})
  unfolding for_each
  scan_listed body (ok entries) = for_each entries body
  scan_listed body (err e) = note add_error
  scan_listed body panic = lift panic

  -- `stack` is how deep the recursion may go; one that is deeper overflows the stack.
  unfoldable pub scan_dir : ℕ → ℕ → Str → Exec (Checking D) (Unit {0})
  unfolding list_dir_by_anode scan_entry scan_listed
  scan_dir zero dir_anode path = lift panic
  scan_dir (suc stack) dir_anode path = if ltb max_depth (slashes path) then note add_error else do
    listed ← looking (list_dir_by_anode device dir_anode)
    scan_listed (scan_entry (scan_dir stack) dir_anode path) listed
