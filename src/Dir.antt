-- ===== src/Dir.antt =====
-- crates/libpfs3/src/dir.rs: directories as chains of directory blocks.
pub mod Block
pub mod Total
use pfs.Prelude.{
  ℕ, zero, suc, ◌+◌, List, [], ◌∷◌, Bool, ltb, leb, ◌==◌, if◌then◌else◌, length, Option, none, some,
  range,
}
use pfs.Error.{Str, Result, ok, err, panic, not_found, not_a_directory, ok_or}
use pfs.Exec.{Exec, pure, raise, lift, ◌>>=◌, concat_each}
use pfs.Bytes.{u16_at}
use pfs.Util.Names.{name_eq_ci, path_parts}
use pfs.Io.{BlockDevice}
use pfs.Cache.{Env, read_reserved}
use pfs.Anode.{AnodeReader, get_chain}
use pfs.Ondisk.Anode.{Anode}
use pfs.Ondisk.Constants.{anode_rootdir, dblkid, dir_block_header_size}
use Block.{parse_dirblock_entries}
use pfs.Ondisk.DirEntry.{DirEntry, is_dir}

-- The blocks of an extent, as u64.
abbrev pub extent_blocks : Anode → List ℕ
extent_blocks an = range an.blocknr an.clustersize

-- The first entry of a name.
unfoldable pub find_name : Str → List DirEntry → Option DirEntry
unfolding name_eq_ci
find_name name [] = none
find_name name (e ∷ es) = if name_eq_ci e.name name then some e else find_name name es

module _ {D : Type 0} (device : BlockDevice D) (anodes : AnodeReader) (reserved_blksize : ℕ) where
  -- The entries of one directory block; a block that is no directory block is passed over.
  unfoldable pub block_entries : ℕ → Exec (Env D) (List DirEntry)
  unfolding read_reserved u16_at parse_dirblock_entries
  block_entries blk = do
    bytes ← read_reserved device blk reserved_blksize
    if ltb (length bytes) (dir_block_header_size + 1) then pure [] else do
      id ← lift (u16_at bytes 0)
      if id == dblkid then lift (parse_dirblock_entries bytes) else pure []

  unfoldable pub list_entries : ℕ → Exec (Env D) (List DirEntry)
  unfolding get_chain block_entries concat_each
  list_entries dir_anode = do
    chain ← get_chain device anodes dir_anode
    concat_each chain (λ an. concat_each (extent_blocks an) block_entries)

  unfoldable pub lookup : ℕ → Str → Exec (Env D) DirEntry
  unfolding list_entries find_name
  lookup dir_anode name = do
    entries ← list_entries dir_anode
    lift (ok_or (find_name name entries) (not_found name))

  -- The final component: a missing entry is no error.
  abbrev pub final : Result DirEntry → Result (Option DirEntry)
  final (ok entry) = ok (some entry)
  final (err (not_found name)) = ok none
  final (err e) = err e
  final panic = panic

  unfoldable pub resolve_parts : ℕ → List Str → Exec (Env D) (Option DirEntry)
  unfolding lookup is_dir
  resolve_parts dir_anode [] = pure none
  resolve_parts dir_anode (part ∷ []) = λ s. let (r, s') = lookup dir_anode part s in (final r, s')
  resolve_parts dir_anode (part ∷ next ∷ parts) = do
    entry ← lookup dir_anode part
    if is_dir entry then resolve_parts entry.anode (next ∷ parts) else raise not_a_directory

  unfoldable pub resolve_path : Str → Exec (Env D) (Option DirEntry)
  unfolding resolve_parts path_parts
  resolve_path path = resolve_parts anode_rootdir (path_parts path)

  unfoldable pub resolve_dir_parts : ℕ → List Str → Exec (Env D) ℕ
  unfolding lookup is_dir
  resolve_dir_parts dir_anode [] = pure dir_anode
  resolve_dir_parts dir_anode (part ∷ parts) = do
    entry ← lookup dir_anode part
    if is_dir entry then resolve_dir_parts entry.anode parts else raise not_a_directory

  unfoldable pub resolve_dir_path : Str → Exec (Env D) ℕ
  unfolding resolve_dir_parts path_parts
  resolve_dir_path path = resolve_dir_parts anode_rootdir (path_parts path)
