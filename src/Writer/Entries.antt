-- ===== src/Writer/Entries.antt =====
-- The directory methods of `Writer`: finding, adding, removing and changing entries.
use pfs.Prelude.{ℕ, ◌+◌, List, [], ◌∷◌, Bool, ◌==◌, if◌then◌else◌, none, some, true, false, ◌++◌}
use pfs.Error.{Str, not_found}
use pfs.Exec.{Exec, pure, raise, lift, gets, ◌>>=◌, ◌>>◌}
use pfs.Bytes.{zeros, u16_at, put_u16, put_u32, set_byte, copy_from_slice}
use pfs.Io.{BlockDevice}
use pfs.Anode.{get_chain}
use pfs.Ondisk.Anode.{Anode}
use pfs.Ondisk.Constants.{dblkid, dir_block_header_size}
use pfs.Writer.State.{Writer}
use pfs.Writer.Pending.{read_reserved_raw, write_reserved, next_datestamp, update_rootblock}
use pfs.Writer.Bitmaps.{extent_blocks32, alloc_reserved_block}
use pfs.Writer.Anodes.{chain_of, extend_anode_chain}
use pfs.Writer.EntryBytes.{build_dir_entry, find_in_block, append_entry, cut_entry, patch_size}

-- The blocks of a chain, as u32.
abbrev pub chain_blocks32 : List Anode → List ℕ
chain_blocks32 [] = []
chain_blocks32 (an ∷ chain) = extent_blocks32 an ++ chain_blocks32 chain

-- Where an entry was found.
pub record Found : Type 0 where
  pub blk : ℕ
  pub bytes : List ℕ
  pub pos : ℕ

module _ {D : Type 0} (device : BlockDevice D) where
  -- The loops of `find_dir_entry` over the blocks of the directory.
  unfoldable pub find_loop : Str → List ℕ → Exec (Writer D) Found
  unfolding read_reserved_raw u16_at find_in_block
  find_loop name [] = raise (not_found name)
  find_loop name (blk ∷ blks) = do
    bytes ← read_reserved_raw device blk
    id ← lift (u16_at bytes 0)
    rbs ← gets (λ w. w.resblocksize)
    if id == dblkid
        then (do
          found ← lift (find_in_block bytes rbs name)
          elim found [
            | none ↦ find_loop name blks
            | some pos ↦ pure (record { blk = blk; bytes = bytes; pos = pos })
          ])
        else find_loop name blks

  unfoldable pub find_dir_entry : ℕ → Str → Exec (Writer D) Found
  unfolding get_chain find_loop
  find_dir_entry dir_anode name = do
    chain ← chain_of device dir_anode
    find_loop name (chain_blocks32 chain)

  -- Stamp a block that was changed, and write it.
  abbrev stamp_and_write : ℕ → List ℕ → Exec (Writer D) (Unit {0})
  stamp_and_write blk bytes = do
    ds ← next_datestamp device
    stamped ← lift (put_u32 bytes 4 ds)
    write_reserved device blk stamped

  unfoldable pub update_dir_entry_size : ℕ → Str → ℕ → Exec (Writer D) (Unit {0})
  unfolding find_dir_entry patch_size next_datestamp put_u32 write_reserved
  update_dir_entry_size dir_anode name new_size = do
    found ← find_dir_entry dir_anode name
    now ← gets (λ w. w.clock)
    patched ← lift (patch_size now found.bytes found.pos new_size)
    stamp_and_write found.blk patched

  unfoldable pub update_dir_entry_protection : ℕ → Str → ℕ → Exec (Writer D) (Unit {0})
  unfolding find_dir_entry next_datestamp put_u32 write_reserved update_rootblock
  update_dir_entry_protection dir_anode name protection = do
    found ← find_dir_entry dir_anode name
    patched ← lift (set_byte found.bytes (found.pos + 16) protection)
    stamp_and_write found.blk patched
    update_rootblock device

  unfoldable pub remove_dir_entry : ℕ → Str → Exec (Writer D) (Unit {0})
  unfolding find_dir_entry cut_entry next_datestamp put_u32 write_reserved
  remove_dir_entry dir_anode name = do
    found ← find_dir_entry dir_anode name
    rbs ← gets (λ w. w.resblocksize)
    cut ← lift (cut_entry found.bytes rbs found.pos)
    stamp_and_write found.blk cut

  -- The loops of `add_dir_entry` over the blocks: whether one had room.
  unfoldable pub add_loop : List ℕ → List ℕ → Exec (Writer D) Bool
  unfolding read_reserved_raw u16_at append_entry next_datestamp put_u32 write_reserved
  add_loop entry [] = pure false
  add_loop entry (blk ∷ blks) = do
    bytes ← read_reserved_raw device blk
    id ← lift (u16_at bytes 0)
    rbs ← gets (λ w. w.resblocksize)
    if id == dblkid
        then (do
          added ← lift (append_entry bytes rbs entry)
          elim added [
            | none ↦ add_loop entry blks
            | some bytes' ↦ do stamp_and_write blk bytes'; pure true
          ])
        else add_loop entry blks

  -- A new block of the directory that holds the entry alone.
  unfoldable pub add_in_new_block : ℕ → List ℕ → Exec (Writer D) (Unit {0})
  unfolding alloc_reserved_block next_datestamp put_u16 put_u32 write_reserved extend_anode_chain
  add_in_new_block dir_anode entry = do
    new_blk ← alloc_reserved_block device
    rbs ← gets (λ w. w.resblocksize)
    b ← lift (put_u16 (zeros rbs) 0x00 dblkid)
    ds ← next_datestamp device
    b ← lift (put_u32 b 0x04 ds)
    b ← lift (put_u32 b 0x0C dir_anode)
    b ← lift (put_u32 b 0x10 dir_anode)
    b ← lift (copy_from_slice b dir_block_header_size entry)
    write_reserved device new_blk b
    extend_anode_chain device dir_anode new_blk

  unfoldable pub add_dir_entry : ℕ → Str → ℕ → ℕ → ℕ → ℕ → Exec (Writer D) (Unit {0})
  unfolding build_dir_entry get_chain add_loop add_in_new_block
  add_dir_entry dir_anode name entry_type anode fsize protection = do
    now ← gets (λ w. w.clock)
    entry ← lift (build_dir_entry now name entry_type anode fsize protection)
    chain ← chain_of device dir_anode
    added ← add_loop entry (chain_blocks32 chain)
    if added then pure tt else add_in_new_block dir_anode entry
