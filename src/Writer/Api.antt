-- ===== src/Writer/Api.antt =====
-- The entry points of `Writer`: opening, the methods that take paths, and the volume name.
use pfs.Prelude.{
  add32, sub32, ℕ, ◌+◌, ◌-◌, ◌*◌, ◌/◌, ◌%◌, List, [], ◌∷◌, ltb, ◌==◌, if◌then◌else◌, length, min,
  take, none, some, get_elem?,
}
use pfs.Error.{Str, chars, Result, ok, err, panic, not_found, already_exists, corrupt, ok_or}
use pfs.Exec.{Exec, pure, raise, lift, gets, modify, ignore, ◌>>=◌, ◌>>◌}
use pfs.Bytes.{slice, set_byte, copy_from_slice, zeros, put_u32}
use pfs.Util.Names.{as_bytes, encode_char, path_parts}
use pfs.Io.{BlockDevice}
use pfs.Volume.{Volume, list_dir_by_anode, lookup, read_file_data}
use pfs.Ondisk.Constants.{
  anode_rootdir, st_linkfile, deldir_header_size, deldir_entry_size, deldir_entries_per_block,
  rb_off_diskname, rb_off_datestamp,
}
use pfs.Ondisk.DelDir
use pfs.Ondisk.Rootblock.{index_per_block, anodes_per_block}
use pfs.Writer.State.{Writer, on_vol, on_dev, set_rootblock}
use pfs.Writer.Pending.{read_reserved_raw, write_reserved, next_datestamp, update_rootblock}
use pfs.Writer.Bitmaps.{load_reserved_bitmap, load_data_bitmap}
use pfs.Writer.Anodes.{clear_anode_chain}
use pfs.Writer.Entries.{add_dir_entry}
use pfs.Writer.Deldir.{nonzero_blocks}
use pfs.Writer.Files.{
  find_subdir, write_file_in, write_file_in_no_commit, create_dir_in, create_softlink_in, delete_in,
}

-- `&s[..n]` on a string: the characters of the first `n` bytes. It panics where `n` is past the end
-- or inside a character.
unfoldable pub str_prefix : Str → ℕ → Result Str
str_prefix [] n = if n == 0 then ok [] else panic
str_prefix (c ∷ s) n =
    let width = length (encode_char c) in
    if n == 0
    then ok []
    else if ltb n width
    then panic
    else elim (str_prefix s (n - width)) [ ok t ↦ ok (c ∷ t) | err e ↦ err e | panic ↦ panic ]

-- The last of the parts, and those before it.
abbrev pub split_last : Str → List Str → List Str × Str
split_last part [] = ([], part)
split_last part (next ∷ parts) = let (init, last) = split_last next parts in (part ∷ init, last)

module _ {D : Type 0} (device : BlockDevice D) where
  open device use {block_size, read_blocks, write_blocks, flush}

  -- The writer before its bitmaps are loaded.
  abbrev unloaded : ℕ → Volume D → Writer D
  unloaded clock v =
      let rb = v.rootblock in
      let rescluster = rb.reserved_blksize / block_size v.env.dev in
      record {
        vol = v;
        resblocksize = rb.reserved_blksize;
        rescluster = rescluster;
        index_per_block = index_per_block rb;
        anodes_per_block = anodes_per_block rb;
        firstreserved = rb.firstreserved;
        numreserved = add32 (sub32 rb.lastreserved rb.firstreserved) 1 / rescluster;
        bitmapstart = add32 rb.lastreserved 1;
        datestamp = rb.datestamp;
        res_bitmap = [];
        data_bm = [];
        pending_writes = [];
        clock = clock;
      }

  abbrev load_bitmaps : Exec (Writer D) (Writer D)
  load_bitmaps = do load_reserved_bitmap device; load_data_bitmap device; gets (λ w. w)

  -- Both divisors are checked by Rust.
  unfoldable pub open_writer : ℕ → Volume D → Result (Writer D)
  unfolding index_per_block anodes_per_block load_reserved_bitmap load_data_bitmap
  open_writer clock v =
      if block_size v.env.dev == 0
      then panic
      else let w = unloaded clock v in if w.rescluster == 0 then panic else (load_bitmaps w).0

  -- Walk down from a directory through subdirectories.
  unfoldable pub walk : ℕ → List Str → Exec (Writer D) ℕ
  unfolding list_dir_by_anode find_subdir
  walk parent [] = pure parent
  walk parent (part ∷ parts) = do
    entries ← on_vol (list_dir_by_anode device parent)
    dir ← lift (ok_or (find_subdir part entries) (not_found part))
    walk dir.anode parts

  unfoldable pub split_path : Str → Exec (Writer D) (ℕ × Str)
  unfolding path_parts walk
  split_path path = elim (path_parts path) [
    | [] ↦ raise (not_found (chars "empty path"))
    | part ∷ parts ↦ do
      parent ← walk anode_rootdir (split_last part parts).0
      pure (parent, (split_last part parts).1)
  ]

  unfoldable pub write_file : Str → List ℕ → Exec (Writer D) (Unit {0})
  unfolding split_path write_file_in
  write_file path bytes = do
    (parent_anode, filename) ← split_path path
    write_file_in device parent_anode filename bytes

  unfoldable pub create_dir : Str → Exec (Writer D) (Unit {0})
  unfolding split_path create_dir_in
  create_dir path = do
    (parent_anode, dirname) ← split_path path
    create_dir_in device parent_anode dirname

  unfoldable pub delete : Str → Exec (Writer D) (Unit {0})
  unfolding split_path delete_in
  delete path = do (parent_anode, name) ← split_path path; delete_in device parent_anode name

  unfoldable pub create_softlink : Str → Str → Exec (Writer D) (Unit {0})
  unfolding split_path create_softlink_in
  create_softlink path target = do
    (parent_anode, name) ← split_path path
    create_softlink_in device parent_anode name target

  unfoldable pub create_hardlink : Str → ℕ → Exec (Writer D) (Unit {0})
  unfolding split_path add_dir_entry update_rootblock
  create_hardlink path target_anode = do
    (parent_anode, name) ← split_path path
    add_dir_entry device parent_anode name st_linkfile target_anode 0 0
    update_rootblock device

  -- The file of a slot of the trash directory is written anew at `dest_path`, then the slot and the
  -- old chain are cleared.
  unfoldable pub restore : ℕ → ℕ → Str → Exec (Writer D) (Unit {0})
  unfolding read_reserved_raw DelDir.parse DelDir.file_size lookup read_file_data split_path
      write_file_in_no_commit clear_anode_chain write_reserved update_rootblock
  restore blk off dest_path = do
    bytes ← read_reserved_raw device blk
    raw ← lift (slice bytes off (off + deldir_entry_size))
    parsed ← lift (DelDir.parse raw)
    entry ← lift (ok_or parsed (not_found (chars "empty deldir slot")))
    existing ← on_vol (lookup device dest_path)
    elim existing [
      | some e ↦ raise (already_exists dest_path)
      | none ↦ do
        file_data ← on_vol (read_file_data device entry.anode (DelDir.file_size entry))
        (parent_anode, filename) ← split_path dest_path
        write_file_in_no_commit device parent_anode filename file_data
        ignore (clear_anode_chain device entry.anode)
        block_data ← read_reserved_raw device blk
        cleared ← lift (copy_from_slice block_data off (zeros deldir_entry_size))
        write_reserved device blk cleared
        update_rootblock device
    ]

  unfoldable pub undelete : ℕ → Str → Exec (Writer D) (Unit {0})
  unfolding nonzero_blocks deldir_entries_per_block restore
  undelete deldir_idx dest_path = do
    v ← gets (λ w. w.vol)
    rext ← lift (ok_or v.rootblock_ext (not_found (chars "no rootblock extension")))
    let per_block = deldir_entries_per_block v.rootblock.reserved_blksize
    if per_block == 0
        then raise (corrupt "invalid reserved block size")
        else elim (get_elem? (nonzero_blocks rext.deldirblocks) (deldir_idx / per_block)) [
          | none ↦ raise (not_found (chars "deldir index out of range"))
          | some blk ↦
              restore blk (deldir_header_size + deldir_idx % per_block * deldir_entry_size)
                dest_path
        ]

  unfoldable pub set_volume_name : Str → Exec (Writer D) (Unit {0})
  unfolding as_bytes str_prefix next_datestamp put_u32
  set_volume_name name = do
    let name_bytes = as_bytes name
    let len = min (length name_bytes) 30
    diskname ← lift (str_prefix name len)
    modify (λ w. set_rootblock w (record (w.vol.rootblock) { diskname = diskname }))
    w ← gets (λ w. w)
    let bs = block_size w.vol.env.dev
    let rblkcluster = w.vol.rootblock.rblkcluster
    c ← lift (read_blocks w.vol.env.dev w.firstreserved rblkcluster (zeros (rblkcluster * bs)))
    c ← lift (copy_from_slice c rb_off_diskname (zeros 32))
    c ← lift (set_byte c rb_off_diskname len)
    c ← lift (copy_from_slice c (rb_off_diskname + 1) (take len name_bytes))
    ds ← next_datestamp device
    c ← lift (put_u32 c rb_off_datestamp ds)
    on_dev (write_blocks w.firstreserved rblkcluster c)
    on_dev flush
