-- ===== src/Check/Repair.antt =====
-- `run` of src/cmd/check.rs: the checks of a volume around the scan of its directories, and the repairs.
use pfs.Prelude.{
  ℕ, List, [], ◌∷◌, Bool, true, false, ◌&&◌, ◌||◌, Option, none, some, leb, ltb, ◌==◌,
  if◌then◌else◌, length, contains, add32, sub32,
}
use pfs.Error.{unwrap_or, Str, Result, ok, err, panic}
use pfs.Exec.{Exec, pure, lift, gets, attempt, ◌>>=◌, ◌>>◌}
use pfs.Io.{BlockDevice}
use pfs.Ondisk.Constants.{anode_rootdir}
use pfs.Ondisk.Rootblock.{Rootblock, RootblockExt, has_extension}
use pfs.Volume.{bitmap_count_free, reserved_count_free}
use pfs.Writer.State.{Writer}
use pfs.Writer.Files.{force_remove_entry, repair_blocksfree, repair_reserved_free}
use pfs.Fuse.Maps.{ino_key}
use pfs.Check.Context.{CheckCtx, add_error, add_warning}
use pfs.Check.Scan.{Checking, looking, note, scan_dir}

-- The checks of the rootblock and of its extension.
unfoldable pub check_rootblock : Rootblock → Option RootblockExt → CheckCtx → CheckCtx
unfolding has_extension
check_rootblock rb rbe c =
    let c = if leb rb.lastreserved rb.firstreserved || rb.disksize == 0 then add_error c else c in
    if has_extension rb then elim rbe [ none ↦ add_error c | some e ↦ c ] else c

-- The free blocks of the bitmap against those of the rootblock.
unfoldable pub check_bitmap : Bool → ℕ → ℕ → CheckCtx → CheckCtx
check_bitmap repair blocksfree bitmap_free c =
    if bitmap_free == blocksfree
    then c
    else let c = add_warning c in
      if repair then record c { correct_blocksfree = some bitmap_free } else c

unfoldable pub check_anodes : CheckCtx → CheckCtx
unfolding contains
check_anodes c = if contains c.used_anodes 0 then add_warning c else c

abbrev pub reserved_differs : Bool → ℕ → CheckCtx → CheckCtx
reserved_differs repair actual_free c =
    let c = add_warning c in
    if repair then record c { correct_reserved_free = some actual_free } else c

module _ {D : Type 0} (device : BlockDevice D) where
  -- The reserved bitmap that cannot be read is passed over.
  abbrev pub check_reserved : Bool → ℕ → Result ℕ → Exec (Checking D) (Unit {0})
  check_reserved repair reserved_free (ok actual_free) =
      if actual_free == reserved_free then pure tt else note (reserved_differs repair actual_free)
  check_reserved repair reserved_free (err e) = pure tt
  check_reserved repair reserved_free panic = lift panic

  -- The scan of `run`. The result is the size of the data area, which only the summary shows.
  unfoldable pub scan_volume : ℕ → Bool → Exec (Checking D) ℕ
  unfolding check_rootblock scan_dir bitmap_count_free check_bitmap check_anodes reserved_count_free
  scan_volume stack repair = do
    v ← gets (λ s. s.vol)
    let rb = v.rootblock
    note (check_rootblock rb v.rootblock_ext)
    scan_dir device stack anode_rootdir (b'/' ∷ [])
    counted ← looking (bitmap_count_free device)
    bitmap_free ← lift (unwrap_or 0 counted)
    note (check_bitmap repair rb.blocksfree bitmap_free)
    note check_anodes
    actual ← looking (reserved_count_free device)
    check_reserved repair rb.reserved_free actual
    pure (sub32 rb.disksize (add32 rb.lastreserved 1))

  -- What was found is worth a writer.
  abbrev pub is_some : Option ℕ → Bool
  is_some none = false
  is_some (some n) = true

  unfoldable pub needs_repair : Bool → CheckCtx → Bool
  needs_repair repair c =
      repair
      && (ltb 0 (length c.broken_files)
          || ltb 0 (length c.wrong_size)
          || is_some c.correct_blocksfree
          || is_some c.correct_reserved_free)

  -- A corrected count is stored, and one repair is counted.
  abbrev pub repair_count : (ℕ → Exec (Writer D) (Unit {0})) → Option ℕ → ℕ → Exec (Writer D) ℕ
  repair_count store none repairs = pure repairs
  repair_count store (some n) repairs = do store n; pure (add32 repairs 1)

  abbrev pub count_removed : Option (Unit {0}) → ℕ → ℕ
  count_removed none repairs = repairs
  count_removed (some u) repairs = add32 repairs 1

  -- The broken entries are removed; one that cannot be is passed over.
  unfoldable pub remove_broken : List (ℕ × Str) → ℕ → Exec (Writer D) ℕ
  unfolding force_remove_entry
  remove_broken [] repairs = pure repairs
  remove_broken ((parent_anode, name) ∷ files) repairs = do
    removed ← attempt (force_remove_entry device parent_anode name)
    remove_broken files (count_removed removed repairs)

  -- The repairs of `run`, on the writer that it opens; the number of repairs comes back.
  unfoldable pub apply_repairs : CheckCtx → Exec (Writer D) ℕ
  unfolding repair_blocksfree repair_reserved_free remove_broken
  apply_repairs c = do
    repairs ← repair_count (repair_blocksfree device) c.correct_blocksfree c.repairs
    repairs ← repair_count (repair_reserved_free device) c.correct_reserved_free repairs
    remove_broken c.broken_files repairs
