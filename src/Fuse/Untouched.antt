-- ===== src/Fuse/Untouched.antt =====
-- About the device under a file system mounted from a volume without a writer.
use pfs.Prelude.{List, ◌≡◌, ◌∙◌}
use pfs.Error.{Result, ok, err, panic}
use pfs.Exec.{Exec}
use pfs.Io.{BlockDevice}
use pfs.Cache.Quiet.{Quiet}
use pfs.Ondisk.DelDir.{DelDirEntry}
use pfs.Volume.{Volume, list_deldir, list_dir_by_anode, read_file_range, read_file_data}
use pfs.Volume.Quiet.{
  volume_dev, list_dir_by_anode-Quiet, read_file_data-Quiet, read_file_range-Quiet,
  list_deldir-Quiet,
}
use pfs.Writer.State.{Writer}
use pfs.Fuse.Safe.{Safe, Any}
use pfs.Fuse.Types.{
  FsInner, Pfs3Fs, VolumeAccess, read_only, read_write, calling, writing, writing_on, on_volume,
}
use pfs.Fuse.Deldir.{rebuild_deldir, rebuilt, with_entries}
use pfs.Fuse.Mount.{Request}
use pfs.Fuse.Invariant.{IsValid, FsInvariant, calling-Safe, writing-Safe, rebuild_deldir-Safe}
use pfs.Fuse.Invariant.Serving.{served, served-keeps}

-- The access is to a volume alone, on the device `d`.
abbrev pub ReadsFrom : {D : Type 0} → D → VolumeAccess D → Type 0
ReadsFrom d (read_only v) = volume_dev v ≡ d
ReadsFrom d (read_write w) = ⊥

pub record IsReadOnly {D : Type 0} (d : D) (s : FsInner D) : Type 0 where
  pub is_valid : IsValid s
  pub reads_from : ReadsFrom d s.access

module _ {D : Type 0} (device : BlockDevice D) (d : D) where
  on_volume-ReadsFrom :
      {A : Type 0} (m : Exec (Volume D) A) (access : VolumeAccess D)
      → Quiet volume_dev m
      → ReadsFrom d access
      → ReadsFrom d ((on_volume m access).1)
  on_volume-ReadsFrom m (read_only v) q h = q.run v ∙ h
  on_volume-ReadsFrom m (read_write w) q h = absurd h

  calling-IsReadOnly :
      {A : Type 0} (m : Exec (Volume D) A)
      → Quiet volume_dev m
      → Safe (IsReadOnly d) Any (calling m)
  unfolding calling
  calling-IsReadOnly m q = record {
    run = λ s p. (
      record {
        is_valid = ((calling-Safe m).run s p.is_valid).0;
        reads_from = on_volume-ReadsFrom m s.access q p.reads_from;
      },
      tt,
    );
  }

  -- Without a writer nothing is written.
  writing_on-ReadsFrom :
      {A : Type 0} (m : Exec (Writer D) A) (access : VolumeAccess D)
      → ReadsFrom d access
      → ReadsFrom d ((writing_on m access).1)
  writing_on-ReadsFrom m (read_only v) h = h
  writing_on-ReadsFrom m (read_write w) h = absurd h

  writing-IsReadOnly : {A : Type 0} (m : Exec (Writer D) A) → Safe (IsReadOnly d) Any (writing m)
  unfolding writing
  writing-IsReadOnly m = record {
    run = λ s p. (
      record {
        is_valid = ((writing-Safe m).run s p.is_valid).0;
        reads_from = writing_on-ReadsFrom m s.access p.reads_from;
      },
      tt,
    );
  }

  rebuilt-access :
      (r : Result (List DelDirEntry)) (s : FsInner D)
      → ReadsFrom d s.access
      → ReadsFrom d ((rebuilt r s).1).access
  unfolding with_entries
  rebuilt-access (ok entries) s h = h
  rebuilt-access (err e) s h = h
  rebuilt-access panic s h = h

  rebuild_deldir-IsReadOnly : Safe (IsReadOnly d) Any (rebuild_deldir device)
  unfolding rebuild_deldir
  rebuild_deldir-IsReadOnly = record {
    run = λ s p.
        let kept = (rebuild_deldir-Safe device).run s p.is_valid in
        let (r, access) = on_volume (list_deldir device) s.access in
        (
          record {
            is_valid = kept.0;
            reads_from =
                rebuilt-access r (record s { access = access })
                  (on_volume-ReadsFrom (list_deldir device) s.access (list_deldir-Quiet device)
                    p.reads_from);
          },
          kept.1,
        );
  }

  IsReadOnly-FsInvariant : FsInvariant device (IsReadOnly d)
  IsReadOnly-FsInvariant = record {
    valid = λ s p. p.is_valid;
    listing = λ anode.
        calling-IsReadOnly (list_dir_by_anode device anode) (list_dir_by_anode-Quiet device anode);
    ranged = λ anode size offset len.
        calling-IsReadOnly (read_file_range device anode size offset len)
          (read_file_range-Quiet device anode size offset len);
    whole = λ anode size.
        calling-IsReadOnly (read_file_data device anode size)
          (read_file_data-Quiet device anode size);
    rebuild = rebuild_deldir-IsReadOnly;
    written = λ m. writing-IsReadOnly m;
    tables = λ s inodes cache bufs p own. record {
      is_valid = record { own = own; above = p.is_valid.above };
      reads_from = p.reads_from;
    };
  }

  -- A file system that has a volume without a writer leaves the device as it is under any requests,
  -- those to write included, and stays in a valid state.
  pub served-IsReadOnly :
      (fs : Pfs3Fs) (requests : List Request) (s : FsInner D)
      → IsReadOnly d s
      → IsReadOnly d (served device fs requests s)
  served-IsReadOnly fs requests s p =
      served-keeps device fs (IsReadOnly d) IsReadOnly-FsInvariant requests s p
