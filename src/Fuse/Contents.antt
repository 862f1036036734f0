-- ===== src/Fuse/Contents.antt =====
-- About the buffers of open files.
use pfs.Prelude.{
  write_at_eq, drop_past, take_past, take-longer, ℕ, ◌+◌, ◌-◌, ◌≤◌, List, [], ◌++◌, ◌≡◌, ◌≢◌, refl,
  ap, sym, ◌∙◌, Bool, true, false, Option, none, some, length, take, drop, replicate, write_at, ltb,
  if◌then◌else◌, ◌||◌, ◌==◌, arith, Bool-cases, inl, inr, length-append, length-replicate,
  length-take, append-nil,
}
use mathlib.Core.Path.{subst}
use pfs.Error.{Result, ok, err, panic}
use pfs.Io.{BlockDevice}
use pfs.Exec.{Exec}
use pfs.Writer.State.{Writer}
use pfs.Writer.Files.{overwrite_file_in}
use pfs.Fuse.Maps.{
  ino_key, get, remove, update, get-remove_self, get-remove_ne, get-insert_self, get-insert_ne,
  get-update_self, get-update_ne,
}
use pfs.Fuse.Reply.{Reply, reply, error, died, eio, answer, ◌>>=◌}
use pfs.Fuse.Types.{FsInner, Pfs3Fs, WriteBuf, VolumeAccess, writing, writing_on}
use pfs.Fuse.Buffers.{
  overlaid, resize, set_content, write, release, release_buffer, store, after_store, is_empty,
  anode_or, set_stored_size,
}

overlaid_within :
    (buf : List ℕ) (off : ℕ) (bytes : List ℕ)
    → off + length bytes ≤ length buf
    → write_at buf off bytes ≡ resize off buf ++ bytes ++ drop (off + length bytes) buf
overlaid_within buf off bytes h =
    let within : off - length buf ≡ 0 = omega arith in
    let nothing : replicate {A = ℕ} (off - length buf) 0 ≡ [] = rw within refl in
    write_at_eq buf off (off + length bytes) bytes refl h
    ∙ ap (λ l. l ++ bytes ++ drop (off + length bytes) buf)
        (sym (ap (λ l. take off buf ++ l) nothing ∙ append-nil (take off buf)))

length-resize : (n : ℕ) (buf : List ℕ) → length buf ≤ n → length (resize n buf) ≡ n
length-resize n buf h =
    length-append (take n buf) (replicate (n - length buf) 0)
    ∙ rw (length-take n buf, length-replicate {A = ℕ} (n - length buf) 0) (omega arith)

overlaid_beyond :
    (buf : List ℕ) (off : ℕ) (bytes : List ℕ)
    → length buf ≤ off + length bytes
    → write_at (resize (off + length bytes) buf) off bytes
      ≡ resize off buf ++ bytes ++ drop (off + length bytes) buf
overlaid_beyond buf off bytes h =
    let end = off + length bytes in
    let longer = resize end buf in
    let size : length longer ≡ end = length-resize end buf h in
    let all : take end buf ≡ buf = take_past end buf h in
    let front : take off longer ≡ resize off buf =
      ap (λ l. take off (l ++ replicate (end - length buf) 0)) all
      ∙ take-longer off (end - length buf) (off - length buf) buf 0 (omega arith) refl in
    write_at_eq longer off end bytes refl (omega arith)
    ∙ rw (front, drop_past end longer (omega arith), drop_past end buf h) refl

pub overlaid_eq :
    (buf : List ℕ) (off : ℕ) (bytes : List ℕ)
    → overlaid buf off bytes ≡ resize off buf ++ bytes ++ drop (off + length bytes) buf
unfolding overlaid
overlaid_eq buf off bytes = elim (Bool-cases (ltb (length buf) (off + length bytes))) [
  | inl e ↦ rw e (overlaid_beyond buf off bytes (ltb_le e))
  | inr e ↦ rw e (overlaid_within buf off bytes (ltb_ge e))
]
  where
    ltb_le : ltb (length buf) (off + length bytes) ≡ true → length buf ≤ off + length bytes
    ltb_le e = ground arith

    ltb_ge : ltb (length buf) (off + length bytes) ≡ false → off + length bytes ≤ length buf
    ltb_ge e = ground arith

-- The buffers of the state afterwards: that of `ino` holds `content`, the others are as before, and
-- neither is the volume touched.
pub record Buffered {D : Type 0} (ino : ℕ) (b : WriteBuf) (content : List ℕ) (s t : FsInner D)
    : Type 0 where
  pub buffer : get ino t.write_bufs ≡ some (set_content content b)
  pub others : (other : ℕ) → ino ≢ other → get other t.write_bufs ≡ get other s.write_bufs
  pub volume : t.access ≡ s.access

abbrev pub Overlays :
    {D : Type 0} → ℕ → WriteBuf → ℕ → List ℕ → FsInner D → Reply ℕ × FsInner D → Type 0
Overlays ino b off bytes s (r, t) =
    (r ≡ reply (length bytes))
    × Buffered ino b (resize off b.content ++ bytes ++ drop (off + length bytes) b.content) s t

-- A write to an open file replies with the number of its bytes. The buffer then holds what it held
-- before the offset, filled up with zeros where it was shorter, the bytes, and what it held behind
-- them; no other buffer and nothing of the volume changes.
pub write-Overlays :
    {D : Type 0} (device : BlockDevice D) (fs : Pfs3Fs) (ino off : ℕ) (bytes : List ℕ)
    (s : FsInner D) (b : WriteBuf)
    → fs.writable ≡ true
    → get ino s.write_bufs ≡ some b
    → Overlays ino b off bytes s (write device fs ino off bytes s)
unfolding write
write-Overlays device fs ino off bytes s b writable open_buffer =
    rw (writable, open_buffer)
      (
        refl,
        record {
          buffer =
              get-update_self ino _ s.write_bufs open_buffer
              ∙ ap (λ c. some (set_content c b)) (overlaid_eq b.content off bytes);
          others = λ other ne. get-update_ne ino other _ s.write_bufs ne;
          volume = refl;
        },
      )

module _ {D : Type 0} (device : BlockDevice D) where
  -- The store that a release asks for, if it asks for one and there is a writer, and the volume
  -- behind it.
  abbrev pub stored_by_release :
      ℕ → WriteBuf → FsInner D → Option (Result (Unit {0})) × VolumeAccess D
  stored_by_release ino b s =
      if is_empty b.content || anode_or 0 (get ino s.inodes) == 0
      then (none, s.access)
      else writing_on
          (overwrite_file_in device b.parent_anode b.file_name (anode_or 0 (get ino s.inodes))
            b.content)
          s.access

module _ {D : Type 0} where
  -- What is the same after any release: the volume is as the store left it, and the buffers of other
  -- files stay.
  pub record Besides (ino : ℕ) (s : FsInner D) (access : VolumeAccess D) (t : FsInner D)
      : Type 0 where
    pub volume : t.access ≡ access
    pub others : (other : ℕ) → ino ≢ other → get other t.write_bufs ≡ get other s.write_bufs

module _ {D : Type 0} (device : BlockDevice D) (fs : Pfs3Fs) where
  -- The answer to a release and the tables behind it, by what became of the store.
  abbrev pub Released :
      ℕ
      → WriteBuf
      → FsInner D
      → Option (Result (Unit {0})) × VolumeAccess D
      → Reply (Unit {0}) × FsInner D
      → Type 0
  Released ino b s (none, access) (r, t) =
      (r ≡ reply tt)
      × (get ino t.write_bufs ≡ none)
      × (t.inodes ≡ s.inodes)
      × Besides ino s access t
  Released ino b s (some (ok u), access) (r, t) =
      (r ≡ reply tt)
      × (get ino t.write_bufs ≡ none)
      × (t.inodes ≡ update ino (set_stored_size device fs (length b.content)) s.inodes)
      × Besides ino s access t
  Released ino b s (some (err e), access) (r, t) =
      (r ≡ error eio)
      × (get ino t.write_bufs ≡ some b)
      × (t.inodes ≡ s.inodes)
      × Besides ino s access t
  Released ino b s (some panic, access) (r, t) =
      (r ≡ died) × (get ino t.write_bufs ≡ none) × (t.inodes ≡ s.inodes) × Besides ino s access t

module _ {D : Type 0} (device : BlockDevice D) (fs : Pfs3Fs) (ino : ℕ) (b : WriteBuf)
    (s : FsInner D) where
  abbrev without : FsInner D
  without = record s { write_bufs = remove ino s.write_bufs }

  others_kept : (other : ℕ) → ino ≢ other → get other without.write_bufs ≡ get other s.write_bufs
  others_kept other ne = get-remove_ne ino other s.write_bufs ne

  after_store-Released :
      (o : Option (Result (Unit {0}))) (access : VolumeAccess D)
      → Released device fs ino b s
          (o, access)
          (after_store device fs ino b o (record without { access = access }))
  after_store-Released none access =
      (refl, get-remove_self ino s.write_bufs, refl, record { volume = refl; others = others_kept })
  after_store-Released (some (ok u)) access = (
    refl,
    get-remove_self ino (remove ino s.write_bufs),
    refl,
    record {
      volume = refl;
      others =
          λ other ne. get-remove_ne ino other (remove ino s.write_bufs) ne ∙ others_kept other ne;
    },
  )
  after_store-Released (some (err e)) access = (
    refl,
    get-insert_self ino b (remove ino s.write_bufs),
    refl,
    record {
      volume = refl;
      others =
          λ other ne. get-insert_ne ino other b (remove ino s.write_bufs) ne ∙ others_kept other ne;
    },
  )
  after_store-Released (some panic) access =
      (refl, get-remove_self ino s.write_bufs, refl, record { volume = refl; others = others_kept })

  -- A method of the writer, then what its result asks for.
  stored-Released :
      (m : Exec (Writer D) (Unit {0}))
      → Released device fs ino b s
          (writing_on m s.access)
          ((writing m >>= after_store device fs ino b) without)
  unfolding writing
  stored-Released m = let (o, access) = writing_on m s.access in after_store-Released o access

  store-Released :
      (skip : Bool) (m : Exec (Writer D) (Unit {0}))
      → Released device fs ino b s
          (if skip then (none, s.access) else writing_on m s.access)
          ((if skip then answer tt else (writing m >>= after_store device fs ino b)) without)
  store-Released true m = after_store-Released none s.access
  store-Released false m = stored-Released m

-- A release stores the bytes of the buffer, unless it is empty, nothing is known of the file or there is
-- no writer. Where nothing is to be stored, or the store succeeds, it replies and drops the buffer,
-- and after a store the inode shows the stored size. Where the store fails, the answer is EIO, and
-- the buffer is kept with its bytes. In each case the volume is as the store left it, and the
-- buffers of other files stay.
pub release-Released :
    {D : Type 0} (device : BlockDevice D) (fs : Pfs3Fs) (ino : ℕ) (s : FsInner D) (b : WriteBuf)
    → get ino s.write_bufs ≡ some b
    → Released device fs ino b s (stored_by_release device ino b s) (release device fs ino s)
unfolding release release_buffer store
release-Released device fs ino s b open_buffer =
    subst
      (λ o.
        Released device fs ino b s (stored_by_release device ino b s)
          (release_buffer device fs ino o s))
      (sym open_buffer)
      (store-Released device fs ino b s (is_empty b.content || anode_or 0 (get ino s.inodes) == 0) (
        overwrite_file_in device b.parent_anode b.file_name (anode_or 0 (get ino s.inodes))
          b.content))
