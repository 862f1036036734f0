-- ===== src/Writer/Bitmaps/Keeps.antt =====
-- About `write_data_bitmap_block` of crates/libpfs3/src/writer.rs: what it leaves.
use pfs.Prelude.{ℕ, List, ◌≡◌, refl, Option, none, some, get_elem?}
use pfs.Exec.{continue, Ensures, Ensures-continue}
use pfs.Bytes.{put_u32}
use pfs.Io.{BlockDevice}
use pfs.Writer.State.{Writer}
use pfs.Writer.Sectors.{put_words}
use pfs.Writer.Pending.{read_reserved_raw, write_reserved, read_unless_pending, last_write}
use pfs.Writer.Bitmaps.{write_stamped, write_longs, write_data_bitmap_block}

module _ {D : Type 0} (device : BlockDevice D) where
  -- Writing a bitmap block leaves the rootblock and the bitmaps in memory.
  pub record Keeps (w w' : Writer D) : Type 0 where
    pub rootblock : w'.vol.rootblock ≡ w.vol.rootblock
    pub data_bm : w'.data_bm ≡ w.data_bm
    pub bitmapstart : w'.bitmapstart ≡ w.bitmapstart
    pub index_per_block : w'.index_per_block ≡ w.index_per_block

  Keeps-refl : (w : Writer D) → Keeps w w
  Keeps-refl w = record {
    rootblock = refl;
    data_bm = refl;
    bitmapstart = refl;
    index_per_block = refl;
  }

  write_stamped-Keeps :
      (blk : ℕ) (longs bytes : List ℕ) (w : Writer D)
      → Ensures (λ u w'. Keeps w w') (write_stamped device blk longs bytes w)
  unfolding write_stamped write_reserved
  write_stamped-Keeps blk longs bytes w =
      Ensures-continue _ (put_u32 bytes 4 w.datestamp) _ w (λ stamped e.
        Ensures-continue _ (put_words stamped 12 longs) _ w (λ patched e'. record {
          rootblock = refl;
          data_bm = refl;
          bitmapstart = refl;
          index_per_block = refl;
        }))

  write_longs-Keeps :
      (o : Option (ℕ × List ℕ)) (w : Writer D)
      → Ensures (λ u w'. Keeps w w') (write_longs device o w)
  unfolding write_longs read_reserved_raw
  write_longs-Keeps none w = tt
  write_longs-Keeps (some (blk, longs)) w = go (last_write blk w.pending_writes)
    where
      go :
          (o : Option (List ℕ))
          → Ensures
              (λ u w'. Keeps w w')
              (continue
                (read_unless_pending device blk o w).0
                (write_stamped device blk longs)
                (read_unless_pending device blk o w).1)
      go (some bytes) = write_stamped-Keeps blk longs bytes w
      go none =
          Ensures-continue _ (read_unless_pending device blk none w).0
            (write_stamped device blk longs) w (λ bytes e. write_stamped-Keeps blk longs bytes w)

  pub write_data_bitmap_block-Keeps :
      (bm_idx : ℕ) (w : Writer D)
      → Ensures (λ u w'. Keeps w w') (write_data_bitmap_block device bm_idx w)
  unfolding write_data_bitmap_block
  write_data_bitmap_block-Keeps bm_idx w = write_longs-Keeps (get_elem? w.data_bm bm_idx) w
