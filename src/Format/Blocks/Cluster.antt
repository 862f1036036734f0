-- ===== src/Format/Blocks/Cluster.antt =====
-- About the rootblock cluster that a format writes.
use pfs.Prelude.{ℕ, ◌*◌, List, refl, length, length-replicate, min, arith}
use pfs.Error.{Str, Returns, Returns-step, Returns-bind, Returns-map}
use pfs.Bytes.{zeros}
use pfs.Bytes.Laws.{copy_from_slice_eq}
use pfs.Bytes.Fields.Laws.{put_fields_eq, length-written}
use pfs.Ondisk.Rootblock
use pfs.Util.Names.{as_bytes}
use pfs.Format.Geometry.{Geometry, options}
use pfs.Format.Blocks.{Layout, Stamp, head_fields, tail_fields, rootblock_cluster}
use pfs.Format.Blocks.Keeps.{Keeps-trans, put_reserved_bitmap-Keeps}
use pfs.Format.Blocks.Union.{put_index_union-PutsIndices, indices-Keeps}
use pfs.Format.Blocks.Description.{InRange, Describes, kept_name}
use pfs.Format.Blocks.Head.{zeros3, stage1, stage2, stage3, len1, len2, name_fits, parse-Describes}

-- The rootblock cluster that a format builds, with any reserved bitmap behind it, is read back by the
-- parser that mounting uses, and each field that the parser gives is the one that the format computed: the
-- disk type, the options, the datestamp 1, the date, the protection, the volume name cut to 30
-- bytes, the bounds of the reserved area, the sizes of reserved blocks, the free counts, a 20th of the
-- data blocks as always free, no roving pointer and no delete directory, the size of the disk, the
-- extension, and the bitmap index and anode index filled up with zeros. The numbers fit the fields
-- they are stored in, the cluster has a second sector with room for the head of the reserved bitmap,
-- a sector has 512 bytes or more, and the disk needs at most 104 bitmap index blocks.
pub rootblock_cluster-Describes :
    (g : Geometry) (l : Layout) (t : Stamp) (name : Str) (rf : ℕ) (longs : List ℕ) (db total : ℕ)
    → InRange g l t rf db total
    → Returns
        (λ bytes. Returns (Describes g l t name rf db total) (Rootblock.parse bytes))
        (rootblock_cluster g l t name rf longs db total)
unfolding rootblock_cluster
rootblock_cluster-Describes g l t name rf longs db total r =
    let n = g.rblkcluster * g.bs in
    let namelen = min (length (as_bytes name)) 30 in
    let s2 = stage2 g l t name rf db total r in
    let s3 = stage3 g l t name rf db total r in
    let l1 = len1 g l t name rf db total r in
    let l2 = len2 g l t name rf db total r in
    let nf = name_fits g l t name rf db total r in
    Returns-step _
      (put_fields_eq (zeros n) (head_fields (options g) t namelen) 0x15 refl
        (omega (arith, length-replicate {A = ℕ} n 0, r.cluster_size)))
      (Returns-step _
        (copy_from_slice_eq (stage1 g l t name rf db total r) 0x15 (kept_name name)
          (omega (arith, l1, nf, r.cluster_size)))
        (Returns-step _
          (put_fields_eq s2 (tail_fields g l rf db total) 0x60 refl
            (omega (arith, l2, r.cluster_size)))
          (Returns-bind
            (put_index_union-PutsIndices s3 g.supermode l
              (omega (arith, l2, length-written s2 (tail_fields g l rf db total), r.cluster_size))
              r.index_fits (zeros3 g l t name rf db total r))
            (λ d f.
              Returns-map
                (put_reserved_bitmap-Keeps 512 d g.bs longs (omega (arith, r.second_sector)) (
                  omega (
                    arith,
                    l2,
                    length-written s2 (tail_fields g l rf db total),
                    f.keeps.same_length,
                    r.both_sectors,
                  )))
                (λ c k.
                  parse-Describes g l t name rf db total r c (Keeps-trans (omega arith) f.keeps k)
                    (indices-Keeps d c g.supermode l r.index_fits k f.holds))))))
