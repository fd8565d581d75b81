-- ===== src/Ospfs/Index/Agree.antt =====
-- The index functions by which Lab3/ospfsmod.c stores block numbers, against the place where its
-- ospfs_inode_blockno looks them up.
use cs111_ucla.Prelude.{
  ℕ, ◌+◌, ◌/◌, ◌%◌, ◌-◌, ◌≤◌, ◌<◌, ◌≡◌, ◌≢◌, ◌⊎◌, arith, ltb, if◌then◌else◌, ℤ, pos, negsuc,
}
use cs111_ucla.Ospfs.Disk.{Disk, load32}
use cs111_ucla.Ospfs.Index.{
  nindirect, indir2_index, indir_index, direct_index, oi_direct, oi_indirect, oi_indirect2, entry,
  ospfs_inode_blockno, oi_size, oi_ftype, ftype_symlink,
}

-- The three kinds of places of ospfs.h: in the inode, in the indirect block, or in one of the
-- indirect blocks that the doubly indirect block names.
pub data Place : Type 0 where
  direct : ℕ → Place
  indirect : ℕ → Place
  indirect2 : ℕ → ℕ → Place

-- The layout of ospfs.h.
abbrev pub place : ℕ → Place
place b =
    if ltb b 10
    then direct b
    else if ltb b 266
    then indirect (b - 10)
    else indirect2 ((b - 266) / 256) ((b - 266) % 256)

-- The place that the three index functions stand for, read as add_block reads them.
abbrev pub indexed : ℤ → ℤ → ℕ → Place
indexed (pos _) (pos q) i = indirect2 q i
indexed (negsuc _) (pos _) i = indirect i
indexed _ (negsuc _) i = direct i

-- The word that ospfs_inode_blockno reads for a place.
abbrev pub lookup_place : ℕ → Place → Disk → ℕ
lookup_place oi (direct i) d = load32 d (oi_direct oi i)
lookup_place oi (indirect i) d = load32 d (entry (load32 d (oi_indirect oi)) i)
lookup_place oi (indirect2 q i) d =
    load32 d (entry (load32 d (entry (load32 d (oi_indirect2 oi)) q)) i)

-- Inside a file that is no symbolic link, ospfs_inode_blockno finds the block of an offset at the
-- place that the layout of ospfs.h gives it.
pub ospfs_inode_blockno-place :
    (oi offset : ℕ) (d : Disk)
    → offset < load32 d (oi_size oi)
    → load32 d (oi_ftype oi) ≢ ftype_symlink
    → ospfs_inode_blockno oi offset d ≡ lookup_place oi (place (offset / 1024)) d
unfolding ospfs_inode_blockno
ospfs_inode_blockno-place oi offset d h t = ground arith

-- The index functions give a file block the place where it is looked up, for the direct blocks, the
-- blocks of the indirect block, and the blocks from 522 on.
pub indices_agree :
    (b : ℕ)
    → (b < 266) ⊎ (522 ≤ b)
    → indexed (indir2_index b) (indir_index b) (direct_index b) ≡ place b
unfolding indir2_index indir_index direct_index
indices_agree b h = ground arith

-- For the 256 blocks from 266 on, which belong to the first indirect block under the doubly
-- indirect one, direct_index gives an index that is 256 too large: past the end of that block.
pub direct_index_overruns :
    (b : ℕ)
    → 266 ≤ b
    → b < 522
    → (direct_index b ≡ (b - 266) % 256 + nindirect)
      × (indexed (indir2_index b) (indir_index b) (direct_index b) ≢ place b)
unfolding indir2_index indir_index direct_index
direct_index_overruns b lo hi = ground arith
