-- ===== src/Ospfs/Grow/Frame.antt =====
-- Where the regions of a disk of Lab3/ospfs.h lie, for the proofs about growing and shrinking a
-- file: the superblock, the bitmap, an inode and the data blocks do not meet.
use cs111_ucla.Prelude.{
  ℕ, ◌+◌, ◌*◌, ◌≤◌, ◌<◌, ◌≡◌, ◌∙◌, ◌⊎◌, inl, inr, arith, true, false, lt_or_le,
}
use cs111_ucla.Ospfs.Disk.{Disk, Outside, load32-Outside}
use cs111_ucla.Ospfs.Bitmap.{blksize, ospfs_block, os_nblocks, os_ninodes, os_firstinob}
use cs111_ucla.Ospfs.Bitmap.Laws.{test_digit}
use cs111_ucla.Ospfs.Bitmap.Alloc.{is_free, map_word, first_data, Layout}

-- `oi` is the offset of an inode of the inode blocks of a well laid out disk.
pub record InodeAt (d : Disk) (oi : ℕ) : Type 0 where
  pub layout : Layout d
  pub after_bitmap : os_firstinob d * blksize ≤ oi
  pub before_data : oi + 64 ≤ first_data d * blksize

-- Two disks that agree on the superblock.
pub record SameSuper (d d' : Disk) : Type 0 where
  pub nblocks : os_nblocks d' ≡ os_nblocks d
  pub ninodes : os_ninodes d' ≡ os_ninodes d
  pub firstinob : os_firstinob d' ≡ os_firstinob d

-- The bit of a block is read from its word of the bitmap.
pub is_free-Outside :
    (a n j : ℕ) (d d' : Disk)
    → Outside a n d d'
    → (map_word j + 4 ≤ a) ⊎ (a + n ≤ map_word j)
    → is_free d' j ≡ is_free d j
is_free-Outside a n j d d' o h =
    rw (test_digit 2048 j d', test_digit 2048 j d, load32-Outside a n (map_word j) d d' o h)

-- A change behind the superblock.
pub SameSuper-Outside : (a n : ℕ) (d d' : Disk) → Outside a n d d' → 2048 ≤ a → SameSuper d d'
SameSuper-Outside a n d d' o h = record {
  nblocks = load32-Outside a n (blksize + 4) d d' o (inl (omega arith));
  ninodes = load32-Outside a n (blksize + 8) d d' o (inl (omega arith));
  firstinob = load32-Outside a n (blksize + 12) d d' o (inl (omega arith));
}

pub SameSuper-trans : (d e f : Disk) → SameSuper d e → SameSuper e f → SameSuper d f
SameSuper-trans d e f s t = record {
  nblocks = t.nblocks ∙ s.nblocks;
  ninodes = t.ninodes ∙ s.ninodes;
  firstinob = t.firstinob ∙ s.firstinob;
}

module _ {d : Disk} {oi : ℕ} (at : InodeAt d oi) where
  -- The words of the bitmap end before the inode.
  pub map_word-before : (j : ℕ) → j < os_nblocks d → map_word j + 4 ≤ oi
  map_word-before j h = omega (arith, at, at.layout)

  -- A data block that is free lies after the inode.
  pub free-after : (b : ℕ) → is_free d b ≡ true → oi + 64 ≤ b * blksize
  free-after b f = elim (lt_or_le b (first_data d)) [
    | inl low ↦ ground (arith, at.layout.used b low)
    | inr high ↦ omega (arith, at)
  ]

  pub block_address : (b : ℕ) → b < os_nblocks d → ospfs_block b ≡ b * blksize
  block_address b h = omega (arith, at.layout)

  -- A disk with the same superblock, whose blocks before the data are used, is laid out as well, and
  -- has the inode.
  pub InodeAt-low :
      (d' : Disk)
      → SameSuper d d'
      → ((j : ℕ) → j < first_data d → is_free d j ≡ false → is_free d' j ≡ false)
      → InodeAt d' oi
  InodeAt-low d' s k = record {
    layout = record {
      small = rw s.nblocks at.layout.small;
      bitmap = rw (s.nblocks, s.firstinob) at.layout.bitmap;
      data_in = rw (s.nblocks, s.ninodes, s.firstinob) at.layout.data_in;
      used = λ b h.
          let low : b < first_data d = omega (arith, s.ninodes, s.firstinob) in
          k b low (at.layout.used b low);
    };
    after_bitmap = rw s.firstinob at.after_bitmap;
    before_data = rw (s.ninodes, s.firstinob) at.before_data;
  }

  pub InodeAt-kept :
      (d' : Disk)
      → SameSuper d d'
      → ((j : ℕ) → j < os_nblocks d → is_free d j ≡ false → is_free d' j ≡ false)
      → InodeAt d' oi
  InodeAt-kept d' s k = InodeAt-low d' s λ j low. k j (omega (arith, at.layout.data_in))
