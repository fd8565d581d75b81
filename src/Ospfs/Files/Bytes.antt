-- ===== src/Ospfs/Files/Bytes.antt =====
-- Where the bytes of a file of at most ten blocks are on a disk of Lab3/ospfsmod.c, and what keeps
-- such a file.
use cs111_ucla.Prelude.{
  ℕ, ◌+◌, ◌*◌, ◌/◌, ◌%◌, ◌≤◌, ◌<◌, ◌≡◌, ◌≢◌, refl, sym, ◌∙◌, ap, ◌⊎◌, inl, arith, false, u32_mod,
  lt→ltb,
}
use cs111_ucla.Ospfs.Disk.{Disk, load32, load32-bytes, Outside, load32-Outside}
use cs111_ucla.Ospfs.Bitmap.{blksize, ospfs_block, os_nblocks, os_firstinob}
use cs111_ucla.Ospfs.Bitmap.Laws.{test_digit}
use cs111_ucla.Ospfs.Bitmap.Alloc.{is_free, map_word, first_data}
use cs111_ucla.Ospfs.Index.{
  oi_size, oi_ftype, oi_nlink, oi_direct, ftype_symlink, ospfs_inode_blockno, ospfs_inode_data,
}
use cs111_ucla.Ospfs.Index.Agree.{ospfs_inode_blockno-place}
use cs111_ucla.Ospfs.Grow.Frame.{
  SameSuper, SameSuper-Outside, SameSuper-trans, is_free-Outside, map_word-before, InodeAt-low,
}
use cs111_ucla.Ospfs.Grow.Small.{blocks, ptr, SmallFile}

-- A file of at most ten blocks that is not a symbolic link.
pub record Regular (d : Disk) (oi : ℕ) : Type 0 where
  pub file : SmallFile d oi
  pub no_link : load32 d (oi_ftype oi) ≢ ftype_symlink

-- Byte `z` of a file, as ospfs_inode_data finds it.
abbrev pub file_byte : Disk → ℕ → ℕ → ℕ
file_byte d oi z = d (ospfs_inode_data oi z d)

-- Its place by the direct pointers.
abbrev pub data_at : Disk → ℕ → ℕ → ℕ
data_at d oi z = ptr d oi (z / blksize) * blksize + z % blksize

abbrev pub file_size : Disk → ℕ → ℕ
file_size d oi = load32 d (oi_size oi)

module _ {d : Disk} {oi : ℕ} (r : Regular d oi) (z : ℕ) (h : z < file_size d oi) where
  pub block_of : z / blksize < blocks d oi
  block_of = omega (arith, h, r.file.size_in)

  blockno-whole : ospfs_inode_blockno oi z d ≡ ptr d oi (z / blksize)
  blockno-whole =
      ospfs_inode_blockno-place oi z d h r.no_link
      ∙ rw (lt→ltb (z / blksize) 10 (omega (arith, h, r.file.size_in))) refl

  -- The position is cut to a uint32_t.
  pub blockno-Regular : ospfs_inode_blockno oi (z % u32_mod) d ≡ ptr d oi (z / blksize)
  blockno-Regular =
      let same : z % u32_mod ≡ z = omega (arith, h, r.file.size_in) in rw same blockno-whole

  pub in_data-Regular : first_data d ≤ ptr d oi (z / blksize)
  in_data-Regular = r.file.in_data (z / blksize) block_of

  pub block_address-Regular :
      ospfs_block (ptr d oi (z / blksize)) ≡ ptr d oi (z / blksize) * blksize
  block_address-Regular =
      omega (arith, r.file.in_disk (z / blksize) block_of, r.file.at.layout.small)

  pub data-Regular : ospfs_inode_data oi z d ≡ data_at d oi z
  unfolding ospfs_inode_data
  data-Regular = rw blockno-whole (ap (λ b. b + z % blksize) block_address-Regular)

-- What keeps a file: the superblock and the file's inode are the same,
-- but perhaps for the number of links, and no block before the data and
-- none of the file's has become free.
pub record Keeps (d d' : Disk) (oi : ℕ) : Type 0 where
  pub super : SameSuper d d'
  pub low_used : (j : ℕ) → j < first_data d → is_free d j ≡ false → is_free d' j ≡ false
  pub own_used :
      (i : ℕ) → i < blocks d oi → is_free d (ptr d oi i) ≡ false → is_free d' (ptr d oi i) ≡ false
  pub inode : (k : ℕ) → k < 16 → k ≢ 2 → load32 d' (oi + 4 * k) ≡ load32 d (oi + 4 * k)

-- Changes of the data blocks, and of another inode at `hole`, keep a file.
pub hole-Keeps :
    {d d' : Disk} {oi : ℕ} (f : SmallFile d oi) (hole : ℕ)
    → os_firstinob d * blksize ≤ hole
    → (oi + 64 ≤ hole) ⊎ (hole + 64 ≤ oi)
    → ((y : ℕ) → y < first_data d * blksize → (y < hole) ⊎ (hole + 64 ≤ y) → d' y ≡ d y)
    → Keeps d d' oi
hole-Keeps {d} {d'} {oi} f hole after apart low = record {
  super = record {
    nblocks =
        word (blksize + 4) (omega (arith, f.at, f.at.layout)) (inl (omega (arith, f.at.layout)));
    ninodes =
        word (blksize + 8) (omega (arith, f.at, f.at.layout)) (inl (omega (arith, f.at.layout)));
    firstinob =
        word (blksize + 12) (omega (arith, f.at, f.at.layout)) (inl (omega (arith, f.at.layout)));
  };
  low_used = λ j h u. bit j (omega (arith, f.at.layout)) ∙ u;
  own_used = λ i h u. bit (ptr d oi i) (f.in_disk i h) ∙ u;
  inode = λ k h ne. word (oi + 4 * k) (omega (arith, f.at)) (by_side k h apart);
}
  where
    word :
        (a : ℕ)
        → a + 4 ≤ first_data d * blksize
        → (a + 4 ≤ hole) ⊎ (hole + 64 ≤ a)
        → load32 d' a ≡ load32 d a
    word a h side = load32-bytes a d d' λ y lo hi. low y (omega arith) (ground arith)

    bit : (j : ℕ) → j < os_nblocks d → is_free d' j ≡ is_free d j
    bit j h =
        rw
          (
            test_digit 2048 j d',
            test_digit 2048 j d,
            word (map_word j) (omega (arith, f.at, map_word-before f.at j h))
                (inl (omega (arith, h, f.at.layout))),
          )
          refl

    by_side :
        (k : ℕ)
        → k < 16
        → (oi + 64 ≤ hole) ⊎ (hole + 64 ≤ oi)
        → (oi + 4 * k + 4 ≤ hole) ⊎ (hole + 64 ≤ oi + 4 * k)
    by_side k h side = ground arith

-- So does a change of the number of links.
pub nlink-Keeps :
    {d d' : Disk} {oi : ℕ} → SmallFile d oi → Outside (oi_nlink oi) 4 d d' → Keeps d d' oi
nlink-Keeps {d} {d'} {oi} f o =
    let bit : (j : ℕ) → j < os_nblocks d → is_free d' j ≡ is_free d j = λ j h.
      is_free-Outside (oi_nlink oi) 4 j d d' o (inl (omega (arith, map_word-before f.at j h))) in
    record {
      super = SameSuper-Outside (oi_nlink oi) 4 d d' o (omega (arith, f.at, f.at.layout));
      low_used = λ j h u. bit j (omega (arith, f.at.layout)) ∙ u;
      own_used = λ i h u. bit (ptr d oi i) (f.in_disk i h) ∙ u;
      inode = λ k h ne. load32-Outside (oi_nlink oi) 4 (oi + 4 * k) d d' o (ground arith);
    }

pub low-Keeps :
    {d d' : Disk} {oi : ℕ}
    → SmallFile d oi
    → ((y : ℕ) → y < first_data d * blksize → d' y ≡ d y)
    → Keeps d d' oi
low-Keeps {d} f low =
    hole-Keeps f (first_data d * blksize) (omega (arith, f.at)) (inl (omega (arith, f.at)))
      λ y h o. low y h

module _ {d d' : Disk} {oi : ℕ} (f : SmallFile d oi) (s : Keeps d d' oi) where
  pub Keeps-size : file_size d' oi ≡ file_size d oi
  Keeps-size =
      let at : oi_size oi ≡ oi + 4 * 0 = omega arith in
      ap (load32 d') at ∙ s.inode 0 (omega arith) (omega arith) ∙ sym (ap (load32 d) at)

  pub Keeps-ptr : (i : ℕ) → i < 10 → ptr d' oi i ≡ ptr d oi i
  Keeps-ptr i h =
      let at : oi_direct oi i ≡ oi + 4 * (4 + i) = omega arith in
      rw at (s.inode (4 + i) (omega arith) (omega arith))

  same_blocks : blocks d' oi ≡ blocks d oi
  same_blocks = omega (arith, Keeps-size)

  small_index : (i : ℕ) → i < blocks d' oi → i < 10
  small_index i h = omega (arith, f.size_in, same_blocks)

  pub Keeps-SmallFile : SmallFile d' oi
  Keeps-SmallFile = record {
    at = InodeAt-low f.at d' s.super s.low_used;
    size_in = omega (arith, Keeps-size, f.size_in);
    in_data = λ i h.
        omega
          (arith, s.super, Keeps-ptr i (small_index i h), f.in_data i (omega (arith, same_blocks)));
    in_disk = λ i h.
        omega
          (arith, s.super, Keeps-ptr i (small_index i h), f.in_disk i (omega (arith, same_blocks)));
    used = λ i h.
        let l : i < blocks d oi = omega (arith, same_blocks) in
        rw (Keeps-ptr i (small_index i h)) (s.own_used i l (f.used i l));
    distinct = λ i j l h.
        rw (Keeps-ptr i (small_index i (omega arith)), Keeps-ptr j (small_index j h))
          (f.distinct i j l (omega (arith, same_blocks)));
    cleared = λ i h hi. Keeps-ptr i hi ∙ f.cleared i (omega (arith, same_blocks)) hi;
  }

module _ {d d' : Disk} {oi : ℕ} (r : Regular d oi) (s : Keeps d d' oi) where
  pub Keeps-Regular : Regular d' oi
  Keeps-Regular = record {
    file = Keeps-SmallFile r.file s;
    no_link = λ e. r.no_link (sym (s.inode 1 (omega arith) (omega arith)) ∙ e);
  }

  pub Keeps-data_at : (z : ℕ) → z < file_size d oi → data_at d' oi z ≡ data_at d oi z
  Keeps-data_at z h = rw (Keeps-ptr r.file s (z / blksize) (omega (arith, h, r.file.size_in))) refl

pub Keeps-trans :
    {d d' d'' : Disk} {oi : ℕ} → SmallFile d oi → Keeps d d' oi → Keeps d' d'' oi → Keeps d d'' oi
Keeps-trans {d} {d'} {d''} {oi} f s t = record {
  super = SameSuper-trans d d' d'' s.super t.super;
  low_used = λ j h u. t.low_used j (omega (arith, s.super)) (s.low_used j h u);
  own_used = λ i h u.
      let at : ptr d' oi i ≡ ptr d oi i = Keeps-ptr f s i (omega (arith, f.size_in)) in
      let own : is_free d' (ptr d' oi i) ≡ false = rw at (s.own_used i h u) in
      rw (← at) (t.own_used i (omega (arith, Keeps-size f s)) own);
  inode = λ k h ne. t.inode k h ne ∙ s.inode k h ne;
}
