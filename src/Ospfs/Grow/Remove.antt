-- ===== src/Ospfs/Grow/Remove.antt =====
-- remove_block of Lab3/ospfsmod.c on a file of one to ten blocks.
use cs111_ucla.Prelude.{
  ℕ, suc, ◌+◌, ◌*◌, ◌-◌, ◌≤◌, ◌<◌, ◌≡◌, ◌≢◌, ◌∙◌, ap, ◌⊎◌, inl, inr, arith, true, ◌==◌,
  if◌then◌else◌, sub32, lt→ltb, ne→==, leb,
}
use cs111_ucla.Ospfs.Disk.{
  Disk, load32, store32, Outside, load32-Outside, store32-Outside, load32-store32, load32-bytes,
}
use cs111_ucla.Ospfs.Bitmap.{blksize, os_nblocks, free_block}
use cs111_ucla.Ospfs.Bitmap.Alloc.{
  is_free, map_word, may_free, first_data, is_free-free_block, free_block-Outside,
}
use cs111_ucla.Ospfs.Index.{size2nblocks, indir_index, direct_index, oi_size, oi_direct}
use cs111_ucla.Ospfs.Monad.{ok}
use cs111_ucla.Ospfs.Grow.{remove_direct, remove_branch, remove_block}
use cs111_ucla.Ospfs.Grow.Frame.{InodeAt, SameSuper, is_free-Outside, map_word-before}

-- The disk `d'` after the last block `b` of a file, number `m`, has been taken away.
pub record Shrunk (d : Disk) (oi m b : ℕ) (d' : Disk) : Type 0 where
  pub size : load32 d' (oi_size oi) ≡ sub32 (load32 d (oi_size oi)) blksize
  pub pointer : load32 d' (oi_direct oi m) ≡ 0
  pub bits : (j : ℕ) → j < os_nblocks d → is_free d' j ≡ (if b == j then true else is_free d j)
  pub rest :
      (x : ℕ)
      → (x < map_word b) ⊎ (map_word b + 4 ≤ x)
      → (x < oi) ⊎ (oi + 4 ≤ x)
      → (x < oi_direct oi m) ⊎ (oi_direct oi m + 4 ≤ x)
      → d' x ≡ d x

-- A block of the data region may be freed.
may_free-data :
    {d : Disk} {oi : ℕ} (at : InodeAt d oi) (b : ℕ)
    → first_data d ≤ b
    → b < os_nblocks d
    → may_free d b ≡ true
may_free-data at b lo hi = ground (arith, at.layout)

module _ {d : Disk} {oi : ℕ} (at : InodeAt d oi) (m b : ℕ) (m_lt : m < 10) (lo : first_data d ≤ b)
    (hi : b < os_nblocks d) where
  freed : Disk
  freed = free_block b d

  cut : Disk
  cut = store32 (oi_direct oi m) 0 freed

  sized : Disk
  sized = store32 oi (sub32 (load32 cut oi) blksize) cut

  o1 : Outside (map_word b) 4 d freed
  unfolding freed
  o1 = free_block-Outside b d

  o2 : Outside (oi_direct oi m) 4 freed cut
  unfolding cut
  o2 = store32-Outside (oi_direct oi m) 0 freed

  o3 : Outside oi 4 cut sized
  unfolding sized
  o3 = store32-Outside oi (sub32 (load32 cut oi) blksize) cut

  size_kept : load32 cut oi ≡ load32 d oi
  size_kept =
      load32-Outside (oi_direct oi m) 4 oi freed cut o2 (inl (omega arith))
      ∙ load32-Outside (map_word b) 4 oi d freed o1 (inr (map_word-before at b hi))

  size_set : load32 sized oi ≡ sub32 (load32 d oi) blksize
  unfolding sized
  size_set = load32-store32 oi (sub32 (load32 cut oi) blksize) cut ∙ omega (arith, size_kept)

  pointer_set : load32 sized (oi_direct oi m) ≡ 0
  pointer_set = load32-Outside oi 4 (oi_direct oi m) cut sized o3 (inr (omega arith)) ∙ cut_value
    where
      cut_value : load32 cut (oi_direct oi m) ≡ 0
      cut_value = unfold cut in load32-store32 (oi_direct oi m) 0 freed

  bits_set : (j : ℕ) → j < os_nblocks d → is_free sized j ≡ (if b == j then true else is_free d j)
  bits_set j h =
      is_free-Outside oi 4 j cut sized o3 (inl (map_word-before at j h))
      ∙ is_free-Outside (oi_direct oi m) 4 j freed cut o2
          (inl (omega (arith, map_word-before at j h)))
      ∙ freed_bit
    where
      freed_bit : is_free freed j ≡ (if b == j then true else is_free d j)
      freed_bit =
          unfold freed in (is_free-free_block b j d ∙ ground (arith, may_free-data at b lo hi))

  sized-Shrunk : Shrunk d oi m b sized
  sized-Shrunk = record {
    size = size_set;
    pointer = pointer_set;
    bits = bits_set;
    rest = λ x map size pointer. o3 x size ∙ o2 x pointer ∙ o1 x map;
  }

-- The first branch of remove_block.
remove_branch-direct : (oi n : ℕ) → 0 < n → n ≤ 10 → remove_branch oi n ≡ remove_direct oi (n - 1)
unfolding remove_branch indir_index direct_index
remove_branch-direct oi n lo hi =
    let e : sub32 n 1 ≡ n - 1 = omega arith in
    let l : leb n 10 ≡ true = ground arith in rw (e, l, lt→ltb (n - 1) 10 (omega arith))

remove_block-ok :
    (d d' : Disk) (oi : ℕ)
    → size2nblocks (load32 d oi) ≢ 0
    → remove_branch oi (size2nblocks (load32 d oi)) d ≡ (ok tt, d')
    → remove_block oi d ≡ (ok tt, store32 oi (sub32 (load32 d' oi) blksize) d')
unfolding remove_block
remove_block-ok d d' oi ne e = rw (ne→== _ 0 ne) (rw e)

remove_direct-ok :
    (d : Disk) (oi m : ℕ)
    → load32 d (oi_direct oi m) ≢ 0
    → remove_direct oi m d
      ≡ (ok tt, store32 (oi_direct oi m) 0 (free_block (load32 d (oi_direct oi m)) d))
unfolding remove_direct
remove_direct-ok d oi m ne = rw (ne→== _ 0 ne)

-- On a well laid out disk, a file of one to ten blocks whose last block is a data block loses that
-- block: it is free again and its pointer 0, the size goes down by a block, and no other byte of
-- the inode or of any block and no other bit of the bitmap changes.
pub remove_block-Shrunk :
    {d : Disk} {oi m : ℕ} (at : InodeAt d oi)
    → size2nblocks (load32 d oi) ≡ suc m
    → m < 10
    → first_data d ≤ load32 d (oi_direct oi m)
    → load32 d (oi_direct oi m) < os_nblocks d
    → (d' : Disk) × (remove_block oi d ≡ (ok tt, d')) × Shrunk d oi m (load32 d (oi_direct oi m)) d'
unfolding sized cut freed
remove_block-Shrunk {d} {oi} {m} at n m_lt lo hi =
    let b = load32 d (oi_direct oi m) in
    let e : suc m - 1 ≡ m = omega arith in
    let direct : remove_branch oi (suc m) ≡ remove_direct oi m =
      remove_branch-direct oi (suc m) (omega arith) (omega arith) ∙ ap (remove_direct oi) e in
    (
      sized at m b m_lt lo hi,
      remove_block-ok d (cut at m b m_lt lo hi) oi (omega arith)
          (rw n (ap (λ f. f d) direct ∙ remove_direct-ok d oi m (omega (arith, at.before_data)))),
      sized-Shrunk at m b m_lt lo hi,
    )

module _ {d : Disk} {oi m b : ℕ} {d' : Disk} (at : InodeAt d oi) (m_lt : m < 10)
    (hi : b < os_nblocks d) (s : Shrunk d oi m b d') where
  -- The words of the inode but the size and the pointer.
  pub Shrunk-word :
      (k : ℕ) → k < 16 → k ≢ 0 → k ≢ 4 + m → load32 d' (oi + 4 * k) ≡ load32 d (oi + 4 * k)
  Shrunk-word k h nz nm = load32-bytes (oi + 4 * k) d d' λ x l u.
      s.rest x (inr (omega (arith, map_word-before at b hi))) (inr (omega arith)) (ground arith)

  Shrunk-super_word : (off : ℕ) → off ≤ 12 → load32 d' (blksize + off) ≡ load32 d (blksize + off)
  Shrunk-super_word off h = load32-bytes (blksize + off) d d' λ x l u.
      s.rest x (inl (omega arith)) (inl (omega (arith, at, at.layout)))
        (inl (omega (arith, at, at.layout)))

  pub Shrunk-SameSuper : SameSuper d d'
  Shrunk-SameSuper = record {
    nblocks = Shrunk-super_word 4 (omega arith);
    ninodes = Shrunk-super_word 8 (omega arith);
    firstinob = Shrunk-super_word 12 (omega arith);
  }
