-- ===== src/Ospfs/Grow/Add.antt =====
-- add_block of Lab3/ospfsmod.c on a file of fewer than ten blocks.
use cs111_ucla.Prelude.{
  ℕ, ◌+◌, ◌*◌, ◌≤◌, ◌<◌, ◌≡◌, ◌≢◌, refl, ◌∙◌, ap, ◌⊎◌, inl, inr, arith, true, false, ◌==◌,
  if◌then◌else◌, add32, lt→ltb, ne→==,
}
use cs111_ucla.Ospfs.Disk.{
  Disk, load32, store32, memset_zero, Outside, load32-Outside, store32-Outside, load32-store32,
  memset_zero-Outside, memset_zero-inside,
}
use cs111_ucla.Ospfs.Bitmap.{blksize, ospfs_block, os_nblocks, allocate_block}
use cs111_ucla.Ospfs.Bitmap.Alloc.{
  is_free, map_word, Allocated, got, none_free, allocate_block-Allocated,
}
use cs111_ucla.Ospfs.Index.{size2nblocks, indir2_index, indir_index, oi_size, oi_direct}
use cs111_ucla.Ospfs.Monad.{Errno, enospc, Result, ok, err}
use cs111_ucla.Ospfs.Grow.{add_direct, add_branch, add_block}
use cs111_ucla.Ospfs.Grow.Frame.{
  InodeAt, is_free-Outside, map_word-before, free-after, block_address,
}

-- The byte `x` is in none of the places that a new direct block `b` of number `n` changes: the
-- block's word of the bitmap, the inode's size, its pointer to the block, and the block.
pub record Elsewhere (oi n b x : ℕ) : Type 0 where
  pub map : (x < map_word b) ⊎ (map_word b + 4 ≤ x)
  pub size : (x < oi) ⊎ (oi + 4 ≤ x)
  pub pointer : (x < oi_direct oi n) ⊎ (oi_direct oi n + 4 ≤ x)
  pub block : (x < b * blksize) ⊎ (b * blksize + blksize ≤ x)

-- The disk `d'` after the block `b`, the first free one, has become block number `n` of the file.
pub record Grown (d : Disk) (oi n b : ℕ) (d' : Disk) : Type 0 where
  pub in_range : b < os_nblocks d
  pub was_free : is_free d b ≡ true
  pub first : (j : ℕ) → j < b → is_free d j ≡ false
  pub size : load32 d' (oi_size oi) ≡ add32 (load32 d (oi_size oi)) blksize
  pub pointer : load32 d' (oi_direct oi n) ≡ b
  pub erased : (x : ℕ) → x < blksize → d' (b * blksize + x) ≡ 0
  pub bits : (j : ℕ) → j < os_nblocks d → is_free d' j ≡ (if b == j then false else is_free d j)
  pub rest : (x : ℕ) → Elsewhere oi n b x → d' x ≡ d x

-- The four writes, one after the other.
module _ {d : Disk} {oi : ℕ} (at : InodeAt d oi) (n b : ℕ) (d1 : Disk) (n_lt : n < 10)
    (b_lt : b < os_nblocks d) (free : is_free d b ≡ true)
    (first : (j : ℕ) → j < b → is_free d j ≡ false)
    (bits : (j : ℕ) → is_free d1 j ≡ (if b == j then false else is_free d j))
    (o1 : Outside (map_word b) 4 d d1) where
  stored : Disk
  stored = store32 (oi_direct oi n) b d1

  erased : Disk
  erased = memset_zero blksize (b * blksize) stored

  sized : Disk
  sized = store32 oi (add32 (load32 erased oi) blksize) erased

  o2 : Outside (oi_direct oi n) 4 d1 stored
  unfolding stored
  o2 = store32-Outside (oi_direct oi n) b d1

  o3 : Outside (b * blksize) blksize stored erased
  unfolding erased
  o3 = memset_zero-Outside blksize (b * blksize) stored

  o4 : Outside oi 4 erased sized
  unfolding sized
  o4 = store32-Outside oi (add32 (load32 erased oi) blksize) erased

  data_after : oi + 64 ≤ b * blksize
  data_after = free-after at b free

  map_before : (j : ℕ) → j < os_nblocks d → map_word j + 4 ≤ oi
  map_before j h = map_word-before at j h

  -- The old size is read after the block is erased.
  size_kept : load32 erased oi ≡ load32 d oi
  size_kept =
      load32-Outside (b * blksize) blksize oi stored erased o3 (inl (omega (arith, data_after)))
      ∙ load32-Outside (oi_direct oi n) 4 oi d1 stored o2 (inl (omega arith))
      ∙ load32-Outside (map_word b) 4 oi d d1 o1 (inr (map_before b b_lt))

  size_set : load32 sized oi ≡ add32 (load32 d oi) blksize
  unfolding sized
  size_set = load32-store32 oi (add32 (load32 erased oi) blksize) erased ∙ omega (arith, size_kept)

  pointer_set : load32 sized (oi_direct oi n) ≡ b
  pointer_set =
      load32-Outside oi 4 (oi_direct oi n) erased sized o4 (inr (omega arith))
      ∙ load32-Outside (b * blksize) blksize (oi_direct oi n) stored erased o3
          (inl (omega (arith, data_after)))
      ∙ stored_value
    where
      stored_value : load32 stored (oi_direct oi n) ≡ b
      stored_value =
          unfold stored in (load32-store32 (oi_direct oi n) b d1 ∙ omega (arith, at.layout.small))

  block_erased : (x : ℕ) → x < blksize → sized (b * blksize + x) ≡ 0
  unfolding erased
  block_erased x h =
      o4 (b * blksize + x) (inr (omega (arith, data_after)))
      ∙ memset_zero-inside blksize (b * blksize) (b * blksize + x) stored (omega arith)
          (omega arith)

  bits_set : (j : ℕ) → j < os_nblocks d → is_free sized j ≡ (if b == j then false else is_free d j)
  bits_set j h =
      is_free-Outside oi 4 j erased sized o4 (inl (map_before j h))
      ∙ is_free-Outside (b * blksize) blksize j stored erased o3
          (inl (omega (arith, map_before j h, data_after)))
      ∙ is_free-Outside (oi_direct oi n) 4 j d1 stored o2 (inl (omega (arith, map_before j h)))
      ∙ bits j

  sized-Grown : Grown d oi n b sized
  sized-Grown = record {
    in_range = b_lt;
    was_free = free;
    first = first;
    size = size_set;
    pointer = pointer_set;
    erased = block_erased;
    bits = bits_set;
    rest = λ x e. o4 x e.size ∙ o3 x e.block ∙ o2 x e.pointer ∙ o1 x e.map;
  }

-- What add_block does to a file of `n` blocks, `n` below ten.
pub data Added (d : Disk) (oi n : ℕ) : Result (Unit {0}) × Disk → Type 0 where
  added : (b : ℕ) (d' : Disk) → Grown d oi n b d' → Added d oi n (ok tt, d')
  disk_full : ((j : ℕ) → j < os_nblocks d → is_free d j ≡ false) → Added d oi n (err enospc, d)

add_branch-direct : (oi n : ℕ) → n < 10 → add_branch oi n ≡ add_direct oi n
unfolding add_branch indir2_index indir_index
add_branch-direct oi n h = rw (lt→ltb n 266 (omega arith), lt→ltb n 10 h)

add_direct-got :
    (d d1 : Disk) (oi n b : ℕ)
    → allocate_block d ≡ (b, d1)
    → b ≢ 0
    → add_direct oi n d
      ≡ (ok tt, memset_zero blksize (ospfs_block b) (store32 (oi_direct oi n) b d1))
unfolding add_direct
add_direct-got d d1 oi n b e ne = rw (e, add_direct) (rw (ne→== b 0 ne))

add_direct-full :
    (d : Disk) (oi n : ℕ) → allocate_block d ≡ (0, d) → add_direct oi n d ≡ (err enospc, d)
unfolding add_direct
add_direct-full d oi n e = rw (e, add_direct)

-- What follows the branch in add_block.
add_block-ok :
    (d d' : Disk) (oi : ℕ)
    → add_branch oi (size2nblocks (load32 d oi)) d ≡ (ok tt, d')
    → add_block oi d ≡ (ok tt, store32 oi (add32 (load32 d' oi) blksize) d')
unfolding add_block
add_block-ok d d' oi e = rw e

add_block-err :
    (d d' : Disk) (oi : ℕ) (x : Errno)
    → add_branch oi (size2nblocks (load32 d oi)) d ≡ (err x, d')
    → add_block oi d ≡ (err x, d')
unfolding add_block
add_block-err d d' oi x e = rw e

add_block-after :
    {d : Disk} {oi : ℕ} (at : InodeAt d oi) (r : ℕ × Disk)
    → size2nblocks (load32 d oi) < 10
    → Allocated d r
    → allocate_block d ≡ r
    → Added d oi (size2nblocks (load32 d oi)) (add_block oi d)
unfolding sized erased stored
add_block-after {d} {oi} at r h (got b d1 lt free first bits o) e =
    let n = size2nblocks (load32 d oi) in
    let branch =
      ap (λ f. f d) (add_branch-direct oi n h)
      ∙ add_direct-got d d1 oi n b e (omega (arith, free-after at b free)) in
    rw (add_block-ok d _ oi branch) (
      rw (block_address at b lt) (
        added b (sized at n b d1 h lt free first bits o)
          (sized-Grown at n b d1 h lt free first bits o)))
add_block-after {d} {oi} at r h (none_free used) e =
    let n = size2nblocks (load32 d oi) in
    let branch = ap (λ f. f d) (add_branch-direct oi n h) ∙ add_direct-full d oi n e in
    rw (add_block-err d d oi enospc branch) (disk_full used)

-- On a well laid out disk, a file of fewer than ten blocks grows by the first free block, which is
-- marked as used, erased, and entered in the inode; its size goes up by 1024 bytes, and no other byte
-- and no other bit of the bitmap changes. If no block is free, add_block returns -ENOSPC and
-- changes nothing.
pub add_block-Added :
    {d : Disk} {oi : ℕ}
    → InodeAt d oi
    → size2nblocks (load32 d oi) < 10
    → Added d oi (size2nblocks (load32 d oi)) (add_block oi d)
add_block-Added {d} at h = add_block-after at (allocate_block d) h (allocate_block-Allocated d) refl
