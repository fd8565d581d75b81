-- ===== src/Ospfs/Tests.antt =====
-- A small disk for the theorems about Lab3/ospfsmod.c: twelve blocks, of which 5 to 11 are free, and
-- sixteen inodes in block 3; inode 1 is a file of 500 bytes in block 4.
use cs111_ucla.Prelude.{
  ℕ, zero, suc, ◌+◌, ◌*◌, ◌%◌, ◌-◌, ◌≤◌, ◌<◌, ◌≡◌, ◌≢◌, refl, inr, arith, true, false, ◌==◌, ◌&&◌,
  if◌then◌else◌,
}
use cs111_ucla.Ospfs.Disk.{Disk, load32}
use cs111_ucla.Ospfs.Bitmap.{free_block, bitvector_test, allocate_block}
use cs111_ucla.Ospfs.Bitmap.Alloc.{
  is_free, first_data, may_free, is_free-free_block, Allocated, allocate_block-Allocated,
}
use cs111_ucla.Ospfs.Index.{
  indir2_index, indir_index, direct_index, size2nblocks, oi_size, nindirect,
}
use cs111_ucla.Ospfs.Index.Agree.{place, indexed, indices_agree, direct_index_overruns}
use cs111_ucla.Ospfs.Monad.{ok}
use cs111_ucla.Ospfs.Grow.{add_block, change_size}
use cs111_ucla.Ospfs.Grow.Add.{Added, add_block-Added}
use cs111_ucla.Ospfs.Grow.Resize.{Resized, change_size-Resized}
use cs111_ucla.Ospfs.Grow.Truncate.{Truncates, change_size-Truncates}
use cs111_ucla.Ospfs.Grow.Frame.{InodeAt}
use cs111_ucla.Ospfs.Grow.Small.{blocks, ptr, SmallFile}

abbrev pub small_disk : Disk
small_disk x =
    if x == 1028
    then 12
    else if x == 1032
    then 16
    else if x == 1036
    then 3
    else if x == 2048
    then 224
    else if x == 2049
    then 15
    else if x == 3136
    then 244
    else if x == 3137
    then 1
    else if x == 3152
    then 4
    else if x == 4096
    then 77
    else 0

abbrev pub inode_1 : ℕ
inode_1 = 3136

small_disk-used : (b : ℕ) → b < first_data small_disk → is_free small_disk b ≡ false
unfolding load32 bitvector_test
small_disk-used zero h = refl
small_disk-used (suc zero) h = refl
small_disk-used (suc (suc zero)) h = refl
small_disk-used (suc (suc (suc zero))) h = refl
small_disk-used (suc (suc (suc (suc b)))) h = absurd (omega arith)

small_disk-InodeAt : InodeAt small_disk inode_1
unfolding load32 bitvector_test
small_disk-InodeAt = record {
  layout = record {
    small = omega arith;
    bitmap = omega arith;
    data_in = omega arith;
    used = small_disk-used;
  };
  after_bitmap = omega arith;
  before_data = omega arith;
}

small_disk-blocks : blocks small_disk inode_1 ≡ 1
unfolding load32
small_disk-blocks = refl

small_disk-ptr : (i : ℕ) → i < blocks small_disk inode_1 → ptr small_disk inode_1 i ≡ 4
unfolding load32
small_disk-ptr zero h = refl
small_disk-ptr (suc i) h = absurd (omega (arith, small_disk-blocks))

small_disk-zero : (x : ℕ) → 3153 ≤ x → x < 4096 → small_disk x ≡ 0
small_disk-zero x lo hi = ground arith

small_disk-rest : (i : ℕ) → 1 ≤ i → i < 10 → ptr small_disk inode_1 i ≡ 0
unfolding load32
small_disk-rest i lo hi =
    rw
      (
        small_disk-zero (3152 + 4 * i) (omega arith) (omega arith),
        small_disk-zero (3152 + 4 * i + 1) (omega arith) (omega arith),
        small_disk-zero (3152 + 4 * i + 2) (omega arith) (omega arith),
        small_disk-zero (3152 + 4 * i + 3) (omega arith) (omega arith),
      )
      refl

pub small_disk-SmallFile : SmallFile small_disk inode_1
unfolding load32 bitvector_test
small_disk-SmallFile = record {
  at = small_disk-InodeAt;
  size_in = omega arith;
  in_data = λ i h. omega (arith, small_disk-ptr i h);
  in_disk = λ i h. omega (arith, small_disk-ptr i h);
  used = λ i h. rw (small_disk-ptr i h) refl;
  distinct = λ i j l h. absurd (omega (arith, small_disk-blocks));
  cleared = λ i lo hi. small_disk-rest i (omega (arith, small_disk-blocks)) hi;
}

allocate_block-Allocated_example : Allocated small_disk (allocate_block small_disk)
allocate_block-Allocated_example = allocate_block-Allocated small_disk

is_free-free_block_example :
    is_free (free_block 4 small_disk) 4
    ≡ (if may_free small_disk 4 && 4 == 4 then true else is_free small_disk 4)
is_free-free_block_example = is_free-free_block 4 4 small_disk

indices_agree_example : indexed (indir2_index 600) (indir_index 600) (direct_index 600) ≡ place 600
indices_agree_example = indices_agree 600 (inr (omega arith))

direct_index_overruns_example :
    (direct_index 300 ≡ (300 - 266) % 256 + nindirect)
    × (indexed (indir2_index 300) (indir_index 300) (direct_index 300) ≢ place 300)
direct_index_overruns_example = direct_index_overruns 300 (omega arith) (omega arith)

add_block-Added_example :
    Added small_disk inode_1 (blocks small_disk inode_1) (add_block inode_1 small_disk)
add_block-Added_example = add_block-Added small_disk-InodeAt (omega (arith, small_disk-blocks))

change_size-Resized_example : Resized inode_1 small_disk 3000 (change_size inode_1 3000 small_disk)
change_size-Resized_example =
    change_size-Resized 3000 small_disk-SmallFile (omega (arith, small_disk-blocks)) (omega arith)

change_size-Truncates_example :
    (e : Disk) × (change_size inode_1 0 small_disk ≡ (ok tt, e))
    × SmallFile e inode_1
    × (load32 e (oi_size inode_1) ≡ 0)
    × Truncates inode_1 small_disk (size2nblocks 0) e
change_size-Truncates_example = change_size-Truncates 0 small_disk-SmallFile (omega arith)
