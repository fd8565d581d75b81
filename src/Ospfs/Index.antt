-- ===== src/Ospfs/Index.antt =====
-- Where a file's blocks are: the index functions of Lab3/ospfsmod.c, and ospfs_inode_blockno.
pub mod Agree
use cs111_ucla.Prelude.{
  ℕ, ◌+◌, ◌*◌, ◌/◌, ◌%◌, ◌-◌, Bool, false, ◌||◌, ltb, leb, ◌==◌, if◌then◌else◌, add32, sub32, ℤ,
  pos, negsuc, Option, none, some,
}
use cs111_ucla.Ospfs.Disk.{Disk, load32}
use cs111_ucla.Ospfs.Bitmap.{blksize, ospfs_block, os_ninodes, os_firstinob}

abbrev pub ndirect : ℕ
ndirect = 10

abbrev pub nindirect : ℕ
nindirect = 256

-- `(size + OSPFS_BLKSIZE - 1) / OSPFS_BLKSIZE` on uint32_t.
abbrev pub size2nblocks : ℕ → ℕ
size2nblocks size = sub32 (add32 size blksize) 1 / blksize

-- -1 is `negsuc 0`.
unfoldable pub indir2_index : ℕ → ℤ
indir2_index b = if ltb b (ndirect + nindirect) then negsuc 0 else pos 0

abbrev pub is_int_zero : ℤ → Bool
is_int_zero (pos n) = n == 0
is_int_zero (negsuc n) = false

abbrev pub is_minus_one : ℤ → Bool
is_minus_one (pos n) = false
is_minus_one (negsuc n) = n == 0

unfoldable pub indir_index : ℕ → ℤ
unfolding indir2_index
indir_index b =
    if ltb b ndirect
    then negsuc 0
    else if is_int_zero (indir2_index b)
    then pos ((b - ndirect - nindirect) / nindirect)
    else pos 0

unfoldable pub direct_index : ℕ → ℕ
unfolding indir_index
direct_index b =
    if is_minus_one (indir_index b)
    then b
    else if is_int_zero (indir_index b)
    then b - ndirect
    else (b - ndirect - nindirect) % nindirect

-- The fields of an inode, by its offset in the disk image.
abbrev pub oi_size : ℕ → ℕ
oi_size oi = oi

abbrev pub oi_ftype : ℕ → ℕ
oi_ftype oi = oi + 4

abbrev pub oi_nlink : ℕ → ℕ
oi_nlink oi = oi + 8

abbrev pub oi_mode : ℕ → ℕ
oi_mode oi = oi + 12

abbrev pub oi_direct : ℕ → ℕ → ℕ
oi_direct oi i = oi + 16 + 4 * i

abbrev pub oi_indirect : ℕ → ℕ
oi_indirect oi = oi + 56

abbrev pub oi_indirect2 : ℕ → ℕ
oi_indirect2 oi = oi + 60

abbrev pub inode_size : ℕ
inode_size = 64

-- ospfs_inode; `none` is the null pointer.
unfoldable pub ospfs_inode : ℕ → Disk → Option ℕ
ospfs_inode ino d =
    if leb (os_ninodes d) ino then none else some (ospfs_block (os_firstinob d) + inode_size * ino)

abbrev pub ftype_reg : ℕ
ftype_reg = 0

abbrev pub ftype_dir : ℕ
ftype_dir = 1

abbrev pub ftype_symlink : ℕ
ftype_symlink = 2

-- Entry number `i` of a block of block numbers.
abbrev pub entry : ℕ → ℕ → ℕ
entry block i = ospfs_block block + 4 * i

unfoldable pub ospfs_inode_blockno : ℕ → ℕ → Disk → ℕ
ospfs_inode_blockno oi offset d =
    let blockno = offset / blksize in
    if leb (load32 d (oi_size oi)) offset || load32 d (oi_ftype oi) == ftype_symlink
    then 0
    else if leb (ndirect + nindirect) blockno
    then (let blockoff = blockno - (ndirect + nindirect) in
        let indirect_block = load32 d (entry (load32 d (oi_indirect2 oi)) (blockoff / nindirect)) in
        load32 d (entry indirect_block (blockoff % nindirect)))
    else if leb ndirect blockno
    then load32 d (entry (load32 d (oi_indirect oi)) (blockno - ndirect))
    else load32 d (oi_direct oi blockno)

unfoldable pub ospfs_inode_data : ℕ → ℕ → Disk → ℕ
unfolding ospfs_inode_blockno
ospfs_inode_data oi offset d = ospfs_block (ospfs_inode_blockno oi offset d) + offset % blksize
