-- ===== src/Ospfs/Bitmap.antt =====
-- The bit vectors and the free-block bitmap of Lab3/ospfsmod.c.
pub mod Laws
pub mod Alloc
use Prim.Native.Nat.{bit_and, bit_or}
use cs111_ucla.Prelude.{
  ℕ, zero, suc, ◌+◌, ◌*◌, ◌/◌, ◌%◌, ◌^◌, ◌-◌, Bool, not, ◌&&◌, ltb, leb, ◌==◌, if◌then◌else◌, mul32,
  u32_mod,
}
use cs111_ucla.Ospfs.Disk.{Disk, load32, store32}

-- `i` is an int that is not negative. `vector [i / 32] |= (1 << (i % 32))`; the shift of the int 1 by 31 has the bit pattern 2 ^ 31.
unfoldable pub bitvector_set : ℕ → ℕ → Disk → Disk
bitvector_set vector i d =
    let word = vector + 4 * (i / 32) in store32 word (bit_or (load32 d word) (2 ^ (i % 32))) d

unfoldable pub bitvector_clear : ℕ → ℕ → Disk → Disk
bitvector_clear vector i d =
    let word = vector + 4 * (i / 32) in
    store32 word (bit_and (load32 d word) (2 ^ 32 - 1 - 2 ^ (i % 32))) d

unfoldable pub bitvector_test : ℕ → ℕ → Disk → Bool
bitvector_test vector i d = not (bit_and (load32 d (vector + 4 * (i / 32))) (2 ^ (i % 32)) == 0)

abbrev pub blksize : ℕ
blksize = 1024

-- ospfs_block: the product is one of uint32_t.
abbrev pub ospfs_block : ℕ → ℕ
ospfs_block blockno = mul32 blockno blksize

-- The fields of the superblock, in the second block.
abbrev pub os_nblocks : Disk → ℕ
os_nblocks d = load32 d (blksize + 4)

abbrev pub os_ninodes : Disk → ℕ
os_ninodes d = load32 d (blksize + 8)

abbrev pub os_firstinob : Disk → ℕ
os_firstinob d = load32 d (blksize + 12)

abbrev pub freemap_blk : ℕ
freemap_blk = 2

abbrev pub blkinodes : ℕ
blkinodes = 16

-- The loop of allocate_block: `rounds` blocks are left, from `i` on.
unfoldable pub allocate_from : ℕ → ℕ → Disk → ℕ × Disk
allocate_from zero i d = (0, d)
allocate_from (suc rounds) i d =
    let bitmap = ospfs_block freemap_blk in
    let rest = allocate_from rounds (i + 1) d in
    if bitvector_test bitmap i d then (i, bitvector_clear bitmap i d) else rest

unfoldable pub allocate_block : Disk → ℕ × Disk
allocate_block d = allocate_from (os_nblocks d) 0 d

unfoldable pub free_block : ℕ → Disk → Disk
free_block blockno d =
    let first = (os_firstinob d + os_ninodes d / blkinodes) % u32_mod in
    if ltb blockno (os_nblocks d) && leb first blockno
    then bitvector_set (ospfs_block freemap_blk) blockno d
    else d
