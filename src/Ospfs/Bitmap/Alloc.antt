-- ===== src/Ospfs/Bitmap/Alloc.antt =====
-- allocate_block and free_block of Lab3/ospfsmod.c against a set of free blocks.
use cs111_ucla.Prelude.{
  ℕ, zero, suc, ◌+◌, ◌*◌, ◌/◌, ◌%◌, ◌^◌, ◌≤◌, ◌<◌, ◌≡◌, inl, inr, arith, Bool, true, false, ◌&&◌,
  ltb, leb, ◌==◌, if◌then◌else◌, Bool-cases, u32_mod,
}
use cs111_ucla.Ospfs.Disk.{Disk, load32, Outside, load32-Outside}
use cs111_ucla.Ospfs.Bitmap.{
  bitvector_clear, bitvector_test, blksize, os_nblocks, os_ninodes, os_firstinob, blkinodes,
  allocate_from, allocate_block, free_block,
}
use cs111_ucla.Ospfs.Bitmap.Laws.{
  test-clear, test-set, bitvector_clear-Outside, bitvector_set-Outside,
}

-- The abstract view of the bitmap: which blocks are free.
abbrev pub is_free : Disk → ℕ → Bool
is_free d b = bitvector_test 2048 b d

-- The word of the bitmap that holds the bit of a block.
abbrev pub map_word : ℕ → ℕ
map_word b = 2048 + 4 * (b / 32)

-- What allocate_block may return: the first free block, which is marked as used, with nothing else
-- changed; or 0 and the same disk, if no block is free.
pub data Allocated (d : Disk) : ℕ × Disk → Type 0 where
  got :
      (b : ℕ) (d' : Disk)
      → b < os_nblocks d
      → is_free d b ≡ true
      → ((j : ℕ) → j < b → is_free d j ≡ false)
      → ((j : ℕ) → is_free d' j ≡ (if b == j then false else is_free d j))
      → Outside (map_word b) 4 d d'
      → Allocated d (b, d')
  none_free : ((j : ℕ) → j < os_nblocks d → is_free d j ≡ false) → Allocated d (0, d)

allocate_from-Allocated :
    (rounds i : ℕ) (d : Disk)
    → i + rounds ≡ os_nblocks d
    → ((j : ℕ) → j < i → is_free d j ≡ false)
    → Allocated d (allocate_from rounds i d)
unfolding allocate_from
allocate_from-Allocated zero i d e used = none_free (λ j h. used j (omega arith))
allocate_from-Allocated (suc rounds) i d e used = elim (Bool-cases (is_free d i)) [
  | inl free ↦ rw free (
      got i (bitvector_clear 2048 i d) (omega arith) free used (λ j. test-clear 2048 i j d)
        (bitvector_clear-Outside 2048 i d))
  | inr taken ↦
      rw taken (allocate_from-Allocated rounds (i + 1) d (omega arith) (below i used taken))
]
  where
    below :
        (i : ℕ)
        → ((j : ℕ) → j < i → is_free d j ≡ false)
        → is_free d i ≡ false
        → (j : ℕ) → j < i + 1
        → is_free d j ≡ false
    below i used taken j h = elim (Bool-cases (j == i)) [
      | inl same ↦ (let e : j ≡ i = ground arith in rw e taken)
      | inr other ↦ used j (ground arith)
    ]

-- allocate_block returns the first free block and marks it as used, and changes no other bit and no
-- byte outside of that bit's word; if no block is free, it returns 0 and changes nothing.
pub allocate_block-Allocated : (d : Disk) → Allocated d (allocate_block d)
unfolding allocate_block
allocate_block-Allocated d =
    allocate_from-Allocated (os_nblocks d) 0 d (omega arith) (λ j h. absurd (omega arith))

-- The blocks that free_block agrees to free.
abbrev pub may_free : Disk → ℕ → Bool
may_free d b = ltb b (os_nblocks d) && leb ((os_firstinob d + os_ninodes d / blkinodes) % u32_mod) b

pub is_free-free_block :
    (b j : ℕ) (d : Disk)
    → is_free (free_block b d) j ≡ (if may_free d b && b == j then true else is_free d j)
unfolding free_block
is_free-free_block b j d = elim (Bool-cases (may_free d b)) [
  | inl may ↦ rw may (test-set 2048 b j d)
  | inr not' ↦ rw not'
]

pub free_block-Outside : (b : ℕ) (d : Disk) → Outside (map_word b) 4 d (free_block b d)
unfolding free_block
free_block-Outside b d x h = elim (Bool-cases (may_free d b)) [
  | inl may ↦ rw may (bitvector_set-Outside 2048 b d x h)
  | inr not' ↦ rw not'
]

-- The first block after the inode blocks.
abbrev pub first_data : Disk → ℕ
first_data d = os_firstinob d + (os_ninodes d + 15) / blkinodes

-- A disk whose regions are as ospfs.h lays them out: the bitmap, with a bit for each block, ends
-- before the inodes; block addresses fit a word; and only data blocks are free.
pub record Layout (d : Disk) : Type 0 where
  pub small : os_nblocks d ≤ 2 ^ 22
  pub bitmap : os_nblocks d + 2 * 8192 ≤ 8192 * os_firstinob d
  pub data_in : first_data d ≤ os_nblocks d
  pub used : (b : ℕ) → b < first_data d → is_free d b ≡ false

-- A write into the bitmap word of a block changes none of the superblock.
pub super-Outside :
    (b off : ℕ) (d d' : Disk)
    → off ≤ 12
    → Outside (map_word b) 4 d d'
    → load32 d' (blksize + off) ≡ load32 d (blksize + off)
super-Outside b off d d' h o =
    load32-Outside (map_word b) 4 (blksize + off) d d' o (inl (omega arith))
