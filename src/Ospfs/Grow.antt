-- ===== src/Ospfs/Grow.antt =====
-- add_block, remove_block and change_size of Lab3/ospfsmod.c.
pub mod Frame
pub mod Add
pub mod Remove
pub mod Small
pub mod Undo
pub mod SetSize
pub mod Extends
pub mod Resize
pub mod Truncate
use cs111_ucla.Prelude.{
  ℕ, zero, suc, ◌+◌, true, false, not, ◌&&◌, ltb, leb, ◌==◌, if◌then◌else◌, add32, sub32, ℤ, pos,
  negsuc, Option, none, some,
}
use cs111_ucla.Ospfs.Disk.{Disk, load32}
use cs111_ucla.Ospfs.Bitmap.{blksize}
use cs111_ucla.Ospfs.Index.{
  ndirect, nindirect, size2nblocks, indir2_index, indir_index, direct_index, is_int_zero, oi_size,
  oi_direct, oi_indirect, oi_indirect2, entry,
}
use cs111_ucla.Ospfs.Monad.{
  ◌>>=◌, ◌>>◌, Errno, enospc, eio, ok, err, hang, M, pure, throw, get32, put32, zero_block,
  allocate, release,
}

-- add_block, a direct block.
unfoldable pub add_direct : ℕ → ℕ → M (Unit {0})
add_direct oi n = do
  block ← allocate
  if block == 0 then throw enospc else (do put32 (oi_direct oi n) block; zero_block block)

-- A new block, whose number is stored at `slot`.
unfoldable pub new_block_at : ℕ → M ℕ
new_block_at slot = do
  block ← allocate
  if block == 0 then throw enospc else (do put32 slot block; zero_block block; pure block)

-- add_block, a block of the indirect block; `allocated` is allocated[0], 0 if the indirect block was
-- there.
unfoldable pub add_indirect : ℕ → ℕ → M (Unit {0})
unfolding new_block_at
add_indirect oi n = do
  let offset = direct_index n
  indirect ← get32 (oi_indirect oi)
  allocated ← (if indirect == 0 then new_block_at (oi_indirect oi) else pure 0)
  current ← get32 (oi_indirect oi)
  block ← allocate
  if block == 0 && not (allocated == 0)
      then (do release allocated; put32 (oi_indirect oi) 0; throw enospc)
      else (do put32 (entry current offset) block; zero_block block)

-- The indirect block that add_block puts under the doubly indirect one; `root` is in2block[0].
unfoldable pub new_middle : ℕ → ℕ → ℕ → M ℕ
new_middle oi offset1 root = do
  block ← allocate
  if block == 0 then (do if root == 0 then pure tt else release root; throw enospc) else (do
    current ← get32 (oi_indirect2 oi)
    put32 (entry current offset1) block
    zero_block block
    pure block)

-- What add_block frees when no data block is left, of the blocks that it allocated.
unfoldable pub undo_middle : ℕ → ℕ → M (Unit {0})
undo_middle root middle =
    if not (root == 0) && not (middle == 0)
    then (do release root; release middle)
    else (if not (root == 0 && middle == 0) then release root else pure tt)

abbrev pub nat_index : ℤ → ℕ
nat_index (pos n) = n
nat_index (negsuc n) = 0

-- add_block, a block under the doubly indirect block.
unfoldable pub add_indirect2 : ℕ → ℕ → M (Unit {0})
unfolding new_block_at new_middle undo_middle
add_indirect2 oi n = do
  let offset0 = direct_index n
  let offset1 = nat_index (indir_index n)
  indirect2 ← get32 (oi_indirect2 oi)
  root ← (if indirect2 == 0 then new_block_at (oi_indirect2 oi) else pure 0)
  middle ← (if offset0 == 0 then new_middle oi offset1 root else pure 0)
  block ← allocate
  if block == 0 then (do undo_middle root middle; throw enospc) else (do
    current ← get32 (oi_indirect2 oi)
    indirect ← get32 (entry current offset1)
    put32 (entry indirect offset0) block
    zero_block block)

unfoldable pub add_branch : ℕ → ℕ → M (Unit {0})
add_branch oi n =
    if is_int_zero (indir2_index n)
    then add_indirect2 oi n
    else if is_int_zero (indir_index n)
    then add_indirect oi n
    else add_direct oi n

unfoldable pub add_block : ℕ → M (Unit {0})
unfolding add_branch
add_block oi = do
  size ← get32 (oi_size oi)
  add_branch oi (size2nblocks size)
  old ← get32 (oi_size oi)
  put32 (oi_size oi) (add32 old blksize)

-- remove_block, the last of at most ten blocks.
unfoldable pub remove_direct : ℕ → ℕ → M (Unit {0})
remove_direct oi offset0 = do
  block ← get32 (oi_direct oi offset0)
  if block == 0 then throw eio else (do release block; put32 (oi_direct oi offset0) 0)

unfoldable pub remove_indirect : ℕ → ℕ → ℤ → M (Unit {0})
remove_indirect oi offset0 offset1 = do
  indirect ← get32 (oi_indirect oi)
  block ← get32 (entry indirect offset0)
  release block
  put32 (entry indirect offset0) 0
  if is_int_zero offset1
      then (do current ← get32 (oi_indirect oi); release current; put32 (oi_indirect oi) 0)
      else pure tt

unfoldable pub remove_indirect2 : ℕ → ℕ → ℤ → M (Unit {0})
remove_indirect2 oi offset0 offset1 = do
  indirect2 ← get32 (oi_indirect2 oi)
  let middle = entry indirect2 (nat_index offset1)
  indirect ← get32 middle
  block ← get32 (entry indirect offset0)
  if indirect == 0 then throw eio else if block == 0 then throw eio else (do
    release block
    put32 (entry indirect offset0) 0
    if offset0 == 0
        then (do
          emptied ← get32 middle
          release emptied
          put32 middle 0
          if is_int_zero offset1
              then (do root ← get32 (oi_indirect2 oi); release root; put32 (oi_indirect2 oi) 0)
              else pure tt)
        else pure tt)

-- `n` is not 0.
unfoldable pub remove_branch : ℕ → ℕ → M (Unit {0})
remove_branch oi n =
    let offset0 = direct_index (sub32 n 1) in
    let offset1 = indir_index (sub32 n 1) in
    if leb n ndirect
    then remove_direct oi offset0
    else if leb n (ndirect + nindirect)
    then remove_indirect oi offset0 offset1
    else remove_indirect2 oi offset0 offset1

unfoldable pub remove_block : ℕ → M (Unit {0})
unfolding remove_branch
remove_block oi = do
  size ← get32 (oi_size oi)
  if size2nblocks size == 0 then pure tt else (do
    remove_branch oi (size2nblocks size)
    old ← get32 (oi_size oi)
    put32 (oi_size oi) (sub32 old blksize))

-- `for (i = 0; i < counter; i++) remove_block(oi);`
unfoldable pub remove_blocks : ℕ → ℕ → Disk → Disk
remove_blocks zero oi d = d
remove_blocks (suc counter) oi d = remove_blocks counter oi (remove_block oi d).1

-- The value of `r`, and of `new_size`, after the first loop of change_size; `hang` without fuel.
unfoldable pub grow_loop : ℕ → ℕ → ℕ → ℕ → ℕ → M (Option Errno × ℕ)
grow_loop zero oi new_size old_size counter d = (hang, d)
grow_loop (suc fuel) oi new_size old_size counter d =
    let (r, d') = add_block oi d in
    elim (ltb (size2nblocks (load32 d (oi_size oi))) (size2nblocks new_size)) [
      | false ↦ (ok (none, new_size), d)
      | true ↦ elim r [
        | ok _ ↦ grow_loop fuel oi new_size old_size (counter + 1) d'
        | err e ↦ (ok (some e, old_size), remove_blocks counter oi d')
        | hang ↦ (hang, d')
      ]
    ]

-- The value of `r` after the second loop.
unfoldable pub shrink_loop : ℕ → ℕ → ℕ → Option Errno → M (Option Errno)
shrink_loop zero oi new_size r d = (hang, d)
shrink_loop (suc fuel) oi new_size r d =
    let (s, d') = remove_block oi d in
    elim (ltb (size2nblocks new_size) (size2nblocks (load32 d (oi_size oi)))) [
      | false ↦ (ok r, d)
      | true ↦ elim s [
        | ok _ ↦ shrink_loop fuel oi new_size none d'
        | err e ↦ (ok (some e), d')
        | hang ↦ (hang, d')
      ]
    ]

abbrev pub returns : Option Errno → M (Unit {0})
returns none = pure tt
returns (some e) = throw e

-- Each round of a loop changes the number of blocks by one, so these numbers are fuel enough.
unfoldable pub change_size : ℕ → ℕ → M (Unit {0})
change_size oi want_size = do
  old_size ← get32 (oi_size oi)
  grown ← grow_loop (size2nblocks want_size + 1) oi want_size old_size 0
  size ← get32 (oi_size oi)
  r ← shrink_loop (size2nblocks size + 1) oi grown.1 grown.0
  put32 (oi_size oi) grown.1
  returns r
