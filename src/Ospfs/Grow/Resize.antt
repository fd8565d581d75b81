-- ===== src/Ospfs/Grow/Resize.antt =====
-- change_size of Lab3/ospfsmod.c, for files of at most ten blocks before and after.
use cs111_ucla.Prelude.{
  ℕ, zero, suc, ◌+◌, ◌*◌, ◌≤◌, ◌<◌, ◌≡◌, refl, sym, ◌∙◌, ap, inl, inr, arith, true, ◌==◌,
  Bool-cases, ltb, le→ltb, Option, none, some,
}
use cs111_ucla.Ospfs.Disk.{
  Disk, load32, store32, Outside, load32-Outside, store32-Outside, load32-store32,
}
use cs111_ucla.Ospfs.Bitmap.{blksize, os_nblocks}
use cs111_ucla.Ospfs.Bitmap.Alloc.{is_free}
use cs111_ucla.Ospfs.Index.{size2nblocks, oi_size}
use cs111_ucla.Ospfs.Monad.{Errno, enospc, Result, ok, err}
use cs111_ucla.Ospfs.Grow.{add_block, remove_blocks, grow_loop, shrink_loop, change_size}
use cs111_ucla.Ospfs.Grow.Extends.{Extends, Extends-refl, Extends-Grown, set-Extends}
use cs111_ucla.Ospfs.Grow.Frame.{InodeAt, SameSuper-trans}
use cs111_ucla.Ospfs.Grow.Add.{Grown, Added, added, disk_full, add_block-Added}
use cs111_ucla.Ospfs.Grow.Small.{blocks, ptr, SmallFile, blocks-Grown}
use cs111_ucla.Ospfs.Grow.SetSize.{set_super, set_free}
use cs111_ucla.Ospfs.Grow.Undo.{
  Like, Like-refl, Like-word, Like-InodeAt, AddedBlocks, none_added, one_more, remove_blocks_undoes,
}

-- The disk `d` has too few free blocks for the file to have `n`: they are among the blocks of the file when
-- it is as long as it can be, with fewer than `n` of them.
pub record IsFull (oi : ℕ) (d : Disk) (n : ℕ) : Type 0 where
  pub longest : ℕ
  pub too_few : longest < n
  pub block : ℕ → ℕ
  pub all :
      (j : ℕ)
      → j < os_nblocks d
      → is_free d j ≡ true
      → (i : ℕ) × (blocks d oi ≤ i) × (i < longest) × (block i ≡ j)

-- How the first loop of change_size ends.
data GrowEnd (oi : ℕ) (d : Disk) (want : ℕ) : Result (Option Errno × ℕ) × Disk → Type 0 where
  enough :
      (e : Disk)
      → Extends oi d e
      → blocks e oi ≡ size2nblocks want
      → GrowEnd oi d want (ok (none, want), e)
  full :
      (e : Disk)
      → IsFull oi d (size2nblocks want)
      → Like oi d e
      → GrowEnd oi d want (ok (some enospc, load32 d (oi_size oi)), e)

grow_step :
    {oi : ℕ} {d : Disk} (want fuel counter : ℕ) (e : Disk) {r : Result (Unit {0}) × Disk}
    → AddedBlocks oi d counter e
    → Extends oi d e
    → Added e oi (blocks e oi) r
    → add_block oi e ≡ r
    → ltb (blocks e oi) (size2nblocks want) ≡ true
    → ((b : ℕ) (e' : Disk)
        → Grown e oi (blocks e oi) b e'
        → GrowEnd oi d want (grow_loop fuel oi want (load32 d (oi_size oi)) (counter + 1) e'))
    → GrowEnd oi d want (grow_loop (suc fuel) oi want (load32 d (oi_size oi)) counter e)
unfolding grow_loop
grow_step want fuel counter e a x (added b e' g) s t next = rw (grow_loop, t, s, s) (next b e' g)
grow_step {oi} {d} want fuel counter e a x (disk_full u) s t next =
    let none_left : IsFull oi d (size2nblocks want) = record {
      longest = blocks e oi;
      too_few = ground arith;
      block = ptr e oi;
      all = λ j h free. x.taken j h free (u j (omega (arith, x.super)));
    } in
    rw (grow_loop, t, s, s)
      (full (remove_blocks counter oi e) none_left
        (remove_blocks_undoes oi d counter e e a (Like-refl oi e)))

next_count : (n : ℕ) → n + 1 ≡ suc n
next_count n = omega arith

grow_loop-ends :
    {oi : ℕ} {d : Disk} (at : InodeAt d oi) (want fuel counter : ℕ) (e : Disk)
    → AddedBlocks oi d counter e
    → Extends oi d e
    → size2nblocks want ≤ 10
    → blocks e oi ≤ size2nblocks want
    → size2nblocks want < fuel + blocks e oi
    → GrowEnd oi d want (grow_loop fuel oi want (load32 d (oi_size oi)) counter e)
unfolding grow_loop
grow_loop-ends at want zero counter e a x small le enough_fuel = absurd (omega arith)
grow_loop-ends {oi} {d} at want (suc fuel) counter e a x small le enough_fuel =
    elim (Bool-cases (ltb (blocks e oi) (size2nblocks want))) [
      | inl more ↦
          let lt : blocks e oi < 10 = ground arith in
          grow_step want fuel counter e a x (add_block-Added x.small.at lt) refl more λ b e' g.
            grow_loop-ends at want fuel (counter + 1) e'
              (rw (next_count counter) (one_more a x.small lt g)) (Extends-Grown at x lt g) small
              (ground (arith, blocks-Grown x.small lt g)) (omega (arith, blocks-Grown x.small lt g))
      | inr done ↦ rw (grow_loop, done) (enough e x (ground arith))
    ]

-- How change_size ends on a small file that is to grow: the file has the size wanted, or there are too few
-- free blocks, and what is in use is as before.
pub data Resized (oi : ℕ) (d : Disk) (want : ℕ) : Result (Unit {0}) × Disk → Type 0 where
  resized :
      (e : Disk) → Extends oi d e → load32 e (oi_size oi) ≡ want → Resized oi d want (ok tt, e)
  no_room :
      (e : Disk) → IsFull oi d (size2nblocks want) → Like oi d e → Resized oi d want (err enospc, e)

module _ {oi : ℕ} {e e' : Disk} (at : InodeAt e oi) (o : Outside oi 4 e e')
    (same : blocks e' oi ≡ blocks e oi) where
  set_inode :
      {d : Disk}
      → Like oi d e
      → load32 e' (oi_size oi) ≡ load32 d (oi_size oi)
      → (k : ℕ) → k < 16
      → load32 e' (oi + 4 * k) ≡ load32 d (oi + 4 * k)
  set_inode l size k h = elim (Bool-cases (k == 0)) [
    | inl first ↦ let a : oi + 4 * k ≡ oi = ground arith in rw a size
    | inr more ↦ load32-Outside oi 4 (oi + 4 * k) e e' o (inr (ground arith)) ∙ l.inode k h
  ]

  set-Like :
      {d : Disk} → Like oi d e → load32 e' (oi_size oi) ≡ load32 d (oi_size oi) → Like oi d e'
  set-Like {d} l size = record {
    super = SameSuper-trans d e e' l.super (set_super at o);
    bits = λ j h. set_free at o j (omega (arith, l.super)) ∙ l.bits j h;
    inode = set_inode l size;
    bytes = λ y a b c. o y (ground arith) ∙ l.bytes y a b c;
  }

shrink_loop-idle :
    (fuel oi want : ℕ) (r : Option Errno) (e : Disk)
    → blocks e oi ≤ size2nblocks want
    → shrink_loop (fuel + 1) oi want r e ≡ (ok r, e)
unfolding shrink_loop
shrink_loop-idle fuel oi want r e le =
    rw (next_count fuel, shrink_loop, le→ltb (size2nblocks want) (blocks e oi) le) refl

change_size-end :
    {oi : ℕ} {d : Disk} (f : SmallFile d oi) (want : ℕ) {r : Result (Option Errno × ℕ) × Disk}
    → GrowEnd oi d want r
    → grow_loop (size2nblocks want + 1) oi want (load32 d (oi_size oi)) 0 d ≡ r
    → want ≤ 10 * blksize
    → Resized oi d want (change_size oi want d)
unfolding change_size
change_size-end {oi} f want (enough e x same) g small =
    let size : load32 (store32 (oi_size oi) want e) (oi_size oi) ≡ want =
      load32-store32 (oi_size oi) want e ∙ omega arith in
    rw (g, shrink_loop-idle (blocks e oi) oi want none e (omega (arith, same)))
      (resized (store32 (oi_size oi) want e)
        (set-Extends x.small.at (store32-Outside (oi_size oi) want e)
          (ap size2nblocks size ∙ sym same) f.at x (omega (arith, size)))
        size)
change_size-end {oi} {d} f want (full e u l) g small =
    let old = load32 d (oi_size oi) in
    let same : load32 e (oi_size oi) ≡ load32 d (oi_size oi) =
      Like-word (oi_size oi) 0 l (omega arith) (omega arith) in
    let size : load32 (store32 (oi_size oi) old e) (oi_size oi) ≡ old =
      load32-store32 (oi_size oi) old e ∙ omega (arith, f.size_in) in
    let idle : blocks e oi ≤ size2nblocks old = omega (arith, same) in
    rw (g, shrink_loop-idle (blocks e oi) oi old (some enospc) e idle)
      (no_room (store32 (oi_size oi) old e) u (
        set-Like (Like-InodeAt f.at l) (store32-Outside (oi_size oi) old e)
          (ap size2nblocks (size ∙ sym same)) l size))

-- A file of at most ten blocks that is to grow to at most ten blocks, with at least the blocks it has: either it
-- has afterwards the size wanted, its old blocks with what they held, and new ones, free before, that are
-- erased, and no block that was in use changes; or there are too few free blocks, and change_size returns
-- -ENOSPC with the inode, the bitmap and all bytes outside of the free blocks as before. It always ends.
pub change_size-Resized :
    {oi : ℕ} {d : Disk} (want : ℕ)
    → SmallFile d oi
    → blocks d oi ≤ size2nblocks want
    → want ≤ 10 * blksize
    → Resized oi d want (change_size oi want d)
change_size-Resized {oi} {d} want f le small =
    change_size-end f want
      (grow_loop-ends f.at want (size2nblocks want + 1) 0 d none_added (Extends-refl f)
        (omega arith) le (omega arith))
      refl small
