-- ===== src/Ospfs/Grow/SetSize.antt =====
-- The last write of change_size of Lab3/ospfsmod.c, on a file of at most ten blocks.
use cs111_ucla.Prelude.{ℕ, ◌*◌, ◌≤◌, ◌<◌, ◌≡◌, ◌∙◌, inl, inr, arith}
use cs111_ucla.Ospfs.Disk.{Disk, load32, Outside, load32-Outside}
use cs111_ucla.Ospfs.Bitmap.{blksize, os_nblocks}
use cs111_ucla.Ospfs.Bitmap.Alloc.{is_free}
use cs111_ucla.Ospfs.Index.{oi_size, oi_direct}
use cs111_ucla.Ospfs.Grow.Frame.{
  InodeAt, SameSuper, SameSuper-Outside, is_free-Outside, map_word-before, InodeAt-kept,
}
use cs111_ucla.Ospfs.Grow.Small.{blocks, ptr, SmallFile}

-- The last write of change_size: the inode's size.
module _ {oi : ℕ} {e e' : Disk} (at : InodeAt e oi) (o : Outside oi 4 e e') where
  pub set_super : SameSuper e e'
  set_super = SameSuper-Outside oi 4 e e' o (omega (arith, at, at.layout))

  pub set_ptr : (i : ℕ) → ptr e' oi i ≡ ptr e oi i
  set_ptr i = load32-Outside oi 4 (oi_direct oi i) e e' o (inr (omega arith))

  pub set_free : (j : ℕ) → j < os_nblocks e → is_free e' j ≡ is_free e j
  set_free j h = is_free-Outside oi 4 j e e' o (inl (map_word-before at j h))

  pub set-SmallFile :
      blocks e' oi ≡ blocks e oi
      → SmallFile e oi
      → load32 e' (oi_size oi) ≤ 10 * blksize
      → SmallFile e' oi
  set-SmallFile same f small = record {
    at = InodeAt-kept at e' set_super λ j h u. set_free j h ∙ u;
    size_in = small;
    in_data = λ i h. omega (arith, set_super, set_ptr i, f.in_data i (omega (arith, same)));
    in_disk = λ i h. omega (arith, set_super, set_ptr i, f.in_disk i (omega (arith, same)));
    used = λ i h. rw (set_ptr i) (
        set_free (ptr e oi i) (f.in_disk i (omega (arith, same))) ∙ f.used i (omega (arith, same)));
    distinct = λ i j l h. rw (set_ptr i, set_ptr j) (f.distinct i j l (omega (arith, same)));
    cleared = λ i h hi. set_ptr i ∙ f.cleared i (omega (arith, same)) hi;
  }
