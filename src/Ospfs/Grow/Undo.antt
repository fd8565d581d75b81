-- ===== src/Ospfs/Grow/Undo.antt =====
-- Taking back what add_block of Lab3/ospfsmod.c did, as change_size does when the disk is full.
use cs111_ucla.Prelude.{
  ℕ, suc, ◌+◌, ◌*◌, ◌≤◌, ◌<◌, ◌≡◌, ◌≢◌, refl, sym, ◌∙◌, ap, ◌⊎◌, inl, inr, arith, true, ◌==◌,
  Bool-cases,
}
use cs111_ucla.Ospfs.Disk.{Disk, load32}
use cs111_ucla.Ospfs.Bitmap.{blksize, os_nblocks, os_firstinob}
use cs111_ucla.Ospfs.Bitmap.Alloc.{is_free, map_word, first_data}
use cs111_ucla.Ospfs.Index.{oi_direct}
use cs111_ucla.Ospfs.Monad.{ok}
use cs111_ucla.Ospfs.Grow.{remove_block, remove_blocks}
use cs111_ucla.Ospfs.Grow.Frame.{InodeAt, SameSuper, SameSuper-trans, InodeAt-kept}
use cs111_ucla.Ospfs.Grow.Add.{Grown}
use cs111_ucla.Ospfs.Grow.Remove.{Shrunk, remove_block-Shrunk, Shrunk-word, Shrunk-SameSuper}
use cs111_ucla.Ospfs.Grow.Small.{
  blocks, ptr, SmallFile, Grown-word, Grown-SameSuper, Grown-SmallFile, free-data,
}

-- The disk `d` holds what `e` does: the superblock, which blocks are free, the inode `oi`, and every
-- byte outside of the bitmap and of the blocks that are free.
pub record Like (oi : ℕ) (e d : Disk) : Type 0 where
  pub super : SameSuper e d
  pub bits : (j : ℕ) → j < os_nblocks e → is_free d j ≡ is_free e j
  pub inode : (k : ℕ) → k < 16 → load32 d (oi + 4 * k) ≡ load32 e (oi + 4 * k)
  pub bytes :
      (x : ℕ)
      → (x < 2048) ⊎ (os_firstinob e * blksize ≤ x)
      → (x < oi) ⊎ (oi + 64 ≤ x)
      → ((j : ℕ)
          → j < os_nblocks e
          → is_free e j ≡ true
          → (x < j * blksize) ⊎ (j * blksize + blksize ≤ x))
      → d x ≡ e x

pub Like-refl : (oi : ℕ) (d : Disk) → Like oi d d
Like-refl oi d = record {
  super = record { nblocks = refl; ninodes = refl; firstinob = refl };
  bits = λ j h. refl;
  inode = λ k h. refl;
  bytes = λ x a b c. refl;
}

pub Like-InodeAt : {oi : ℕ} {e d : Disk} → InodeAt e oi → Like oi e d → InodeAt d oi
Like-InodeAt {d = d} at l = InodeAt-kept at d l.super (λ j h u. l.bits j h ∙ u)

pub Like-word :
    {oi : ℕ} {e d : Disk} (a k : ℕ)
    → Like oi e d
    → k < 16
    → a ≡ oi + 4 * k
    → load32 d a ≡ load32 e a
Like-word {oi} {e} {d} a k l h same = ap (load32 d) same ∙ l.inode k h ∙ sym (ap (load32 e) same)

-- `e'` is `e` with one more block; `d` is like `e'`. Then one remove_block makes it like `e`.
module _ {oi b : ℕ} {e e' d : Disk} (f : SmallFile e oi) (lt : blocks e oi < 10)
    (g : Grown e oi (blocks e oi) b e') (l : Like oi e' d) where
  size_of : load32 d oi ≡ load32 e oi + blksize
  size_of = omega (arith, Like-word oi 0 l (omega arith) (omega arith), g.size, f.size_in)

  pointer_of : ptr d oi (blocks e oi) ≡ b
  pointer_of =
      Like-word (oi_direct oi (blocks e oi)) (4 + blocks e oi) l (omega arith) (omega arith)
      ∙ g.pointer

  super_of : SameSuper e d
  super_of = SameSuper-trans e e' d (Grown-SameSuper f.at lt g) l.super

  b_in : b < os_nblocks d
  b_in = omega (arith, super_of, g.in_range)

  b_data : first_data d ≤ b
  b_data = omega (arith, super_of, free-data f.at b g.was_free)

  at_d : InodeAt d oi
  at_d = Like-InodeAt (Grown-SmallFile f lt g).at l

  module _ (d' : Disk) (s : Shrunk d oi (blocks e oi) b d') where
    undone_bits : (j : ℕ) → j < os_nblocks e → is_free d' j ≡ is_free e j
    undone_bits j h = ground (
      arith,
      s.bits j (omega (arith, super_of)),
      l.bits j (omega (arith, Grown-SameSuper f.at lt g)),
      g.bits j h,
      g.was_free,
      λ (same : b ≡ j). ap (is_free e) same,
    )

    undone_inode : (k : ℕ) → k < 16 → load32 d' (oi + 4 * k) ≡ load32 e (oi + 4 * k)
    undone_inode k h = elim (Bool-cases (k == 0)) [
      | inl zero' ↦
          let a : oi + 4 * k ≡ oi = ground arith in rw a (omega (arith, s.size, size_of, f.size_in))
      | inr more ↦ elim (Bool-cases (k == 4 + blocks e oi)) [
        | inl last ↦
            let a : oi + 4 * k ≡ oi_direct oi (blocks e oi) = ground arith in
            rw a (s.pointer ∙ sym (f.cleared (blocks e oi) (omega arith) lt))
        | inr other ↦
            let nz : k ≢ 0 = ground arith in
            let nl : k ≢ 4 + blocks e oi = ground arith in
            Shrunk-word at_d lt b_in s k h nz nl ∙ l.inode k h ∙ Grown-word f.at lt g k h nz nl
      ]
    ]

    undone_bytes :
        (x : ℕ)
        → (x < 2048) ⊎ (os_firstinob e * blksize ≤ x)
        → (x < oi) ⊎ (oi + 64 ≤ x)
        → ((j : ℕ)
            → j < os_nblocks e
            → is_free e j ≡ true
            → (x < j * blksize) ⊎ (j * blksize + blksize ≤ x))
        → d' x ≡ e x
    undone_bytes x a c o =
        let word : (x < map_word b) ⊎ (map_word b + 4 ≤ x) =
          ground (arith, f.at.layout.bitmap, g.in_range) in
        let grown = Grown-SameSuper f.at lt g in
        s.rest x word (ground arith) (ground arith)
        ∙ l.bytes x (ground (arith, grown.firstinob)) c (λ j h free.
          o j (omega (arith, grown)) (ground (arith, g.bits j (omega (arith, grown)))))
        ∙ g.rest x (record {
          map = word;
          size = ground arith;
          pointer = ground arith;
          block = o b g.in_range g.was_free;
        })

    undone : Like oi e d'
    undone = record {
      super = SameSuper-trans e d d' super_of (Shrunk-SameSuper at_d lt b_in s);
      bits = undone_bits;
      inode = undone_inode;
      bytes = undone_bytes;
    }

  undo_block : (d' : Disk) × (remove_block oi d ≡ (ok tt, d')) × Like oi e d'
  undo_block =
      let (d', r, s) =
        remove_block-Shrunk at_d (omega (arith, size_of, f.size_in)) lt (rw pointer_of b_data)
          (rw pointer_of b_in) in
      (d', r, undone d' (rw pointer_of at s))

-- `k` blocks, added one after the other to a small file on the disk `d`, give the disk `e`.
pub data AddedBlocks (oi : ℕ) (d : Disk) : ℕ → Disk → Type 0 where
  none_added : AddedBlocks oi d 0 d
  one_more :
      {k b : ℕ} {e e' : Disk}
      → AddedBlocks oi d k e
      → SmallFile e oi
      → blocks e oi < 10
      → Grown e oi (blocks e oi) b e'
      → AddedBlocks oi d (suc k) e'

-- The loop of change_size that takes back `k` blocks takes back those that were added: what the
-- disk held before is there again.
pub remove_blocks_undoes :
    (oi : ℕ) (d : Disk) (k : ℕ) (e f : Disk)
    → AddedBlocks oi d k e
    → Like oi e f
    → Like oi d (remove_blocks k oi f)
unfolding remove_blocks
remove_blocks_undoes oi d k e f none_added l = l
remove_blocks_undoes oi d k e f (one_more {k = m} {e = p} a s lt g) l =
    let (f', r, l') = undo_block s lt g l in
    remove_blocks_undoes oi d m p (remove_block oi f).1 a (rw (ap (λ t. t.1) r) l')
