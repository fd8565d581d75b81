-- ===== src/Ospfs/Grow/Extends.antt =====
-- A file of Lab3/ospfsmod.c that has grown, for files of at most ten blocks before and after.
use mathlib.Core.Bool.{false≢true}
use cs111_ucla.Prelude.{
  ℕ, ◌+◌, ◌*◌, ◌≤◌, ◌<◌, ◌≡◌, ◌≢◌, refl, sym, ◌∙◌, ap, ◌⊎◌, inl, inr, arith, true, false, ◌==◌,
  Bool-cases,
}
use cs111_ucla.Ospfs.Disk.{Disk, load32, Outside, load32-Outside}
use cs111_ucla.Ospfs.Bitmap.{blksize, os_nblocks, os_firstinob}
use cs111_ucla.Ospfs.Bitmap.Alloc.{is_free, first_data}
use cs111_ucla.Ospfs.Index.{oi_size}
use cs111_ucla.Ospfs.Grow.Frame.{InodeAt, SameSuper, SameSuper-trans}
use cs111_ucla.Ospfs.Grow.Add.{Grown}
use cs111_ucla.Ospfs.Grow.Small.{
  blocks, ptr, SmallFile, free-data, Grown-word, Grown-ptr, Grown-SameSuper, Grown-SmallFile,
  blocks-Grown,
}
use cs111_ucla.Ospfs.Grow.SetSize.{set_super, set_ptr, set_free, set-SmallFile}

-- The small file of the disk `d` has on the disk `e` its type, links and mode, its blocks, with what they held, and perhaps
-- more of them, which were free and are erased; no other inode and no block in use
-- has changed, none has become free, and no free block is taken but those of the file.
pub record Extends (oi : ℕ) (d e : Disk) : Type 0 where
  pub small : SmallFile e oi
  pub fields : (k : ℕ) → 1 ≤ k → k < 4 → load32 e (oi + 4 * k) ≡ load32 d (oi + 4 * k)
  pub inodes :
      (y : ℕ)
      → os_firstinob d * blksize ≤ y
      → y < first_data d * blksize
      → (y < oi) ⊎ (oi + 64 ≤ y)
      → e y ≡ d y
  pub super : SameSuper d e
  pub longer : blocks d oi ≤ blocks e oi
  pub pointers : (i : ℕ) → i < blocks d oi → ptr e oi i ≡ ptr d oi i
  pub used : (j : ℕ) → j < os_nblocks d → is_free d j ≡ false → is_free e j ≡ false
  pub kept :
      (j x : ℕ)
      → first_data d ≤ j
      → j < os_nblocks d
      → is_free d j ≡ false
      → x < blksize
      → e (j * blksize + x) ≡ d (j * blksize + x)
  pub fresh : (i : ℕ) → blocks d oi ≤ i → i < blocks e oi → is_free d (ptr e oi i) ≡ true
  pub taken :
      (j : ℕ)
      → j < os_nblocks d
      → is_free d j ≡ true
      → is_free e j ≡ false
      → (i : ℕ) × (blocks d oi ≤ i) × (i < blocks e oi) × (ptr e oi i ≡ j)
  pub erased :
      (i x : ℕ) → blocks d oi ≤ i → i < blocks e oi → x < blksize → e (ptr e oi i * blksize + x) ≡ 0

pub Extends-refl : {oi : ℕ} {d : Disk} → SmallFile d oi → Extends oi d d
Extends-refl f = record {
  small = f;
  fields = λ k lo hi. refl;
  inodes = λ y lo hi o. refl;
  super = record { nblocks = refl; ninodes = refl; firstinob = refl };
  longer = omega arith;
  pointers = λ i h. refl;
  used = λ j h u. u;
  kept = λ j x a h u l. refl;
  fresh = λ i a h. absurd (omega arith);
  taken = λ j h free used. absurd (false≢true (sym used ∙ free));
  erased = λ i x a h l. absurd (omega arith);
}

-- One more block.
module _ {oi b : ℕ} {d e e' : Disk} (at : InodeAt d oi) (x : Extends oi d e) (lt : blocks e oi < 10)
    (g : Grown e oi (blocks e oi) b e') where
  used-ne : (j : ℕ) → is_free e j ≡ false → j ≢ b
  used-ne j u same = false≢true (sym u ∙ ap (is_free e) same ∙ g.was_free)

  -- The other inodes.
  inodes_kept :
      (y : ℕ)
      → os_firstinob d * blksize ≤ y
      → y < first_data d * blksize
      → (y < oi) ⊎ (oi + 64 ≤ y)
      → e' y ≡ e y
  inodes_kept y lo hi o = g.rest y (record {
    map = inr (omega (arith, at, at.layout, x.super, g.in_range));
    size = ground arith;
    pointer = ground arith;
    block = inl (omega (arith, x.super, free-data x.small.at b g.was_free));
  })

  -- The bytes of the blocks in use.
  block_kept :
      (j y : ℕ)
      → first_data d ≤ j
      → j < os_nblocks d
      → is_free e j ≡ false
      → y < blksize
      → e' (j * blksize + y) ≡ e (j * blksize + y)
  block_kept j y lo hi u l =
      let ne = used-ne j u in
      g.rest (j * blksize + y) (record {
        map = inr (omega (arith, at, at.layout, x.super, g.in_range));
        size = inr (omega (arith, at, at.layout));
        pointer = inr (omega (arith, at, at.layout));
        block = ground arith;
      })

  was_fresh : is_free d b ≡ true
  was_fresh = elim (Bool-cases (is_free d b)) [
    | inl free ↦ free
    | inr taken ↦
        absurd (false≢true (sym (x.used b (omega (arith, x.super, g.in_range)) taken) ∙ g.was_free))
  ]

  new_fresh : (i : ℕ) → blocks d oi ≤ i → i < blocks e' oi → is_free d (ptr e' oi i) ≡ true
  new_fresh i lo hi = elim (Bool-cases (i == blocks e oi)) [
    | inl last ↦ let same : i ≡ blocks e oi = ground arith in rw (same, g.pointer) was_fresh
    | inr other ↦
        let old : i < blocks e oi = ground (arith, blocks-Grown x.small lt g) in
        rw (Grown-ptr x.small.at lt g i (omega arith) (ground arith)) (x.fresh i lo old)
  ]

  new_erased :
      (i y : ℕ)
      → blocks d oi ≤ i
      → i < blocks e' oi
      → y < blksize
      → e' (ptr e' oi i * blksize + y) ≡ 0
  new_erased i y lo hi l = elim (Bool-cases (i == blocks e oi)) [
    | inl last ↦ let same : i ≡ blocks e oi = ground arith in rw (same, g.pointer) (g.erased y l)
    | inr other ↦
        let ne : i ≢ blocks e oi = ground arith in
        let old : i < blocks e oi = omega (arith, blocks-Grown x.small lt g) in
        rw (Grown-ptr x.small.at lt g i (omega arith) ne) (
          block_kept (ptr e oi i) y (omega (arith, x.super, x.small.in_data i old))
            (omega (arith, x.super, x.small.in_disk i old)) (x.small.used i old) l
          ∙ x.erased i y lo old l)
  ]

  new_taken :
      (j : ℕ)
      → j < os_nblocks d
      → is_free d j ≡ true
      → is_free e' j ≡ false
      → (i : ℕ) × (blocks d oi ≤ i) × (i < blocks e' oi) × (ptr e' oi i ≡ j)
  new_taken j h free used =
      let count = blocks-Grown x.small lt g in
      elim (Bool-cases (b == j)) [
        | inl now ↦
            let same : b ≡ j = ground arith in
            (blocks e oi, x.longer, omega (arith, count), g.pointer ∙ same)
        | inr before ↦
            let bit : is_free e' j ≡ is_free e j =
              g.bits j (omega (arith, x.super)) ∙ rw before refl in
            let (i, lo, hi, at_i) = x.taken j h free (sym bit ∙ used) in
            (
              i,
              lo,
              omega (arith, count),
              Grown-ptr x.small.at lt g i (omega arith) (omega arith) ∙ at_i,
            )
      ]

  pub Extends-Grown : Extends oi d e'
  Extends-Grown = record {
    small = Grown-SmallFile x.small lt g;
    fields = λ k lo hi.
        Grown-word x.small.at lt g k (omega arith) (λ h. omega arith) (λ h. omega arith)
        ∙ x.fields k lo hi;
    inodes = λ y lo hi o. inodes_kept y lo hi o ∙ x.inodes y lo hi o;
    super = SameSuper-trans d e e' x.super (Grown-SameSuper x.small.at lt g);
    longer = omega (arith, x.longer, blocks-Grown x.small lt g);
    pointers = λ i h.
        Grown-ptr x.small.at lt g i (omega (arith, x.longer)) (omega (arith, x.longer))
        ∙ x.pointers i h;
    used = λ j h u. ground (arith, g.bits j (omega (arith, x.super)), x.used j h u);
    kept = λ j y lo hi u l. block_kept j y lo hi (x.used j hi u) l ∙ x.kept j y lo hi u l;
    fresh = new_fresh;
    taken = new_taken;
    erased = new_erased;
  }

-- The last write of change_size.
module _ {oi : ℕ} {e e' : Disk} (at : InodeAt e oi) (o : Outside oi 4 e e')
    (same : blocks e' oi ≡ blocks e oi) where
  pub set-Extends :
      {d : Disk}
      → InodeAt d oi
      → Extends oi d e
      → load32 e' (oi_size oi) ≤ 10 * blksize
      → Extends oi d e'
  set-Extends {d} at_d x small = record {
    small = set-SmallFile at o same x.small small;
    fields =
        λ k lo hi. load32-Outside oi 4 (oi + 4 * k) e e' o (inr (omega arith)) ∙ x.fields k lo hi;
    inodes = λ y lo hi w. o y (ground (arith, at_d)) ∙ x.inodes y lo hi w;
    super = SameSuper-trans d e e' x.super (set_super at o);
    longer = omega (arith, same, x.longer);
    pointers = λ i h. set_ptr at o i ∙ x.pointers i h;
    used = λ j h u. set_free at o j (omega (arith, x.super)) ∙ x.used j h u;
    kept = λ j y lo hi u l.
        o (j * blksize + y) (inr (omega (arith, at_d, at_d.layout))) ∙ x.kept j y lo hi u l;
    fresh = λ i lo hi. rw (set_ptr at o i) (x.fresh i lo (omega (arith, same)));
    taken = λ j h free used.
        (let bit = set_free at o j (omega (arith, x.super, h)) in
          let (i, lo, hi, at_i) = x.taken j h free (sym bit ∙ used) in
          (i, lo, omega (arith, same), set_ptr at o i ∙ at_i));
    erased = λ i y lo hi l. rw (set_ptr at o i) (
        o (ptr e oi i * blksize + y)
          (inr (omega (arith, at, at.layout, x.small.in_data i (omega (arith, same)))))
        ∙ x.erased i y lo (omega (arith, same)) l);
  }
