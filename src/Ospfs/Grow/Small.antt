-- ===== src/Ospfs/Grow/Small.antt =====
-- Files of at most ten blocks on a disk of Lab3/ospfsmod.c: their invariant, and that add_block
-- keeps it.
use cs111_ucla.Prelude.{
  ℕ, ◌+◌, ◌*◌, ◌≤◌, ◌<◌, ◌≡◌, ◌≢◌, sym, ◌∙◌, ap, ◌⊎◌, inl, inr, arith, true, false, ◌==◌,
  Bool-cases, lt_or_le,
}
use mathlib.Core.Bool.{false≢true}
use cs111_ucla.Ospfs.Disk.{Disk, load32, load32-bytes}
use cs111_ucla.Ospfs.Bitmap.{blksize, os_nblocks}
use cs111_ucla.Ospfs.Bitmap.Alloc.{is_free, first_data}
use cs111_ucla.Ospfs.Index.{size2nblocks, oi_size, oi_direct}
use cs111_ucla.Ospfs.Grow.Frame.{InodeAt, SameSuper, map_word-before, free-after, InodeAt-kept}
use cs111_ucla.Ospfs.Grow.Add.{Grown}

-- The number of a file's blocks, and the direct pointers of its inode.
abbrev pub blocks : Disk → ℕ → ℕ
blocks d oi = size2nblocks (load32 d (oi_size oi))

abbrev pub ptr : Disk → ℕ → ℕ → ℕ
ptr d oi i = load32 d (oi_direct oi i)

-- A file of at most ten blocks: its blocks are different used data blocks, and the pointers that it
-- does not need are 0.
pub record SmallFile (d : Disk) (oi : ℕ) : Type 0 where
  pub at : InodeAt d oi
  pub size_in : load32 d (oi_size oi) ≤ 10 * blksize
  pub in_data : (i : ℕ) → i < blocks d oi → first_data d ≤ ptr d oi i
  pub in_disk : (i : ℕ) → i < blocks d oi → ptr d oi i < os_nblocks d
  pub used : (i : ℕ) → i < blocks d oi → is_free d (ptr d oi i) ≡ false
  pub distinct : (i j : ℕ) → i < j → j < blocks d oi → ptr d oi i ≢ ptr d oi j
  pub cleared : (i : ℕ) → blocks d oi ≤ i → i < 10 → ptr d oi i ≡ 0

pub blocks-le : {d : Disk} {oi : ℕ} → SmallFile d oi → blocks d oi ≤ 10
blocks-le f = omega (arith, f.size_in)

module _ {d : Disk} {oi n b : ℕ} {d' : Disk} (at : InodeAt d oi) (n_lt : n < 10)
    (g : Grown d oi n b d') where
  -- The words of the inode but the size and the new pointer.
  pub Grown-word :
      (k : ℕ) → k < 16 → k ≢ 0 → k ≢ 4 + n → load32 d' (oi + 4 * k) ≡ load32 d (oi + 4 * k)
  Grown-word k hi nz nn = load32-bytes (oi + 4 * k) d d' λ x l u. g.rest x (record {
    map = inr (omega (arith, map_word-before at b g.in_range));
    size = inr (omega arith);
    pointer = ground arith;
    block = inl (omega (arith, free-after at b g.was_free));
  })

  pub Grown-ptr : (i : ℕ) → i < 10 → i ≢ n → ptr d' oi i ≡ ptr d oi i
  Grown-ptr i hi ne =
      let e : oi_direct oi i ≡ oi + 4 * (4 + i) = omega arith in
      rw e (Grown-word (4 + i) (omega arith) (omega arith) (λ h. ne (omega arith)))

  pub Grown-super_word : (off : ℕ) → off ≤ 12 → load32 d' (blksize + off) ≡ load32 d (blksize + off)
  Grown-super_word off h = load32-bytes (blksize + off) d d' λ x l u. g.rest x (record {
    map = inl (omega arith);
    size = inl (omega (arith, at, at.layout));
    pointer = inl (omega (arith, at, at.layout));
    block = inl (omega (arith, at, at.layout, free-after at b g.was_free));
  })

  pub Grown-SameSuper : SameSuper d d'
  Grown-SameSuper = record {
    nblocks = Grown-super_word 4 (omega arith);
    ninodes = Grown-super_word 8 (omega arith);
    firstinob = Grown-super_word 12 (omega arith);
  }

  pub Grown-InodeAt : InodeAt d' oi
  Grown-InodeAt = InodeAt-kept at d' Grown-SameSuper λ j h u. ground (arith, g.bits j h)

pub free-data :
    {d : Disk} {oi : ℕ} (at : InodeAt d oi) (b : ℕ) → is_free d b ≡ true → first_data d ≤ b
free-data {d} at b free = elim (lt_or_le b (first_data d)) [
  | inl low ↦ absurd (false≢true (sym (at.layout.used b low) ∙ free))
  | inr high ↦ high
]

module _ {d : Disk} {oi b : ℕ} {d' : Disk} (f : SmallFile d oi) (lt : blocks d oi < 10)
    (g : Grown d oi (blocks d oi) b d') where
  super : SameSuper d d'
  super = Grown-SameSuper f.at lt g

  pub blocks-Grown : blocks d' oi ≡ blocks d oi + 1
  blocks-Grown = omega (arith, g.size, f.size_in)

  -- A block of the grown file is the new one or an old one.
  ptr_cases :
      (i : ℕ)
      → i < blocks d' oi
      → ((i ≡ blocks d oi) × (ptr d' oi i ≡ b)) ⊎ ((i < blocks d oi) × (ptr d' oi i ≡ ptr d oi i))
  ptr_cases i h = elim (Bool-cases (i == blocks d oi)) [
    | inl same ↦ let e : i ≡ blocks d oi = ground arith in inl (e, ap (ptr d' oi) e ∙ g.pointer)
    | inr other ↦
        let ne : i ≢ blocks d oi = ground arith in
        inr (omega (arith, blocks-Grown), Grown-ptr f.at lt g i (omega (arith, blocks-Grown)) ne)
  ]

  -- An old block is not the new one, which was free.
  old_ne_new : (i : ℕ) → i < blocks d oi → ptr d oi i ≢ b
  old_ne_new i h e = false≢true (sym (f.used i h) ∙ ap (is_free d) e ∙ g.was_free)

  new_in_data : (i : ℕ) → i < blocks d' oi → first_data d' ≤ ptr d' oi i
  new_in_data i h = elim (ptr_cases i h) [
    | inl (_, e) ↦ omega (arith, super, free-data f.at b g.was_free)
    | inr (l, e) ↦ omega (arith, super, f.in_data i l)
  ]

  new_in_disk : (i : ℕ) → i < blocks d' oi → ptr d' oi i < os_nblocks d'
  new_in_disk i h = elim (ptr_cases i h) [
    | inl (_, e) ↦ omega (arith, super.nblocks, g.in_range)
    | inr (l, e) ↦ omega (arith, super.nblocks, f.in_disk i l)
  ]

  new_used : (i : ℕ) → i < blocks d' oi → is_free d' (ptr d' oi i) ≡ false
  new_used i h = elim (ptr_cases i h) [
    | inl (_, e) ↦ rw e (ground (arith, g.bits b g.in_range))
    | inr (l, e) ↦
        rw e (ground (arith, g.bits (ptr d oi i) (f.in_disk i l), f.used i l, old_ne_new i l))
  ]

  new_distinct : (i j : ℕ) → i < j → j < blocks d' oi → ptr d' oi i ≢ ptr d' oi j
  new_distinct i j l h same = by_cases (ptr_cases i (omega arith)) (ptr_cases j h)
    where
      by_cases :
          ((i ≡ blocks d oi) × (ptr d' oi i ≡ b)) ⊎ ((i < blocks d oi) × (ptr d' oi i ≡ ptr d oi i))
          → ((j ≡ blocks d oi) × (ptr d' oi j ≡ b))
            ⊎ ((j < blocks d oi) × (ptr d' oi j ≡ ptr d oi j))
          → ⊥
      by_cases (inl (e, _)) q = omega (arith, blocks-Grown)
      by_cases (inr (li, ei)) (inl (_, ej)) = old_ne_new i li (sym ei ∙ same ∙ ej)
      by_cases (inr (li, ei)) (inr (lj, ej)) = f.distinct i j l lj (sym ei ∙ same ∙ ej)

  new_cleared : (i : ℕ) → blocks d' oi ≤ i → i < 10 → ptr d' oi i ≡ 0
  new_cleared i h hi =
      Grown-ptr f.at lt g i hi (omega (arith, blocks-Grown))
      ∙ f.cleared i (omega (arith, blocks-Grown)) hi

  -- Growing a small file that has less than ten blocks keeps it a small file.
  pub Grown-SmallFile : SmallFile d' oi
  Grown-SmallFile = record {
    at = Grown-InodeAt f.at lt g;
    size_in = omega (arith, g.size, f.size_in);
    in_data = new_in_data;
    in_disk = new_in_disk;
    used = new_used;
    distinct = new_distinct;
    cleared = new_cleared;
  }
