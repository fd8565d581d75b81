-- ===== src/Ospfs/Grow/Truncate.antt =====
-- change_size of Lab3/ospfsmod.c, for a file of at most ten blocks that gets shorter.
use mathlib.Core.Path.{subst}
use cs111_ucla.Prelude.{
  ℕ, zero, suc, ◌+◌, ◌*◌, ◌≤◌, ◌<◌, ◌≡◌, ◌≢◌, refl, sym, ◌∙◌, ◌⊎◌, inl, inr, arith, true, ◌==◌,
  if◌then◌else◌, Bool-cases, ltb, le→ltb, none,
}
use cs111_ucla.Ospfs.Disk.{
  Disk, load32, store32, Outside, store32-Outside, load32-store32, load32-Outside,
}
use cs111_ucla.Ospfs.Bitmap.{blksize, os_nblocks, os_firstinob}
use cs111_ucla.Ospfs.Bitmap.Alloc.{is_free}
use cs111_ucla.Ospfs.Index.{size2nblocks, oi_size, oi_direct}
use cs111_ucla.Ospfs.Monad.{ok}
use cs111_ucla.Ospfs.Grow.{remove_block, grow_loop, shrink_loop, change_size}
use cs111_ucla.Ospfs.Grow.Frame.{InodeAt, SameSuper, SameSuper-trans, InodeAt-kept, InodeAt-low}
use cs111_ucla.Ospfs.Grow.Remove.{Shrunk, remove_block-Shrunk, Shrunk-word, Shrunk-SameSuper}
use cs111_ucla.Ospfs.Grow.SetSize.{set_super, set_ptr, set_free}
use cs111_ucla.Ospfs.Grow.Small.{blocks, ptr, SmallFile, blocks-le}

-- On the disk `e`, the small file of the disk `d` has kept its first `k` blocks, its type, links and mode. The other blocks are free
-- and their pointers 0; no other bit of the bitmap, no byte of any data block and no other
-- inode has changed.
pub record Truncates (oi : ℕ) (d : Disk) (k : ℕ) (e : Disk) : Type 0 where
  pub at : InodeAt e oi
  pub fields : (k : ℕ) → 1 ≤ k → k < 4 → load32 e (oi + 4 * k) ≡ load32 d (oi + 4 * k)
  pub super : SameSuper d e
  pub shorter : k ≤ blocks d oi
  pub pointers : (i : ℕ) → i < k → ptr e oi i ≡ ptr d oi i
  pub cleared : (i : ℕ) → k ≤ i → i < 10 → ptr e oi i ≡ 0
  pub freed : (i : ℕ) → k ≤ i → i < blocks d oi → is_free e (ptr d oi i) ≡ true
  pub bits :
      (j : ℕ)
      → j < os_nblocks d
      → ((i : ℕ) → k ≤ i → i < blocks d oi → ptr d oi i ≢ j)
      → is_free e j ≡ is_free d j
  pub bytes : (x : ℕ) → os_firstinob d * blksize ≤ x → (x < oi) ⊎ (oi + 64 ≤ x) → e x ≡ d x

Truncates-refl : {oi : ℕ} {d : Disk} → SmallFile d oi → Truncates oi d (blocks d oi) d
Truncates-refl f = record {
  at = f.at;
  fields = λ k lo hi. refl;
  super = record { nblocks = refl; ninodes = refl; firstinob = refl };
  shorter = omega arith;
  pointers = λ i h. refl;
  cleared = f.cleared;
  freed = λ i h l. absurd (omega arith);
  bits = λ j h o. refl;
  bytes = λ x h o. refl;
}

-- One block less.
module _ {oi m : ℕ} {d e e' : Disk} (f : SmallFile d oi) (t : Truncates oi d (suc m) e)
    (s : Shrunk e oi m (ptr d oi m) e') where
  last_in : m < blocks d oi
  last_in = omega (arith, t.shorter)

  m_lt : m < 10
  m_lt = omega (arith, last_in, blocks-le f)

  b_in : ptr d oi m < os_nblocks e
  b_in = omega (arith, t.super, f.in_disk m last_in)

  cut_super : SameSuper e e'
  cut_super = Shrunk-SameSuper t.at m_lt b_in s

  cut_ptr : (i : ℕ) → i < 10 → i ≢ m → ptr e' oi i ≡ ptr e oi i
  cut_ptr i hi ne =
      let a : oi_direct oi i ≡ oi + 4 * (4 + i) = omega arith in
      rw a (Shrunk-word t.at m_lt b_in s (4 + i) (omega arith) (omega arith) (omega arith))

  cut_cleared : (i : ℕ) → m ≤ i → i < 10 → ptr e' oi i ≡ 0
  cut_cleared i lo hi = elim (Bool-cases (i == m)) [
    | inl last ↦ let same : i ≡ m = ground arith in rw same s.pointer
    | inr other ↦ cut_ptr i hi (ground arith) ∙ t.cleared i (ground arith) hi
  ]

  cut_freed : (i : ℕ) → m ≤ i → i < blocks d oi → is_free e' (ptr d oi i) ≡ true
  cut_freed i lo hi = s.bits (ptr d oi i) (omega (arith, t.super, f.in_disk i hi)) ∙ bit
    where
      bit : (if ptr d oi m == ptr d oi i then true else is_free e (ptr d oi i)) ≡ true
      bit = elim (Bool-cases (i == m)) [
        | inl last ↦ let same : i ≡ m = ground arith in rw same (ground arith)
        | inr other ↦ ground (arith, t.freed i (ground arith) hi)
      ]

  cut_bits :
      (j : ℕ)
      → j < os_nblocks d
      → ((i : ℕ) → m ≤ i → i < blocks d oi → ptr d oi i ≢ j)
      → is_free e' j ≡ is_free d j
  cut_bits j h o =
      let ne = o m (omega arith) last_in in
      let old = t.bits j h (λ i lo hi. o i (omega arith) hi) in
      ground (arith, s.bits j (omega (arith, t.super)))

  Truncates-Shrunk : Truncates oi d m e'
  Truncates-Shrunk = record {
    at = InodeAt-low t.at e' cut_super λ j h u.
        ground (arith, s.bits j (omega (arith, t.at.layout.data_in)), f.in_data m last_in, t.super);
    fields = λ k lo hi.
        Shrunk-word t.at m_lt b_in s k (omega arith) (omega arith) (omega arith) ∙ t.fields k lo hi;
    super = SameSuper-trans d e e' t.super cut_super;
    shorter = omega (arith, t.shorter);
    pointers = λ i h. cut_ptr i (omega (arith, m_lt)) (omega arith) ∙ t.pointers i (omega arith);
    cleared = cut_cleared;
    freed = cut_freed;
    bits = cut_bits;
    bytes = λ x h o.
        s.rest x (inr (omega (arith, f.in_disk m last_in, f.at, f.at.layout))) (ground (arith, o))
          (ground (arith, o, m_lt))
        ∙ t.bytes x h o;
  }

-- The number of blocks of the result is right even if the subtraction from the size wraps around.
remove_block-Truncates :
    {oi m : ℕ} {d e : Disk} (f : SmallFile d oi)
    → Truncates oi d (suc m) e
    → blocks e oi ≡ suc m
    → (e' : Disk) × (remove_block oi e ≡ (ok tt, e')) × Truncates oi d m e' × (blocks e' oi ≡ m)
remove_block-Truncates {oi} {m} {d} {e} f t n =
    let p : ptr e oi m ≡ ptr d oi m = t.pointers m (omega arith) in
    let last : m < blocks d oi = omega (arith, t.shorter) in
    let (e', r, s) =
      remove_block-Shrunk t.at n (omega (arith, last, blocks-le f))
        (omega (arith, p, t.super, f.in_data m last))
        (omega (arith, p, t.super, f.in_disk m last)) in
    (
      e',
      r,
      Truncates-Shrunk f t (subst (λ b. Shrunk e oi m b e') p s),
      omega (arith, n, s.size, last, blocks-le f),
    )

shrink_step :
    (oi m : ℕ) (e e' : Disk) (want fuel : ℕ)
    → remove_block oi e ≡ (ok tt, e')
    → blocks e oi ≡ suc m
    → size2nblocks want ≤ m
    → shrink_loop (suc fuel) oi want none e ≡ shrink_loop fuel oi want none e'
unfolding shrink_loop
shrink_step oi m e e' want fuel r n le =
    let more : ltb (size2nblocks want) (blocks e oi) ≡ true = ground arith in
    rw (shrink_loop, more, r, r) refl

shrink_idle :
    (fuel oi want : ℕ) (e : Disk)
    → size2nblocks want ≡ blocks e oi
    → shrink_loop (suc fuel) oi want none e ≡ (ok none, e)
unfolding shrink_loop
shrink_idle fuel oi want e same =
    rw (shrink_loop, le→ltb (size2nblocks want) (blocks e oi) (omega arith)) refl

-- The second loop of change_size on the disk `e`.
ShrinkEnd : ℕ → Disk → ℕ → ℕ → Disk → Type 0
ShrinkEnd oi d want fuel e =
    (e' : Disk) × (shrink_loop fuel oi want none e ≡ (ok none, e'))
    × Truncates oi d (size2nblocks want) e'

shrink_loop-done :
    (oi : ℕ) (d : Disk) (want fuel : ℕ) (e : Disk) (k : ℕ)
    → Truncates oi d k e
    → blocks e oi ≡ k
    → size2nblocks want ≡ k
    → ShrinkEnd oi d want (suc fuel) e
unfolding ShrinkEnd
shrink_loop-done oi d want fuel e k t n same =
    (e, shrink_idle fuel oi want e (same ∙ sym n), rw same t)

shrink_loop-more :
    (oi m : ℕ) (d e e' : Disk) (want fuel : ℕ)
    → remove_block oi e ≡ (ok tt, e')
    → blocks e oi ≡ suc m
    → size2nblocks want ≤ m
    → ShrinkEnd oi d want fuel e'
    → ShrinkEnd oi d want (suc fuel) e
unfolding ShrinkEnd
shrink_loop-more oi m d e e' want fuel r n le (e'', r', t) =
    (e'', shrink_step oi m e e' want fuel r n le ∙ r', t)

shrink_loop-ends :
    {oi : ℕ} {d : Disk} (f : SmallFile d oi) (want fuel : ℕ) (e : Disk) (k : ℕ)
    → Truncates oi d k e
    → blocks e oi ≡ k
    → size2nblocks want ≤ k
    → k < fuel
    → ShrinkEnd oi d want fuel e
shrink_loop-ends f want zero e k t n le lt = absurd (omega arith)
shrink_loop-ends {oi} {d} f want (suc fuel) e zero t n le lt =
    shrink_loop-done oi d want fuel e 0 t n (omega arith)
shrink_loop-ends {oi} {d} f want (suc fuel) e (suc m) t n le lt =
    elim (Bool-cases (size2nblocks want == suc m)) [
      | inl done ↦ shrink_loop-done oi d want fuel e (suc m) t n (ground arith)
      | inr more ↦
          let below : size2nblocks want ≤ m = ground arith in
          let (e', r, t', n') = remove_block-Truncates f t n in
          shrink_loop-more oi m d e e' want fuel r n below
            (shrink_loop-ends f want fuel e' m t' n' below (omega arith))
    ]

-- The file that is left is a small file.
Truncates-SmallFile :
    {oi : ℕ} {d e : Disk}
    → SmallFile d oi
    → Truncates oi d (blocks e oi) e
    → load32 e (oi_size oi) ≤ 10 * blksize
    → SmallFile e oi
Truncates-SmallFile {oi} {d} {e} f t small = record {
  at = t.at;
  size_in = small;
  in_data = λ i h. omega (arith, t.super, t.pointers i h, f.in_data i (omega (arith, t.shorter)));
  in_disk = λ i h. omega (arith, t.super, t.pointers i h, f.in_disk i (omega (arith, t.shorter)));
  used = λ i h. rw (t.pointers i h) (
      t.bits (ptr d oi i) (f.in_disk i (omega (arith, t.shorter)))
        (λ j lo hi same. f.distinct i j (omega arith) hi (sym same))
      ∙ f.used i (omega (arith, t.shorter)));
  distinct = λ i j l h.
      rw (t.pointers i (omega arith), t.pointers j h) (f.distinct i j l (omega (arith, t.shorter)));
  cleared = t.cleared;
}

-- Writing the size.
Truncates-sized :
    {oi k : ℕ} {d e e' : Disk}
    → SmallFile d oi
    → Outside oi 4 e e'
    → Truncates oi d k e
    → Truncates oi d k e'
Truncates-sized {oi} {k} {d} {e} {e'} f o t = record {
  at = InodeAt-kept t.at e' (set_super t.at o) λ j h u. set_free t.at o j h ∙ u;
  fields =
      λ k lo hi. load32-Outside oi 4 (oi + 4 * k) e e' o (inr (omega arith)) ∙ t.fields k lo hi;
  super = SameSuper-trans d e e' t.super (set_super t.at o);
  shorter = t.shorter;
  pointers = λ i h. set_ptr t.at o i ∙ t.pointers i h;
  cleared = λ i lo hi. set_ptr t.at o i ∙ t.cleared i lo hi;
  freed = λ i lo hi.
      set_free t.at o (ptr d oi i) (omega (arith, t.super, f.in_disk i hi)) ∙ t.freed i lo hi;
  bits = λ j h ne. set_free t.at o j (omega (arith, t.super)) ∙ t.bits j h ne;
  bytes = λ x h w. o x (ground (arith, w)) ∙ t.bytes x h w;
}

grow_loop-idle :
    (fuel oi want old : ℕ) (d : Disk)
    → size2nblocks want ≤ blocks d oi
    → grow_loop (fuel + 1) oi want old 0 d ≡ (ok (none, want), d)
unfolding grow_loop
grow_loop-idle fuel oi want old d le =
    let next : fuel + 1 ≡ suc fuel = omega arith in
    rw (next, grow_loop, le→ltb (blocks d oi) (size2nblocks want) le) refl

-- After the two loops.
change_size-cut :
    {oi : ℕ} {d : Disk} (f : SmallFile d oi) (want : ℕ)
    → want ≤ load32 d (oi_size oi)
    → ShrinkEnd oi d want (blocks d oi + 1) d
    → (e : Disk) × (change_size oi want d ≡ (ok tt, e))
      × SmallFile e oi
      × (load32 e (oi_size oi) ≡ want)
      × Truncates oi d (size2nblocks want) e
unfolding change_size ShrinkEnd
change_size-cut {oi} {d} f want le (e, r, t) =
    let o = store32-Outside (oi_size oi) want e in
    let old = load32 d (oi_size oi) in
    let size : load32 (store32 (oi_size oi) want e) (oi_size oi) ≡ want =
      load32-store32 (oi_size oi) want e ∙ omega (arith, f.size_in) in
    let t' = Truncates-sized f o t in
    (
      store32 (oi_size oi) want e,
      rw (grow_loop-idle (size2nblocks want) oi want old d (omega (arith, f.size_in)), r) refl,
      Truncates-SmallFile f (rw size t') (omega (arith, size, f.size_in)),
      size,
      t',
    )

-- A file of at most ten blocks that is not to grow has afterwards the size wanted. It keeps the
-- blocks that this size needs, the others are free and their pointers 0; no other bit of the bitmap
-- and no other inode and no byte of any data block changes. change_size always ends and returns 0.
pub change_size-Truncates :
    {oi : ℕ} {d : Disk} (want : ℕ)
    → SmallFile d oi
    → want ≤ load32 d (oi_size oi)
    → (e : Disk) × (change_size oi want d ≡ (ok tt, e))
      × SmallFile e oi
      × (load32 e (oi_size oi) ≡ want)
      × Truncates oi d (size2nblocks want) e
change_size-Truncates {oi} {d} want f le = change_size-cut f want le (
    shrink_loop-ends f want (blocks d oi + 1) d (blocks d oi) (Truncates-refl f) refl
      (omega (arith, f.size_in)) (omega arith))
