-- ===== src/Ospfs/Directory/Init.antt =====
-- The inode of a new file, as ospfs_create of Lab3/ospfsmod.c writes it, and the entry that it fills.
use cs111_ucla.Prelude.{
  ℕ, zero, suc, ◌+◌, ◌*◌, ◌%◌, ◌≤◌, ◌<◌, ◌≡◌, refl, ◌∙◌, ◌⊎◌, inl, inr, arith, Bool-cases, ◌==◌,
  update, update_ne, u32_mod,
}
use cs111_ucla.Ospfs.Disk.{
  Disk, load32, store32, Outside, store32-Outside, load32-store32, load32-Outside,
}
use cs111_ucla.Ospfs.Index.{
  oi_size, oi_ftype, oi_nlink, oi_mode, oi_direct, oi_indirect, oi_indirect2, ftype_reg,
}
use cs111_ucla.Ospfs.Monad.{ok}
use cs111_ucla.Ospfs.Directory.{clear_direct, init_file}
use cs111_ucla.Ospfs.Names.{Name, length, strncpy, od_name}
use cs111_ucla.Ospfs.Names.Strings.{NoNull, Holds, strncpy-Outside, strncpy-Holds}

store32-other :
    (a v b : ℕ) (d : Disk) → (b + 4 ≤ a) ⊎ (a + 4 ≤ b) → load32 (store32 a v d) b ≡ load32 d b
store32-other a v b d o = load32-Outside a 4 b d (store32 a v d) (store32-Outside a v d) o

clear_direct-Outside :
    (n i oi : ℕ) (d : Disk) → Outside (oi_direct oi i) (4 * n) d (clear_direct n i oi d)
unfolding clear_direct
clear_direct-Outside zero i oi d x h = refl
clear_direct-Outside (suc n) i oi d x h =
    clear_direct-Outside n (i + 1) oi (store32 (oi_direct oi i) 0 d) x (ground arith)
    ∙ store32-Outside (oi_direct oi i) 0 d x (ground arith)

clear_direct-cleared :
    (n i oi j : ℕ) (d : Disk)
    → i ≤ j
    → j < i + n
    → load32 (clear_direct n i oi d) (oi_direct oi j) ≡ 0
unfolding clear_direct
clear_direct-cleared zero i oi j d lo hi = absurd (omega arith)
clear_direct-cleared (suc n) i oi j d lo hi = elim (Bool-cases (i == j)) [
  | inl this ↦
      let at : oi_direct oi j ≡ oi_direct oi i = ground arith in
      rw at (
        load32-Outside (oi_direct oi (i + 1)) (4 * n) (oi_direct oi i)
          (store32 (oi_direct oi i) 0 d) (clear_direct n (i + 1) oi (store32 (oi_direct oi i) 0 d))
          (clear_direct-Outside n (i + 1) oi (store32 (oi_direct oi i) 0 d)) (inl (omega arith))
        ∙ load32-store32 (oi_direct oi i) 0 d)
  | inr other ↦
      clear_direct-cleared n (i + 1) oi j (store32 (oi_direct oi i) 0 d) (ground arith)
        (omega arith)
]

-- The inode of an empty file with a name.
pub record Empty (d : Disk) (oi mode : ℕ) : Type 0 where
  pub size : load32 d (oi_size oi) ≡ 0
  pub ftype : load32 d (oi_ftype oi) ≡ ftype_reg
  pub nlink : load32 d (oi_nlink oi) ≡ 1
  pub mode_set : load32 d (oi_mode oi) ≡ mode % u32_mod
  pub direct : (i : ℕ) → i < 10 → load32 d (oi_direct oi i) ≡ 0
  pub indirect : load32 d (oi_indirect oi) ≡ 0
  pub indirect2 : load32 d (oi_indirect2 oi) ≡ 0

module _ (oi mode : ℕ) (d : Disk) where
  unfoldable pub words : Disk
  words = store32 (oi_indirect2 oi) 0 (
      store32 (oi_indirect oi) 0 (
        store32 (oi_nlink oi) 1
          (store32 (oi_mode oi) mode (store32 (oi_ftype oi) ftype_reg (store32 (oi_size oi) 0 d)))))

  -- The disk after init_file.
  unfoldable pub with_file : Disk
  with_file = clear_direct 10 0 oi words

  pub init_file-with_file : init_file oi mode d ≡ (ok tt, with_file)
  unfolding init_file with_file words
  init_file-with_file = refl

  pub with_file-Outside : Outside oi 64 d with_file
  unfolding with_file words
  with_file-Outside x h =
      clear_direct-Outside 10 0 oi words x (ground arith)
      ∙ store32-Outside (oi_indirect2 oi) 0 _ x (ground arith)
      ∙ store32-Outside (oi_indirect oi) 0 _ x (ground arith)
      ∙ store32-Outside (oi_nlink oi) 1 _ x (ground arith)
      ∙ store32-Outside (oi_mode oi) mode _ x (ground arith)
      ∙ store32-Outside (oi_ftype oi) ftype_reg _ x (ground arith)
      ∙ store32-Outside (oi_size oi) 0 d x (ground arith)

  not_direct :
      (a : ℕ)
      → (a + 4 ≤ oi_direct oi 0) ⊎ (oi_direct oi 0 + 40 ≤ a)
      → load32 with_file a ≡ load32 words a
  unfolding with_file
  not_direct a o =
      load32-Outside (oi_direct oi 0) 40 a words with_file (clear_direct-Outside 10 0 oi words) o

  pub with_file-Empty : Empty with_file oi mode
  unfolding with_file words
  with_file-Empty = record {
    size =
        not_direct (oi_size oi) (inl (omega arith))
        ∙ store32-other (oi_indirect2 oi) 0 (oi_size oi) _ (inl (omega arith))
        ∙ store32-other (oi_indirect oi) 0 (oi_size oi) _ (inl (omega arith))
        ∙ store32-other (oi_nlink oi) 1 (oi_size oi) _ (inl (omega arith))
        ∙ store32-other (oi_mode oi) mode (oi_size oi) _ (inl (omega arith))
        ∙ store32-other (oi_ftype oi) ftype_reg (oi_size oi) _ (inl (omega arith))
        ∙ load32-store32 (oi_size oi) 0 d;
    ftype =
        not_direct (oi_ftype oi) (inl (omega arith))
        ∙ store32-other (oi_indirect2 oi) 0 (oi_ftype oi) _ (inl (omega arith))
        ∙ store32-other (oi_indirect oi) 0 (oi_ftype oi) _ (inl (omega arith))
        ∙ store32-other (oi_nlink oi) 1 (oi_ftype oi) _ (inl (omega arith))
        ∙ store32-other (oi_mode oi) mode (oi_ftype oi) _ (inl (omega arith))
        ∙ load32-store32 (oi_ftype oi) ftype_reg _;
    nlink =
        not_direct (oi_nlink oi) (inl (omega arith))
        ∙ store32-other (oi_indirect2 oi) 0 (oi_nlink oi) _ (inl (omega arith))
        ∙ store32-other (oi_indirect oi) 0 (oi_nlink oi) _ (inl (omega arith))
        ∙ load32-store32 (oi_nlink oi) 1 _;
    mode_set =
        not_direct (oi_mode oi) (inl (omega arith))
        ∙ store32-other (oi_indirect2 oi) 0 (oi_mode oi) _ (inl (omega arith))
        ∙ store32-other (oi_indirect oi) 0 (oi_mode oi) _ (inl (omega arith))
        ∙ store32-other (oi_nlink oi) 1 (oi_mode oi) _ (inr (omega arith))
        ∙ load32-store32 (oi_mode oi) mode _;
    direct = λ i h. clear_direct-cleared 10 0 oi i words (omega arith) (omega arith);
    indirect =
        not_direct (oi_indirect oi) (inr (omega arith))
        ∙ store32-other (oi_indirect2 oi) 0 (oi_indirect oi) _ (inl (omega arith))
        ∙ load32-store32 (oi_indirect oi) 0 _;
    indirect2 =
        not_direct (oi_indirect2 oi) (inr (omega arith)) ∙ load32-store32 (oi_indirect2 oi) 0 _;
  }

-- The entry at `od`, once its number and its name are stored.
module _ (od ino : ℕ) (name : Name) (d : Disk) where
  unfoldable pub with_entry : Disk
  with_entry =
      let numbered = store32 od ino d in
      update (strncpy name (od_name od) numbered) (od_name od + length name) 0

  module _ (n : NoNull name) (short : length name ≤ 123) where
    name_only : Outside (od_name od) 124 (store32 od ino d) with_entry
    unfolding with_entry
    name_only x h =
        update_ne (strncpy name (od_name od) (store32 od ino d)) (od_name od + length name) x 0
          (λ e. ground arith)
        ∙ strncpy-Outside name (od_name od) (store32 od ino d) n x (ground arith)

    pub with_entry-Outside : Outside od 128 d with_entry
    unfolding with_entry
    with_entry-Outside x h = name_only x (ground arith) ∙ store32-Outside od ino d x (ground arith)

    pub with_entry-Holds : Holds name (od_name od) with_entry
    unfolding with_entry
    with_entry-Holds = strncpy-Holds name (od_name od) (store32 od ino d) n

    pub with_entry-number : load32 with_entry od ≡ ino % u32_mod
    unfolding with_entry
    with_entry-number =
        load32-Outside (od_name od) 124 od (store32 od ino d) with_entry name_only
          (inl (omega arith))
        ∙ load32-store32 od ino d
