-- ===== src/Ospfs/Directory/Creates.antt =====
-- All answers of ospfs_create of Lab3/ospfsmod.c.
use cs111_ucla.Prelude.{
  ℕ, zero, suc, ◌+◌, ◌*◌, ◌≤◌, ◌<◌, ◌≡◌, ◌≢◌, refl, sym, ◌∙◌, ap, inl, inr, arith, true, false,
  Bool, Bool-cases, ◌==◌, ltb, if◌then◌else◌, leb, Option, none, some,
}
use cs111_ucla.Ospfs.Disk.{Disk, load32}
use cs111_ucla.Ospfs.Bitmap.{blksize, ospfs_block, os_ninodes, os_firstinob}
use cs111_ucla.Ospfs.Bitmap.Alloc.{Layout}
use cs111_ucla.Ospfs.Index.{oi_nlink, oi_ftype, ospfs_inode}
use cs111_ucla.Ospfs.Monad.{◌>>=◌, Result, ok, err, enospc, eexist, enametoolong, enomem}
use cs111_ucla.Ospfs.Grow.Undo.{Like}
use cs111_ucla.Ospfs.Files.Bytes.{file_size}
use cs111_ucla.Ospfs.Names.{
  Name, length, maxnamelen, find_direntry, ospfs_mk_linux_inode, linux_inode,
}
use cs111_ucla.Ospfs.Names.Strings.{NoNull}
use cs111_ucla.Ospfs.Directory.{
  check_name, free_inode_from, instantiate, init_file, create_blank_direntry, create_at,
  ospfs_create,
}
use cs111_ucla.Ospfs.Directory.Entries.{
  entry, dir_ino, dir_ino-found, dir_ino-absent, check_name-passes,
}
use cs111_ucla.Ospfs.Directory.Slot.{IsDirectory, slot-Keeps}
use cs111_ucla.Ospfs.Directory.Filled.{filled-IsDirectory}
use cs111_ucla.Ospfs.Directory.Blank.{NewSlot, Blanked, slot, full, create_blank_direntry-Blanked}
use cs111_ucla.Ospfs.Directory.Init.{words, with_file, with_entry}
use cs111_ucla.Ospfs.Directory.Create.{
  inode_at, IsOther, Linked, after, after-Linked, is_empty, rest, new_inode,
}

pub inode_or-inode_at :
    {d : Disk} (l : Layout d) (ino : ℕ)
    → ino < os_ninodes d
    → ospfs_inode ino d ≡ some (inode_at d ino)
unfolding ospfs_inode
inode_or-inode_at {d} l ino h =
    let test : leb (os_ninodes d) ino ≡ false = ground arith in
    let address : ospfs_block (os_firstinob d) ≡ os_firstinob d * blksize = omega (arith, l) in
    rw (test, address) refl

-- What the search for a free inode returns.
pub data Searched (d : Disk) (first : ℕ) : ℕ → Type 0 where
  free_at :
      (ino : ℕ)
      → ino < os_ninodes d
      → load32 d (oi_nlink (inode_at d ino)) ≡ 0
      → Searched d first ino
  all_used :
      ((ino : ℕ) → first ≤ ino → ino < os_ninodes d → load32 d (oi_nlink (inode_at d ino)) ≢ 0)
      → Searched d first (os_ninodes d)

free_inode_from-Searched :
    {d : Disk} (l : Layout d) (n first : ℕ)
    → first + n ≡ os_ninodes d
    → Searched d first (free_inode_from n first d)
unfolding free_inode_from
free_inode_from-Searched {d} l zero first e =
    let done : first ≡ os_ninodes d = omega arith in
    rw done (all_used (λ ino lo hi. absurd (omega arith)))
free_inode_from-Searched {d} l (suc n) first e =
    elim (Bool-cases (load32 d (oi_nlink (inode_at d first)) == 0)) [
      | inl unused ↦
          rw (free_inode_from, inode_or-inode_at l first (omega arith), unused)
            (free_at first (omega arith) (ground arith))
      | inr used ↦
          rw (free_inode_from, inode_or-inode_at l first (omega arith), used)
            (later (ground arith) (free_inode_from-Searched l n (first + 1) (omega arith)))
    ]
  where
    later :
        {r : ℕ}
        → load32 d (oi_nlink (inode_at d first)) ≢ 0
        → Searched d (first + 1) r
        → Searched d first r
    later used (free_at ino h z) = free_at ino h z
    later used (all_used u) = all_used λ ino lo hi. elim (Bool-cases (ino == first)) [
      | inl this ↦ let at : ino ≡ first = ground arith in rw at used
      | inr other ↦ u ino (ground arith) hi
    ]

-- What ospfs_create does, by its answers; `made` is whether new_inode of the kernel returns an inode. The
-- name is too long; the directory has it; all inodes are in use; the disk is full, and what is in use is
-- as before; the file is created; or it is, and the kernel has no memory for its inode.
pub data Creates (d : Disk) (dir mode : ℕ) (name : Name) (made : Bool)
    : Result (Unit {0}) × Disk → Type 0 where
  too_long : maxnamelen < length name → Creates d dir mode name made (err enametoolong, d)
  exists : (ino : ℕ) → dir_ino d dir name ≡ some ino → Creates d dir mode name made (err eexist, d)
  no_inode :
      ((ino : ℕ) → ino < os_ninodes d → load32 d (oi_nlink (inode_at d ino)) ≢ 0)
      → Creates d dir mode name made (err enospc, d)
  no_space : (e : Disk) → Like dir d e → Creates d dir mode name made (err enospc, e)
  created :
      (e : Disk) (ino : ℕ)
      → made ≡ true
      → ino < os_ninodes d
      → load32 d (oi_nlink (inode_at d ino)) ≡ 0
      → Linked d e dir ino mode name
      → Creates d dir mode name made (ok tt, e)
  no_memory :
      (e : Disk) (ino : ℕ)
      → made ≡ false
      → ino < os_ninodes d
      → load32 d (oi_nlink (inode_at d ino)) ≡ 0
      → Linked d e dir ino mode name
      → Creates d dir mode name made (err enomem, e)

-- The directory is an inode with a name, and inode 0 is not free.
pub record Rooted (d : Disk) (dir : ℕ) : Type 0 where
  pub number : ℕ
  pub is_inode : dir ≡ inode_at d number
  pub linked : load32 d (oi_nlink dir) ≢ 0
  pub reserved : load32 d (oi_nlink (inode_at d 0)) ≢ 0

Rooted-IsOther :
    {d : Disk} {dir : ℕ} (r : Rooted d dir) (ino : ℕ)
    → ino < os_ninodes d
    → load32 d (oi_nlink (inode_at d ino)) ≡ 0
    → IsOther d dir ino
Rooted-IsOther {d} {dir} r ino h z = record {
  in_range = h;
  not_zero = λ e. r.reserved (ap (λ k. load32 d (oi_nlink (inode_at d k))) (sym e) ∙ z);
  apart = elim (Bool-cases (r.number == ino)) [
    | inl same ↦
        let at : dir ≡ inode_at d ino = ground (arith, r.is_inode) in
        absurd (r.linked (ap (λ a. load32 d (oi_nlink a)) at ∙ z))
    | inr other ↦ ground (arith, r.is_inode)
  ];
}

-- The kernel's inode for a new file.
made_file :
    (made : Bool) (ino oi : ℕ) (t : Disk)
    → ospfs_inode ino t ≡ some oi
    → load32 t (oi_ftype oi) ≡ 0
    → instantiate (ospfs_mk_linux_inode made ino t) t ≡ (if made then ok tt else err enomem, t)
unfolding ospfs_mk_linux_inode linux_inode
made_file true ino oi t e f = rw (e, f) refl
made_file false ino oi t e f = rw e refl

-- ospfs_create with an entry and an inode.
module _ {d e : Disk} {dir i ino : ℕ} (mode : ℕ) (name : Name) (s : NewSlot d e dir i)
    (g : IsDirectory d dir) (f : IsOther d dir ino) (n : NoNull name)
    (short : length name ≤ maxnamelen) where
  inode_before : ospfs_inode ino e ≡ some (inode_at d ino)
  inode_before =
      inode_or-inode_at s.directory.regular.file.at.layout ino
        (omega (arith, f.in_range, s.grown.super))
      ∙ ap some (omega (arith, s.grown.super))

  inode_after : ospfs_inode ino (after d e dir i ino mode name) ≡ some (inode_at d ino)
  inode_after =
      let r = rest mode name s g f n short in
      let at = new_inode mode name s g f n short in
      let t = filled-IsDirectory s g at f.apart r in
      let k = slot-Keeps s.directory at f.apart i s.within r in
      inode_or-inode_at t.regular.file.at.layout ino
        (omega (arith, f.in_range, s.grown.super, k.super))
      ∙ ap some (omega (arith, s.grown.super, k.super))

  create_at-after :
      (made : Bool)
      → create_at made (entry e dir i) ino name mode e
        ≡ (if made then ok tt else err enomem, after d e dir i ino mode name)
  unfolding create_at with_entry with_file words init_file
  create_at-after made = rw inode_before (
      made_file made ino (inode_at d ino) (after d e dir i ino mode name) inode_after
        (is_empty mode name s g f n short).ftype)

module _ {d : Disk} {dir : ℕ} (mode : ℕ) (name : Name) (made : Bool) (r : Rooted d dir)
    (g : IsDirectory d dir) (room : file_size d dir + 128 ≤ 10 * blksize) (n : NoNull name) where
  -- After the tests, and the search for an inode.
  module _ (short : length name ≤ maxnamelen) (absent : find_direntry dir name d ≡ none) where
    passes : check_name dir name false d ≡ (ok tt, d)
    passes = check_name-passes d dir name short absent

    by_blank :
        {ino : ℕ} {b : Result ℕ × Disk}
        → ino < os_ninodes d
        → load32 d (oi_nlink (inode_at d ino)) ≡ 0
        → Blanked d dir b
        → create_blank_direntry dir d ≡ b
        → Creates d dir mode name made
            ((create_blank_direntry dir >>= (λ od. create_at made od ino name mode)) d)
    by_blank {ino} h z (slot e i w) s =
        let f = Rooted-IsOther r ino h z in
        let linked = after-Linked mode name w g f n short (dir_ino-absent d dir name absent) in
        let a = after d e dir i ino mode name in
        rw (s, create_at-after mode name w g f n short made)
          (elim (Bool-cases made) [
            | inl room ↦ rw room (created a ino refl h z linked)
            | inr no_room ↦ rw no_room (no_memory a ino refl h z linked)
          ])
    by_blank h z (full e like) s = rw s (no_space e like)

    by_inode :
        {ino : ℕ}
        → Searched d 0 ino
        → free_inode_from (os_ninodes d) 0 d ≡ ino
        → Creates d dir mode name made (ospfs_create made dir name mode d)
    unfolding ospfs_create
    by_inode (all_used u) s =
        let same : (os_ninodes d == os_ninodes d) ≡ true = ground arith in
        rw (passes, s, same) (no_inode (λ ino h. u ino (omega arith) h))
    by_inode (free_at ino h z) s =
        let differs : (ino == os_ninodes d) ≡ false = ground arith in
        rw (passes, s, differs) (by_blank h z (create_blank_direntry-Blanked g room) refl)

  -- In a directory of at most ten blocks that an entry more fits in, which is an inode with links, when inode 0 has
  -- links, and for a name without null characters: ospfs_create answers that the name is
  -- too long or that the directory has it or that all inodes have links, each time with the disk
  -- unchanged; or that the disk is full, with all that is in use as before; or the directory has the
  -- new name for an inode that had no links, which is that of an empty file with the mode asked for, and
  -- every other name as before. The answer is then 0, or -ENOMEM if new_inode of the kernel has failed.
  pub ospfs_create-Creates : Creates d dir mode name made (ospfs_create made dir name mode d)
  unfolding ospfs_create check_name
  ospfs_create-Creates = elim (Bool-cases (ltb maxnamelen (length name))) [
    | inl long ↦ rw long (too_long (ground arith))
    | inr short ↦ by_found (ground arith) (find_direntry dir name d) refl
  ]
    where
      by_found :
          length name ≤ maxnamelen
          → (o : Option ℕ) → find_direntry dir name d ≡ o
          → Creates d dir mode name made (ospfs_create made dir name mode d)
      by_found short none s =
          by_inode short s
            (free_inode_from-Searched g.regular.file.at.layout (os_ninodes d) 0 (omega arith)) refl
      by_found short (some od) s =
          let test : ltb maxnamelen (length name) ≡ false = ground arith in
          rw (test, s) (exists (load32 d od) (dir_ino-found d dir od name s))
