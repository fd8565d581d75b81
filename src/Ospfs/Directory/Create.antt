-- ===== src/Ospfs/Directory/Create.antt =====
-- ospfs_create of Lab3/ospfsmod.c: a directory as a map from names to inode numbers.
use cs111_ucla.Prelude.{
  ℕ, ◌+◌, ◌*◌, ◌%◌, ◌≤◌, ◌<◌, ◌≡◌, ◌≢◌, ◌∙◌, ◌⊎◌, inl, arith, none, some, u32_mod,
}
use cs111_ucla.Ospfs.Disk.{Disk, load32, load32-Outside}
use cs111_ucla.Ospfs.Bitmap.{blksize, os_ninodes, os_firstinob}
use cs111_ucla.Ospfs.Index.{inode_size}
use cs111_ucla.Ospfs.Grow.Frame.{InodeAt}
use cs111_ucla.Ospfs.Names.{Name, length, maxnamelen}
use cs111_ucla.Ospfs.Names.Strings.{NoNull}
use cs111_ucla.Ospfs.Directory.Entries.{entry, dir_ino}
use cs111_ucla.Ospfs.Directory.Slot.{IsDirectory, entry-behind}
use cs111_ucla.Ospfs.Directory.Blank.{NewSlot}
use cs111_ucla.Ospfs.Directory.Filled.{filled-IsDirectory, filled-new, filled-others}
use cs111_ucla.Ospfs.Directory.Init.{
  Empty, with_file, with_file-Outside, with_file-Empty, with_entry, with_entry-Outside,
  with_entry-Holds, with_entry-number,
}

-- The address of an inode.
abbrev pub inode_at : Disk → ℕ → ℕ
inode_at d ino = os_firstinob d * blksize + inode_size * ino

-- The number of an inode, not 0, that is not the directory's.
pub record IsOther (d : Disk) (dir ino : ℕ) : Type 0 where
  pub in_range : ino < os_ninodes d
  pub not_zero : ino ≢ 0
  pub apart : (dir + 64 ≤ inode_at d ino) ⊎ (inode_at d ino + 64 ≤ dir)

-- The directory has the new name for the inode `ino`, every other name as before, and the inode is
-- that of an empty file.
pub record Linked (d e : Disk) (dir ino mode : ℕ) (name : Name) : Type 0 where
  pub directory : IsDirectory e dir
  pub new : dir_ino e dir name ≡ some ino
  pub others :
      (other : Name)
      → length other ≤ maxnamelen
      → other ≢ name
      → dir_ino e dir other ≡ dir_ino d dir other
  pub inode : Empty e (inode_at d ino) mode

-- The disk with the inode and the entry.
abbrev pub after : Disk → Disk → ℕ → ℕ → ℕ → ℕ → Name → Disk
after d e dir i ino mode name =
    with_entry (entry e dir i) ino name (with_file (inode_at d ino) mode e)

module _ {d e : Disk} {dir i ino : ℕ} (mode : ℕ) (name : Name) (s : NewSlot d e dir i)
    (g : IsDirectory d dir) (f : IsOther d dir ino) (n : NoNull name)
    (short : length name ≤ maxnamelen) where
  pub new_inode : InodeAt e (inode_at d ino)
  new_inode = record {
    layout = s.directory.regular.file.at.layout;
    after_bitmap = omega (arith, s.grown.super);
    before_data = omega (arith, s.grown.super, f.in_range, s.directory.regular.file.at.layout);
  }

  pub rest :
      (y : ℕ)
      → (y < inode_at d ino) ⊎ (inode_at d ino + 64 ≤ y)
      → (y < entry e dir i) ⊎ (entry e dir i + 128 ≤ y)
      → after d e dir i ino mode name y ≡ e y
  rest y o o' =
      with_entry-Outside (entry e dir i) ino name (with_file (inode_at d ino) mode e) n short y o'
      ∙ with_file-Outside (inode_at d ino) mode e y o

  -- The words of the inode lie before the entry.
  pub inode_word :
      (a : ℕ)
      → a + 4 ≤ inode_at d ino + 64
      → load32 (after d e dir i ino mode name) a ≡ load32 (with_file (inode_at d ino) mode e) a
  inode_word a h =
      load32-Outside (entry e dir i) 128 a (with_file (inode_at d ino) mode e)
        (after d e dir i ino mode name)
        (with_entry-Outside (entry e dir i) ino name (with_file (inode_at d ino) mode e) n short)
        (inl (omega (arith, new_inode, entry-behind s.directory i s.within)))

  pub is_empty : Empty (after d e dir i ino mode name) (inode_at d ino) mode
  is_empty =
      let w = with_file-Empty (inode_at d ino) mode e in
      record {
        size = inode_word _ (omega arith) ∙ w.size;
        ftype = inode_word _ (omega arith) ∙ w.ftype;
        nlink = inode_word _ (omega arith) ∙ w.nlink;
        mode_set = inode_word _ (omega arith) ∙ w.mode_set;
        direct = λ j h. inode_word _ (omega arith) ∙ w.direct j h;
        indirect = inode_word _ (omega arith) ∙ w.indirect;
        indirect2 = inode_word _ (omega arith) ∙ w.indirect2;
      }

  pub after-Linked :
      dir_ino d dir name ≡ none → Linked d (after d e dir i ino mode name) dir ino mode name
  after-Linked none_before =
      let holds =
        with_entry-Holds (entry e dir i) ino name (with_file (inode_at d ino) mode e) n short in
      let small : ino % u32_mod ≡ ino = omega (arith, f.in_range, g.regular.file.at.layout) in
      let number =
        with_entry-number (entry e dir i) ino name (with_file (inode_at d ino) mode e) n short
        ∙ small in
      record {
        directory = filled-IsDirectory s g new_inode f.apart rest;
        new = filled-new s g new_inode f.apart rest name short holds number f.not_zero none_before;
        others = filled-others s g new_inode f.apart rest name short holds number f.not_zero;
        inode = is_empty;
      }
