-- ===== src/Ospfs/Directory/Link.antt =====
-- All answers of ospfs_link of Lab3/ospfsmod.c.
use cs111_ucla.Prelude.{
  ℕ, ◌+◌, ◌*◌, ◌%◌, ◌≤◌, ◌<◌, ◌≡◌, ◌≢◌, refl, ◌∙◌, ap, ◌⊎◌, inl, inr, arith, false, Bool-cases, ltb,
  Option, none, some, update, update_ne, u32_mod, add32,
}
use cs111_ucla.Ospfs.Disk.{
  Disk, load32, store32, Outside, store32-Outside, load32-store32, load32-Outside, load32-bytes,
}
use cs111_ucla.Ospfs.Bitmap.{blksize}
use cs111_ucla.Ospfs.Index.{oi_nlink}
use cs111_ucla.Ospfs.Monad.{Result, ok, err, enospc, eexist, enametoolong}
use cs111_ucla.Ospfs.Grow.Frame.{InodeAt}
use cs111_ucla.Ospfs.Grow.Undo.{Like}
use cs111_ucla.Ospfs.Files.Bytes.{file_size}
use cs111_ucla.Ospfs.Names.{Name, length, maxnamelen, find_direntry, strncpy, od_name}
use cs111_ucla.Ospfs.Names.Strings.{NoNull, Holds, Holds-same, strncpy-Outside, strncpy-Holds}
use cs111_ucla.Ospfs.Directory.{check_name, create_blank_direntry, ospfs_link}
use cs111_ucla.Ospfs.Directory.Entries.{
  entry, dir_ino, dir_ino-found, dir_ino-absent, check_name-passes,
}
use cs111_ucla.Ospfs.Directory.Slot.{IsDirectory, entry-behind}
use cs111_ucla.Ospfs.Directory.Blank.{NewSlot, Blanked, slot, full, create_blank_direntry-Blanked}
use cs111_ucla.Ospfs.Directory.Filled.{filled-IsDirectory, filled-new, filled-others}
use cs111_ucla.Ospfs.Directory.Create.{inode_at, IsOther}

-- What ospfs_link does, by its answers: the name is too long; the directory has it; the disk is full,
-- and is as before; or the directory has the name for the inode `ino`, every other name as before, and the
-- inode has one link more.
pub data Links (d : Disk) (dir ino : ℕ) (name : Name) : Result (Unit {0}) × Disk → Type 0 where
  too_long : maxnamelen < length name → Links d dir ino name (err enametoolong, d)
  exists : (other : ℕ) → dir_ino d dir name ≡ some other → Links d dir ino name (err eexist, d)
  no_space : (e : Disk) → Like dir d e → Links d dir ino name (err enospc, e)
  linked :
      (e : Disk)
      → IsDirectory e dir
      → dir_ino e dir name ≡ some ino
      → ((other : Name)
          → length other ≤ maxnamelen
          → other ≢ name
          → dir_ino e dir other ≡ dir_ino d dir other)
      → load32 e (oi_nlink (inode_at d ino)) ≡ add32 (load32 d (oi_nlink (inode_at d ino))) 1
      → Links d dir ino name (ok tt, e)

-- The entry at `od`, once its name and its number are stored, and the number of links of `oi`.
abbrev named : ℕ → Name → Disk → Disk
named od name d = update (strncpy name (od_name od) d) (od_name od + length name) 0

abbrev numbered : ℕ → ℕ → Name → Disk → Disk
numbered od ino name d = store32 od ino (named od name d)

abbrev counted : ℕ → ℕ → ℕ → Name → Disk → Disk
counted oi od ino name d =
    store32 (oi_nlink oi) (add32 (load32 (numbered od ino name d) (oi_nlink oi)) 1)
      (numbered od ino name d)

module _ {d e : Disk} {dir i ino : ℕ} (name : Name) (s : NewSlot d e dir i) (g : IsDirectory d dir)
    (f : IsOther d dir ino) (n : NoNull name) (short : length name ≤ maxnamelen) where
  at : InodeAt e (inode_at d ino)
  at = record {
    layout = s.directory.regular.file.at.layout;
    after_bitmap = omega (arith, s.grown.super);
    before_data = omega (arith, s.grown.super, f.in_range, s.directory.regular.file.at.layout);
  }

  behind : inode_at d ino + 64 ≤ entry e dir i
  behind = omega (arith, at, entry-behind s.directory i s.within)

  name_rest : Outside (od_name (entry e dir i)) 124 e (named (entry e dir i) name e)
  name_rest y o =
      update_ne (strncpy name (od_name (entry e dir i)) e) (od_name (entry e dir i) + length name) y
        0 (λ q. ground arith)
      ∙ strncpy-Outside name (od_name (entry e dir i)) e n y (ground arith)

  entry_rest : Outside (entry e dir i) 128 e (numbered (entry e dir i) ino name e)
  entry_rest y o =
      store32-Outside (entry e dir i) ino (named (entry e dir i) name e) y (ground arith)
      ∙ name_rest y (ground arith)

  nlink_rest :
      Outside
        (oi_nlink (inode_at d ino))
        4
        (numbered (entry e dir i) ino name e)
        (counted (inode_at d ino) (entry e dir i) ino name e)
  nlink_rest = store32-Outside (oi_nlink (inode_at d ino)) _ (numbered (entry e dir i) ino name e)

  rest :
      (y : ℕ)
      → (y < inode_at d ino) ⊎ (inode_at d ino + 64 ≤ y)
      → (y < entry e dir i) ⊎ (entry e dir i + 128 ≤ y)
      → counted (inode_at d ino) (entry e dir i) ino name e y ≡ e y
  rest y o o' = nlink_rest y (ground arith) ∙ entry_rest y o'

  number : load32 (counted (inode_at d ino) (entry e dir i) ino name e) (entry e dir i) ≡ ino
  number =
      load32-Outside (oi_nlink (inode_at d ino)) 4 (entry e dir i) _ _ nlink_rest
        (inr (omega (arith, behind)))
      ∙ load32-store32 (entry e dir i) ino _
      ∙ omega (arith, f.in_range, g.regular.file.at.layout)

  holds : Holds name (od_name (entry e dir i)) (counted (inode_at d ino) (entry e dir i) ino name e)
  holds =
      Holds-same name (od_name (entry e dir i)) (named (entry e dir i) name e) _
        (λ x l.
          nlink_rest (od_name (entry e dir i) + x) (inr (omega (arith, behind)))
          ∙ store32-Outside (entry e dir i) ino _ (od_name (entry e dir i) + x) (inr (omega arith)))
        (strncpy-Holds name (od_name (entry e dir i)) e n)

  nlink_before :
      load32 (numbered (entry e dir i) ino name e) (oi_nlink (inode_at d ino))
      ≡ load32 d (oi_nlink (inode_at d ino))
  nlink_before =
      load32-Outside (entry e dir i) 128 (oi_nlink (inode_at d ino)) _ _ entry_rest
        (inl (omega (arith, behind)))
      ∙ load32-bytes (oi_nlink (inode_at d ino)) d e (λ y lo hi.
        s.grown.inodes y (omega arith) (omega (arith, f.in_range)) (ground (arith, f.apart)))

module _ {d : Disk} {dir ino : ℕ} (name : Name) (g : IsDirectory d dir) (f : IsOther d dir ino)
    (room : file_size d dir + 128 ≤ 10 * blksize) (n : NoNull name) where
  by_blank :
      {b : Result ℕ × Disk}
      → length name ≤ maxnamelen
      → find_direntry dir name d ≡ none
      → Blanked d dir b
      → create_blank_direntry dir d ≡ b
      → Links d dir ino name (ospfs_link ino (inode_at d ino) dir name d)
  unfolding ospfs_link
  by_blank short absent (full e like) s =
      rw (check_name-passes d dir name short absent, s) (no_space e like)
  by_blank short absent (slot e i w) s =
      let r = rest name w g f n short in
      let hole = at name w g f n short in
      let stored = holds name w g f n short in
      let its_number = number name w g f n short in
      rw (check_name-passes d dir name short absent, s)
        (linked (counted (inode_at d ino) (entry e dir i) ino name e)
          (filled-IsDirectory w g hole f.apart r)
          (filled-new w g hole f.apart r name short stored its_number f.not_zero
            (dir_ino-absent d dir name absent))
          (filled-others w g hole f.apart r name short stored its_number f.not_zero)
          (load32-store32 (oi_nlink (inode_at d ino)) _ _
            ∙ ap (λ l. add32 l 1 % u32_mod) (nlink_before name w g f n short)
            ∙ omega arith))

  -- In a directory of at most ten blocks that an entry more fits in, for another inode than the directory's and a name
  -- without null characters: ospfs_link answers that the name is too long or that the directory has it, with
  -- the disk unchanged; or that the disk is full, with all that is in use as before; or the directory has the name for
  -- the inode, every other name as before, and the inode has one link more.
  pub ospfs_link-Links : Links d dir ino name (ospfs_link ino (inode_at d ino) dir name d)
  unfolding ospfs_link check_name
  ospfs_link-Links = elim (Bool-cases (ltb maxnamelen (length name))) [
    | inl long ↦ rw long (too_long (ground arith))
    | inr short ↦ by_found (ground arith) (find_direntry dir name d) refl
  ]
    where
      by_found :
          length name ≤ maxnamelen
          → (o : Option ℕ) → find_direntry dir name d ≡ o
          → Links d dir ino name (ospfs_link ino (inode_at d ino) dir name d)
      by_found short none s = by_blank short s (create_blank_direntry-Blanked g room) refl
      by_found short (some od) s =
          let test : ltb maxnamelen (length name) ≡ false = ground arith in
          rw (test, s) (exists (load32 d od) (dir_ino-found d dir od name s))
