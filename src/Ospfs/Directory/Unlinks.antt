-- ===== src/Ospfs/Directory/Unlinks.antt =====
-- ospfs_unlink of Lab3/ospfsmod.c, of a file of at most ten blocks that is not a symbolic link.
use cs111_ucla.Prelude.{
  ℕ, ◌+◌, ◌≤◌, ◌<◌, ◌≡◌, ◌≢◌, ◌∙◌, ◌⊎◌, inl, inr, arith, true, false, Bool-cases, none,
}
use cs111_ucla.Ospfs.Disk.{Disk, load32, store32, store32-Outside, load32-store32, load32-Outside}
use cs111_ucla.Ospfs.Index.{oi_nlink}
use cs111_ucla.Ospfs.Grow.Small.{blocks, ptr}
use cs111_ucla.Ospfs.Files.Bytes.{
  Regular, Keeps, low-Keeps, nlink-Keeps, Keeps-SmallFile, Keeps-trans,
}
use cs111_ucla.Ospfs.Names.{Name, length, maxnamelen, is_named}
use cs111_ucla.Ospfs.Names.Strings.{found-Holds, Holds-unique}
use cs111_ucla.Ospfs.Directory.Entries.{
  num_entries, entry, dir_ino, Changed, dir_ino-gone, dir_ino-other,
}
use cs111_ucla.Ospfs.Directory.Slot.{IsDirectory, entry-behind}

-- A directory and the file of one of its names: two inodes with different blocks, and names that are all
-- different.
pub record Unlinkable (d : Disk) (dir oi : ℕ) : Type 0 where
  pub directory : IsDirectory d dir
  pub file : Regular d oi
  pub apart : (dir + 64 ≤ oi) ⊎ (oi + 64 ≤ dir)
  pub foreign : (i j : ℕ) → i < blocks d oi → j < blocks d dir → ptr d oi i ≢ ptr d dir j
  pub unique :
      (name : Name) (i j : ℕ)
      → i < num_entries d dir
      → j < num_entries d dir
      → is_named (entry d dir i) name d ≡ true
      → is_named (entry d dir j) name d ≡ true
      → i ≡ j

-- The directory has lost the name, and every other name is as before.
pub record Unlinked (d e : Disk) (dir : ℕ) (name : Name) : Type 0 where
  pub directory : IsDirectory e dir
  pub gone : dir_ino e dir name ≡ none
  pub others :
      (other : Name)
      → length other ≤ maxnamelen
      → other ≢ name
      → dir_ino e dir other ≡ dir_ino d dir other

-- The disk with entry `i` blank and `left` links.
abbrev pub blanked : Disk → ℕ → ℕ → ℕ → ℕ → Disk
blanked d dir oi i left = store32 (oi_nlink oi) left (store32 (entry d dir i) 0 d)

module _ {d : Disk} {dir oi : ℕ} (u : Unlinkable d dir oi) (i : ℕ) (h : i < num_entries d dir)
    (left : ℕ) where
  behind : oi + 64 ≤ entry d dir i
  behind = omega (arith, u.file.file.at, entry-behind u.directory i h)

  pub rest :
      (y : ℕ)
      → (y < oi) ⊎ (oi + 64 ≤ y)
      → (y < entry d dir i) ⊎ (entry d dir i + 128 ≤ y)
      → blanked d dir oi i left y ≡ d y
  rest y o o' =
      store32-Outside (oi_nlink oi) left (store32 (entry d dir i) 0 d) y (ground arith)
      ∙ store32-Outside (entry d dir i) 0 d y (ground arith)

  -- The file.
  pub file_kept : Keeps d (blanked d dir oi i left) oi
  file_kept =
      Keeps-trans u.file.file entry_kept (
        nlink-Keeps (Keeps-SmallFile u.file.file entry_kept) (store32-Outside (oi_nlink oi) left _))
    where
      entry_kept : Keeps d (store32 (entry d dir i) 0 d) oi
      entry_kept = low-Keeps u.file.file λ y l.
          store32-Outside (entry d dir i) 0 d y (inl (omega (arith, entry-behind u.directory i h)))

  pub entry_blank : load32 (blanked d dir oi i left) (entry d dir i) ≡ 0
  entry_blank =
      load32-Outside (oi_nlink oi) 4 (entry d dir i) _ _ (store32-Outside (oi_nlink oi) left _)
        (inr (omega (arith, behind)))
      ∙ load32-store32 (entry d dir i) 0 d

-- A disk with the entries of `d`, but for entry `i`, that is blank.
module _ {d t : Disk} {dir oi : ℕ} (u : Unlinkable d dir oi) (name : Name)
    (short : length name ≤ maxnamelen) (i : ℕ) (h : i < num_entries d dir)
    (named : is_named (entry d dir i) name d ≡ true) (g : IsDirectory t dir)
    (count : num_entries t dir ≡ num_entries d dir)
    (bytes : (j x : ℕ)
      → j < num_entries d dir
      → j ≢ i
      → x < 128
      → t (entry t dir j + x) ≡ d (entry d dir j + x))
    (cleared : load32 t (entry t dir i) ≡ 0) where
  blank-Changed : Changed d t dir i
  blank-Changed = record {
    within = omega (arith, count);
    old = λ j l ne. omega (arith, count);
    longer = omega (arith, count);
    same = λ j x l ne lx. bytes j x (omega (arith, count)) ne lx;
  }

  no_name : (other : Name) → is_named (entry t dir i) other t ≡ false
  no_name other = ground (arith, cleared)

  -- Entry `i` had no other name.
  one_name : (other : Name) → other ≢ name → is_named (entry d dir i) other d ≡ false
  one_name other ne = elim (Bool-cases (is_named (entry d dir i) other d)) [
    | inl also ↦ absurd (
        ne (
          Holds-unique name other (entry d dir i + 4) d
            (found-Holds name (entry d dir i + 4) d (ground (arith, named)))
            (ground (arith, also))))
    | inr not_named ↦ not_named
  ]

  pub blank-Unlinked : Unlinked d t dir name
  blank-Unlinked = record {
    directory = g;
    gone =
        dir_ino-gone blank-Changed name short
          (λ j l ne. elim (Bool-cases (is_named (entry d dir j) name d)) [
            | inl also ↦ absurd (ne (u.unique name j i l h also named))
            | inr not_named ↦ not_named
          ])
          (no_name name);
    others =
        λ other l ne. dir_ino-other blank-Changed other l (λ q. one_name other ne) (no_name other);
  }
