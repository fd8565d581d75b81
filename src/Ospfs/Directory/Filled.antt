-- ===== src/Ospfs/Directory/Filled.antt =====
-- A directory of Lab3/ospfsmod.c after one of its entries was filled, as a map from names to inode
-- numbers.
use cs111_ucla.Prelude.{
  ℕ, ◌+◌, ◌*◌, ◌≤◌, ◌<◌, ◌≡◌, ◌≢◌, ◌∙◌, ap, ◌⊎◌, inl, inr, arith, true, false, Bool-cases, ◌&&◌,
  some, none,
}
use cs111_ucla.Ospfs.Disk.{Disk, load32}
use cs111_ucla.Ospfs.Grow.Frame.{InodeAt}
use cs111_ucla.Ospfs.Files.Write.Resized.{Extends-data}
use cs111_ucla.Ospfs.Names.{Name, length, is_named, strlen_is, memcmp_is, od_name, maxnamelen}
use cs111_ucla.Ospfs.Names.Strings.{Holds, Holds-found, Holds-unique}
use cs111_ucla.Ospfs.Directory.Entries.{
  num_entries, entry, dir_ino, unnamed-all, Changed, dir_ino-other, dir_ino-new,
}
use cs111_ucla.Ospfs.Directory.Slot.{
  IsDirectory, entry-inside, entry-byte, slot-IsDirectory, slot-count, slot-entry, slot-others,
}
use cs111_ucla.Ospfs.Directory.Blank.{NewSlot}

-- The disk `t` is `e` but for entry `i`, that may be filled, and the inode at `hole`.
module _ {d e t : Disk} {dir i : ℕ} (s : NewSlot d e dir i) (g : IsDirectory d dir) {hole : ℕ}
    (at : InodeAt e hole) (apart : (dir + 64 ≤ hole) ⊎ (hole + 64 ≤ dir))
    (rest : (y : ℕ)
      → (y < hole) ⊎ (hole + 64 ≤ y)
      → (y < entry e dir i) ⊎ (entry e dir i + 128 ≤ y)
      → t y ≡ e y) where
  old_entry :
      (j y : ℕ) → j < num_entries d dir → y < 128 → e (entry e dir j + y) ≡ d (entry d dir j + y)
  old_entry j y l ly =
      let l' : j < num_entries e dir = omega (arith, s.longer) in
      rw (entry-byte g j l y ly, entry-byte s.directory j l' y ly)
        (Extends-data g.regular s.grown (128 * j + y) (omega (arith, entry-inside g j l)))

  pub filled-IsDirectory : IsDirectory t dir
  filled-IsDirectory = slot-IsDirectory s.directory at apart i s.within rest

  pub filled-entry : entry t dir i ≡ entry e dir i
  filled-entry = slot-entry s.directory at apart i s.within rest i s.within

  filled-Changed : Changed d t dir i
  filled-Changed =
      let count = slot-count s.directory at apart i s.within rest in
      record {
        within = omega (arith, count, s.within);
        old = λ j l ne. s.old j (omega (arith, count)) ne;
        longer = omega (arith, count, s.longer);
        same = λ j y l ne ly.
            let l' : j < num_entries e dir = omega (arith, count) in
            slot-others s.directory at apart i s.within rest j y l' ne ly
            ∙ old_entry j y (s.old j l' ne) ly;
      }

  module _ {ino : ℕ} (name : Name) (short : length name ≤ maxnamelen)
      (holds : Holds name (od_name (entry e dir i)) t) (number : load32 t (entry e dir i) ≡ ino)
      (not_zero : ino ≢ 0) where
    has_name : is_named (entry t dir i) name t ≡ true
    has_name = rw filled-entry (ground (arith, Holds-found name _ t holds))

    -- The name has the number that was stored.
    pub filled-new : dir_ino d dir name ≡ none → dir_ino t dir name ≡ some ino
    filled-new none_before =
        dir_ino-new filled-Changed name short (λ j h ne. unnamed-all d dir name none_before j h)
          has_name
        ∙ ap some (ap (load32 t) filled-entry ∙ number)

    -- Every other name has the number that it had.
    pub filled-others :
        (other : Name)
        → length other ≤ maxnamelen
        → other ≢ name
        → dir_ino t dir other ≡ dir_ino d dir other
    filled-others other l ne = dir_ino-other filled-Changed other l was_blank is_other
      where
        was_blank : i < num_entries d dir → is_named (entry d dir i) other d ≡ false
        was_blank h = ground (arith, s.blank h)

        is_other : is_named (entry t dir i) other t ≡ false
        is_other =
            rw filled-entry
              (elim (Bool-cases (
                strlen_is (length other) (entry e dir i + 4) t
                && memcmp_is other (entry e dir i + 4) t)) [
                  | inl same ↦ absurd (ne (Holds-unique name other _ t holds same))
                  | inr differs ↦ ground (arith, differs)
                ])
