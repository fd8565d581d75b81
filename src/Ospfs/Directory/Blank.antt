-- ===== src/Ospfs/Directory/Blank.antt =====
-- create_blank_direntry of Lab3/ospfsmod.c.
use cs111_ucla.Prelude.{
  ℕ, zero, suc, ◌+◌, ◌*◌, ◌≤◌, ◌<◌, ◌≡◌, ◌≢◌, refl, inl, inr, arith, Bool-cases, ◌==◌, add32,
  Option, none, some,
}
use cs111_ucla.Ospfs.Disk.{Disk, load32}
use cs111_ucla.Ospfs.Bitmap.{blksize}
use cs111_ucla.Ospfs.Index.{ospfs_inode_data}
use cs111_ucla.Ospfs.Monad.{Result, ok, err, enospc}
use cs111_ucla.Ospfs.Grow.{change_size}
use cs111_ucla.Ospfs.Grow.Undo.{Like}
use cs111_ucla.Ospfs.Grow.Extends.{Extends, Extends-refl}
use cs111_ucla.Ospfs.Grow.Resize.{Resized, resized, no_room, change_size-Resized}
use cs111_ucla.Ospfs.Files.Bytes.{file_size}
use cs111_ucla.Ospfs.Files.Write.Resized.{Extends-Regular}
use cs111_ucla.Ospfs.Names.Find.{entry_from, first_entry, next_entry}
use cs111_ucla.Ospfs.Directory.{blank_from, blank_or_grow, create_blank_direntry}
use cs111_ucla.Ospfs.Directory.Entries.{num_entries, entry}
use cs111_ucla.Ospfs.Directory.Slot.{IsDirectory}

-- Entry `i` of the directory on the disk `e` may be filled: it was blank on the disk `d`, or it is a
-- new one behind the entries. The other entries are those of `d`.
pub record NewSlot (d e : Disk) (dir i : ℕ) : Type 0 where
  pub grown : Extends dir d e
  pub directory : IsDirectory e dir
  pub within : i < num_entries e dir
  pub longer : num_entries d dir ≤ num_entries e dir
  pub old : (j : ℕ) → j < num_entries e dir → j ≢ i → j < num_entries d dir
  pub blank : i < num_entries d dir → load32 d (entry d dir i) ≡ 0

-- How create_blank_direntry ends: with an entry that may be filled, or the disk was full and is as
-- before.
pub data Blanked (d : Disk) (dir : ℕ) : Result ℕ × Disk → Type 0 where
  slot : (e : Disk) (i : ℕ) → NewSlot d e dir i → Blanked d dir (ok (entry e dir i), e)
  full : (e : Disk) → Like dir d e → Blanked d dir (err enospc, e)

-- What the search for a blank entry returns.
data Search (d : Disk) (dir off n : ℕ) : Option ℕ → Type 0 where
  blank_at :
      (i : ℕ)
      → i < n
      → load32 d (entry_from d dir off i) ≡ 0
      → Search d dir off n (some (entry_from d dir off i))
  no_blank : Search d dir off n none

blank_from-Search : (d : Disk) (dir n off : ℕ) → Search d dir off n (blank_from n off dir d)
unfolding blank_from
blank_from-Search d dir zero off = no_blank
blank_from-Search d dir (suc n) off =
    elim (Bool-cases (load32 d (ospfs_inode_data dir off d) == 0)) [
      | inl blank ↦
          rw (blank_from, blank, ← first_entry d dir off)
            (blank_at 0 (omega arith) (rw (first_entry d dir off) (ground arith)))
      | inr used ↦ rw (blank_from, used) (later (blank_from-Search d dir n (off + 128)))
    ]
  where
    later : {r : Option ℕ} → Search d dir (off + 128) n r → Search d dir off (suc n) r
    later (blank_at i l z) =
        rw (next_entry d dir off i)
          (blank_at (suc i) (omega arith) (rw (← next_entry d dir off i) z))
    later no_blank = no_blank

module _ {d : Disk} {dir : ℕ} (g : IsDirectory d dir)
    (room : file_size d dir + 128 ≤ 10 * blksize) where
  here :
      (i : ℕ)
      → i < num_entries d dir
      → load32 d (entry d dir i) ≡ 0
      → Blanked d dir (ok (entry d dir i), d)
  here i l z = slot d i (record {
    grown = Extends-refl g.regular.file;
    directory = g;
    within = l;
    longer = omega arith;
    old = λ j h ne. h;
    blank = λ h. z;
  })

  behind :
      {a : Result (Unit {0}) × Disk}
      → Resized dir d (file_size d dir + 128) a
      → change_size dir (file_size d dir + 128) d ≡ a
      → Blanked d dir (blank_or_grow dir (file_size d dir) (128 * num_entries d dir) none d)
  behind (resized e x size) s =
      let cut : add32 (file_size d dir) 128 ≡ file_size d dir + 128 = omega (arith, room) in
      let at : 128 * num_entries d dir ≡ 0 + 128 * num_entries d dir = omega arith in
      let more : num_entries e dir ≡ num_entries d dir + 1 = omega (arith, size, g.whole, room) in
      let g' : IsDirectory e dir = record {
        regular = Extends-Regular g.regular x;
        whole = omega (arith, size, g.whole);
      } in
      rw (cut, s, at)
        (slot e (num_entries d dir) (record {
          grown = x;
          directory = g';
          within = omega arith;
          longer = omega arith;
          old = λ j h ne. omega arith;
          blank = λ h. absurd (omega arith);
        }))
  behind (no_room e u like) s =
      let cut : add32 (file_size d dir) 128 ≡ file_size d dir + 128 = omega (arith, room) in
      rw (cut, s) (full e like)

  chosen :
      {r : Option ℕ}
      → Search d dir 0 (num_entries d dir) r
      → Blanked d dir (blank_or_grow dir (file_size d dir) (128 * num_entries d dir) r d)
  chosen (blank_at i l z) = here i l z
  chosen no_blank =
      behind (change_size-Resized (file_size d dir + 128) g.regular.file (omega (arith, room)) room)
        refl

  pub create_blank_direntry-Blanked : Blanked d dir (create_blank_direntry dir d)
  unfolding create_blank_direntry
  create_blank_direntry-Blanked = chosen (blank_from-Search d dir (num_entries d dir) 0)
