-- ===== src/Ospfs/Readdir/Resume.antt =====
-- Reading a directory in parts, with ospfs_dir_readdir of Lab3/ospfsmod.c.
use mathlib.Core.List.{append-nil}
use cs111_ucla.Prelude.{
  ℕ, zero, suc, ◌+◌, ◌^◌, ◌≤◌, ◌≡◌, refl, sym, ◌∙◌, ap, inl, inr, arith, false, Bool-cases, ◌==◌,
  List, [], ◌∷◌, ◌++◌,
}
use cs111_ucla.Ospfs.Disk.{Disk, load32}
use cs111_ucla.Ospfs.Index.{oi_size}
use cs111_ucla.Ospfs.Readdir.{
  Filldir, Filled, Stop, at_end, refused, bad_type, null_inode, no_fuel, read_entries, read_rest,
  dot_entry, dot_dot_entry, saved, readdir, ospfs_dir_readdir,
}
use cs111_ucla.Ospfs.Readdir.Entries.{take_all, fuel_of, fuel_of-Enough, resumes, prefixed}

-- Saving the position changes it only after an unknown type.
saved-refused :
    (p f : ℕ) (t : List Filled) (s : Stop)
    → (saved p (record { f_pos = f; taken = t; stop = s })).stop ≡ refused
    → (s ≡ refused)
      × (saved p (record { f_pos = f; taken = t; stop = s })
          ≡ record { f_pos = f; taken = t; stop = s })
saved-refused p f t at_end e = absurd (ground (arith, e))
saved-refused p f t refused e = (refl, refl)
saved-refused p f t bad_type e = absurd (ground (arith, e))
saved-refused p f t null_inode e = absurd (ground (arith, e))
saved-refused p f t no_fuel e = absurd (ground (arith, e))

saved-taken :
    (p f : ℕ) (t : List Filled) (s : Stop)
    → (saved p (record { f_pos = f; taken = t; stop = s })).taken ≡ t
saved-taken p f t at_end = refl
saved-taken p f t refused = refl
saved-taken p f t bad_type = refl
saved-taken p f t null_inode = refl
saved-taken p f t no_fuel = refl

module _ (fill : Filldir) (ino parent dir : ℕ) (d : Disk)
    (small : load32 d (oi_size dir) ≤ 2 ^ 31) where
  all_from : ℕ → List Filled
  all_from p = (readdir take_all ino parent dir d p).taken

  all_from-entries :
      (p : ℕ) → 2 ≤ p → all_from p ≡ (read_entries take_all (fuel_of d dir) dir d p []).taken
  unfolding all_from readdir
  all_from-entries p lo =
      let not_first : (p == 0) ≡ false = ground arith in
      let not_second : (p == 1) ≡ false = ground arith in
      rw (all_from, readdir, not_first, read_rest, not_second) refl

  -- From position 2 on, with what was taken at 0 and 1.
  entries_resume :
      (p : ℕ) (taken : List Filled)
      → 2 ≤ p
      → p ≤ 2 ^ 24 + 3
      → (read_entries fill (fuel_of d dir) dir d p taken).stop ≡ refused
      → (read_entries fill (fuel_of d dir) dir d p taken).taken
          ++ all_from (read_entries fill (fuel_of d dir) dir d p taken).f_pos
        ≡ (read_entries take_all (fuel_of d dir) dir d p taken).taken
  entries_resume p taken lo hi stopped =
      let r = read_entries fill (fuel_of d dir) dir d p taken in
      let ((lo', hi'), same) =
        resumes d dir small fill (fuel_of d dir) p taken (fuel_of-Enough d dir p lo hi) stopped in
      ap (λ x. r.taken ++ x) (all_from-entries r.f_pos lo')
      ∙ ap (λ x. x.taken) (sym (prefixed d dir (fuel_of d dir) r.f_pos r.taken []))
      ∙ ap (λ t. (read_entries take_all (fuel_of d dir) dir d r.f_pos t).taken) (append-nil r.taken)
      ∙ ap (λ x. x.taken) same

  -- From position 1 on.
  rest_resumes :
      (p : ℕ) (taken : List Filled)
      → 1 ≤ p
      → p ≤ 2 ^ 24 + 3
      → (read_rest fill (fuel_of d dir) dir d parent p taken).stop ≡ refused
      → (read_rest fill (fuel_of d dir) dir d parent p taken).taken
          ++ all_from (read_rest fill (fuel_of d dir) dir d parent p taken).f_pos
        ≡ (read_rest take_all (fuel_of d dir) dir d parent p taken).taken
  unfolding all_from readdir
  rest_resumes p taken lo hi = elim (Bool-cases (p == 1)) [
    | inl second ↦ elim (Bool-cases (fill taken (dot_dot_entry parent))) [
      | inl fine ↦
          rw (read_rest, second, fine)
            (entries_resume 2 (taken ++ (dot_dot_entry parent ∷ [])) (omega arith) (omega arith))
      | inr full ↦
          rw (read_rest, second, full)
            λ q.
              ap (λ x. x.taken)
                (sym (prefixed d dir (fuel_of d dir) 2 taken (dot_dot_entry parent ∷ [])))
    ]
    | inr later ↦ rw (read_rest, later) (entries_resume p taken (ground arith) hi)
  ]

  start_late :
      (f : Filldir) (p : ℕ)
      → readdir f ino parent dir d (suc p) ≡ read_rest f (fuel_of d dir) dir d parent (suc p) []
  unfolding readdir
  start_late f p = let later : (suc p == 0) ≡ false = ground arith in rw (readdir, later) refl

  readdir_resumes :
      (p : ℕ)
      → p ≤ 2 ^ 24 + 3
      → (readdir fill ino parent dir d p).stop ≡ refused
      → (readdir fill ino parent dir d p).taken ++ all_from (readdir fill ino parent dir d p).f_pos
        ≡ all_from p
  unfolding all_from readdir
  readdir_resumes zero hi = elim (Bool-cases (fill [] (dot_entry ino))) [
    | inl fine ↦ rw fine (rest_resumes 1 (dot_entry ino ∷ []) (omega arith) (omega arith))
    | inr full ↦ rw full λ q. refl
  ]
  readdir_resumes (suc p) hi = rw (start_late fill p) λ q.
      rest_resumes (suc p) [] (omega arith) hi q ∙ sym (ap (λ x. x.taken) (start_late take_all p))

  -- If filldir refuses an entry, then what it has taken, and what a further call from the saved position
  -- passes to a filldir that takes everything, are together what one call passes to the
  -- latter, in the same order. The directory has at most 2 ^ 31 bytes, and the position is at most 2 ^ 24 + 3.
  pub ospfs_dir_readdir-resumes :
      (p : ℕ)
      → p ≤ 2 ^ 24 + 3
      → (ospfs_dir_readdir fill ino parent dir d p).stop ≡ refused
      → (ospfs_dir_readdir fill ino parent dir d p).taken
          ++ (ospfs_dir_readdir take_all ino parent dir d
              (ospfs_dir_readdir fill ino parent dir d p).f_pos).taken
        ≡ (ospfs_dir_readdir take_all ino parent dir d p).taken
  unfolding ospfs_dir_readdir all_from
  ospfs_dir_readdir-resumes p hi stopped =
      let r = readdir fill ino parent dir d p in
      let (now, same) = saved-refused p r.f_pos r.taken r.stop stopped in
      let whole = readdir take_all ino parent dir d p in
      let later = readdir take_all ino parent dir d r.f_pos in
      rw same (
        ap (λ x. r.taken ++ x) (saved-taken r.f_pos later.f_pos later.taken later.stop)
        ∙ readdir_resumes p hi now
        ∙ sym (saved-taken p whole.f_pos whole.taken whole.stop))
