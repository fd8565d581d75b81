-- ===== src/Ospfs/Directory/Entries.antt =====
-- A directory of Lab3/ospfsmod.c as a map from names to inode numbers, and what a change of one entry
-- does to it.
use mathlib.Core.Bool.{false≢true}
use cs111_ucla.Prelude.{
  ℕ, ◌+◌, ◌≤◌, ◌<◌, ◌≡◌, ◌≢◌, refl, sym, ◌∙◌, ap, inl, inr, arith, true, false, Bool-cases, ◌==◌,
  ltb, Option, none, some,
}
use cs111_ucla.Ospfs.Disk.{Disk, load32}
use cs111_ucla.Ospfs.Index.{oi_size}
use cs111_ucla.Ospfs.Names.{Name, length, is_named, rounds_of, find_direntry, maxnamelen, od_ino}
use cs111_ucla.Ospfs.Monad.{ok}
use cs111_ucla.Ospfs.Directory.{check_name}
use cs111_ucla.Ospfs.Names.Strings.{is_named-same, load32-moved}
use cs111_ucla.Ospfs.Names.Find.{
  entry_from, Finds, found, absent, find_direntry-Finds, find_from-found, find_from-absent,
}

-- The number of a directory's entries, and the address of entry `i`.
abbrev pub num_entries : Disk → ℕ → ℕ
num_entries d dir = rounds_of (load32 d (oi_size dir))

abbrev pub entry : Disk → ℕ → ℕ → ℕ
entry d dir i = entry_from d dir 0 i

abbrev pub number_at : Disk → Option ℕ → Option ℕ
number_at d none = none
number_at d (some od) = some (load32 d (od_ino od))

-- The inode number that a directory gives to a name.
pub dir_ino : Disk → ℕ → Name → Option ℕ
dir_ino d dir name = number_at d (find_direntry dir name d)

pub dir_ino-found :
    (d : Disk) (dir od : ℕ) (name : Name)
    → find_direntry dir name d ≡ some od
    → dir_ino d dir name ≡ some (load32 d od)
unfolding dir_ino
dir_ino-found d dir od name e = ap (number_at d) e

pub dir_ino-absent :
    (d : Disk) (dir : ℕ) (name : Name) → find_direntry dir name d ≡ none → dir_ino d dir name ≡ none
unfolding dir_ino
dir_ino-absent d dir name e = ap (number_at d) e

-- The tests of ospfs_link and ospfs_create pass.
pub check_name-passes :
    (d : Disk) (dir : ℕ) (name : Name)
    → length name ≤ maxnamelen
    → find_direntry dir name d ≡ none
    → check_name dir name false d ≡ (ok tt, d)
unfolding check_name
check_name-passes d dir name short unused =
    let test : ltb maxnamelen (length name) ≡ false = ground arith in rw (test, unused) refl

-- If a directory gives a name no number, none of its entries has the name.
pub unnamed-all :
    (d : Disk) (dir : ℕ) (name : Name)
    → dir_ino d dir name ≡ none
    → (j : ℕ) → j < num_entries d dir
    → is_named (entry d dir j) name d ≡ false
unfolding dir_ino
unnamed-all d dir name h = by_search (find_direntry-Finds d dir name) h
  where
    by_search :
        {r : Option ℕ}
        → Finds d dir 0 (num_entries d dir) name r
        → number_at d r ≡ none
        → (j : ℕ) → j < num_entries d dir
        → is_named (entry d dir j) name d ≡ false
    by_search (found i l n b) e = absurd (ground arith)
    by_search (absent b) e = b

-- The directory has on the disk `e` the entries that it has on `d`, but for entry `i`.
pub record Changed (d e : Disk) (dir i : ℕ) : Type 0 where
  pub within : i < num_entries e dir
  pub old : (j : ℕ) → j < num_entries e dir → j ≢ i → j < num_entries d dir
  pub longer : num_entries d dir ≤ num_entries e dir
  pub same :
      (j x : ℕ)
      → j < num_entries e dir
      → j ≢ i
      → x < 128
      → e (entry e dir j + x) ≡ d (entry d dir j + x)

module _ {d e : Disk} {dir i : ℕ} (c : Changed d e dir i) (name : Name)
    (short : length name ≤ maxnamelen) where
  same_named :
      (j : ℕ)
      → j < num_entries e dir
      → j ≢ i
      → is_named (entry e dir j) name e ≡ is_named (entry d dir j) name d
  same_named j h ne =
      is_named-same name (entry d dir j) (entry e dir j) d e λ x l. c.same j x h ne (omega arith)

  same_number :
      (j : ℕ) → j < num_entries e dir → j ≢ i → load32 e (entry e dir j) ≡ load32 d (entry d dir j)
  same_number j h ne =
      load32-moved (entry d dir j) (entry e dir j) d e λ x l. c.same j x h ne (omega arith)

  -- An entry of `e` that has not the name, if the entry of `d` has it not, and if entry `i` has it not.
  unnamed :
      (j : ℕ)
      → j < num_entries e dir
      → is_named (entry e dir i) name e ≡ false
      → (j ≢ i → is_named (entry d dir j) name d ≡ false)
      → is_named (entry e dir j) name e ≡ false
  unnamed j h here there = elim (Bool-cases (j == i)) [
    | inl this ↦ let at : j ≡ i = ground arith in rw at here
    | inr other ↦ let ne : j ≢ i = ground arith in same_named j h ne ∙ there ne
  ]

  -- A name that entry `i` has on neither disk.
  pub dir_ino-other :
      (i < num_entries d dir → is_named (entry d dir i) name d ≡ false)
      → is_named (entry e dir i) name e ≡ false
      → dir_ino e dir name ≡ dir_ino d dir name
  unfolding dir_ino find_direntry
  dir_ino-other before after = from_old (find_direntry-Finds d dir name) refl
    where
      from_old :
          {r : Option ℕ}
          → Finds d dir 0 (num_entries d dir) name r
          → find_direntry dir name d ≡ r
          → number_at e (find_direntry dir name e) ≡ number_at d (find_direntry dir name d)
      from_old (found j l h b) s =
          let ne : j ≢ i = λ q. false≢true (sym (before (omega arith)) ∙ (rw (← q) h)) in
          let l' : j < num_entries e dir = omega (arith, c.longer) in
          let there =
            find_from-found e dir name (num_entries e dir) 0 j l' (same_named j l' ne ∙ h)
              λ k lt. unnamed k (omega arith) after (λ q. b k lt) in
          rw (there, s) (ap some (same_number j l' ne))
      from_old (absent b) s =
          let there =
            find_from-absent e dir name (num_entries e dir) 0
              λ k lt. unnamed k lt after (λ q. b k (c.old k lt q)) in
          rw (there, s) refl

  -- The name of entry `i`, if the directory had it not.
  pub dir_ino-new :
      ((j : ℕ) → j < num_entries d dir → j ≢ i → is_named (entry d dir j) name d ≡ false)
      → is_named (entry e dir i) name e ≡ true
      → dir_ino e dir name ≡ some (load32 e (entry e dir i))
  unfolding dir_ino find_direntry
  dir_ino-new before after =
      let there = find_from-found e dir name (num_entries e dir) 0 i c.within after λ k lt.
        let ne : k ≢ i = λ q. omega arith in
        let l : k < num_entries e dir = omega (arith, c.within) in
        same_named k l ne ∙ before k (c.old k l ne) ne in
      rw there refl

  -- A name that no other entry has, and entry `i` no more.
  pub dir_ino-gone :
      ((j : ℕ) → j < num_entries d dir → j ≢ i → is_named (entry d dir j) name d ≡ false)
      → is_named (entry e dir i) name e ≡ false
      → dir_ino e dir name ≡ none
  unfolding dir_ino find_direntry
  dir_ino-gone before after =
      let there =
        find_from-absent e dir name (num_entries e dir) 0
          λ k lt. unnamed k lt after (λ q. before k (c.old k lt q) q) in
      rw there refl
