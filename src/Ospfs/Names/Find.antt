-- ===== src/Ospfs/Names/Find.antt =====
-- find_direntry of Lab3/ospfsmod.c: which entry it finds.
use cs111_ucla.Prelude.{
  ℕ, zero, suc, ◌+◌, ◌*◌, ◌<◌, ◌≡◌, refl, ap, inl, inr, arith, true, false, Bool-cases, Option,
  none, some,
}
use cs111_ucla.Ospfs.Disk.{Disk, load32}
use cs111_ucla.Ospfs.Index.{oi_size, ospfs_inode_data}
use cs111_ucla.Ospfs.Names.{Name, is_named, rounds_of, find_from, find_direntry}

-- Entry `i` of the entries of a directory from offset `off` on.
abbrev pub entry_from : Disk → ℕ → ℕ → ℕ → ℕ
entry_from d dir off i = ospfs_inode_data dir (off + 128 * i) d

-- What a search among `n` entries returns: the first that has the name, or the null pointer if none has.
pub data Finds (d : Disk) (dir off n : ℕ) (name : Name) : Option ℕ → Type 0 where
  found :
      (i : ℕ)
      → i < n
      → is_named (entry_from d dir off i) name d ≡ true
      → ((j : ℕ) → j < i → is_named (entry_from d dir off j) name d ≡ false)
      → Finds d dir off n name (some (entry_from d dir off i))
  absent :
      ((j : ℕ) → j < n → is_named (entry_from d dir off j) name d ≡ false)
      → Finds d dir off n name none

pub first_entry : (d : Disk) (dir off : ℕ) → entry_from d dir off 0 ≡ ospfs_inode_data dir off d
first_entry d dir off = ap (λ o. ospfs_inode_data dir o d) (omega arith)

pub next_entry :
    (d : Disk) (dir off i : ℕ) → entry_from d dir (off + 128) i ≡ entry_from d dir off (suc i)
next_entry d dir off i = ap (λ o. ospfs_inode_data dir o d) (omega arith)

-- A statement about the numbers below `suc n`.
pub below_suc :
    (P : ℕ → Type 0) (n : ℕ) → P 0 → ((j : ℕ) → j < n → P (suc j)) → (j : ℕ) → j < suc n → P j
below_suc P n p q zero h = p
below_suc P n p q (suc j) h = q j (omega arith)

module _ (d : Disk) (dir : ℕ) (name : Name) where
  none_later :
      (off n : ℕ)
      → is_named (entry_from d dir off 0) name d ≡ false
      → ((j : ℕ) → j < n → is_named (entry_from d dir (off + 128) j) name d ≡ false)
      → (j : ℕ) → j < suc n
      → is_named (entry_from d dir off j) name d ≡ false
  none_later off n first b =
      below_suc (λ j. is_named (entry_from d dir off j) name d ≡ false) n first
        λ j h. rw (← next_entry d dir off j) (b j h)

  -- One more entry at the front.
  later :
      (off n : ℕ) {r : Option ℕ}
      → is_named (entry_from d dir off 0) name d ≡ false
      → Finds d dir (off + 128) n name r
      → Finds d dir off (suc n) name r
  later off n first (found i l h b) =
      rw (next_entry d dir off i)
        (found (suc i) (omega arith) (rw (← next_entry d dir off i) h) (none_later off i first b))
  later off n first (absent b) = absent (none_later off n first b)

  pub find_from-Finds : (n off : ℕ) → Finds d dir off n name (find_from n off dir name d)
  unfolding find_from
  find_from-Finds zero off = absent (λ j h. absurd (omega arith))
  find_from-Finds (suc n) off = elim (Bool-cases (is_named (ospfs_inode_data dir off d) name d)) [
    | inl named ↦
        rw (find_from, named, ← first_entry d dir off)
          (found 0 (omega arith) (rw (first_entry d dir off) named) (λ j h. absurd (omega arith)))
    | inr other ↦
        rw (find_from, other)
          (later off n (rw (first_entry d dir off) other) (find_from-Finds n (off + 128)))
  ]

  -- The search is determined.
  pub find_from-found :
      (n off i : ℕ)
      → i < n
      → is_named (entry_from d dir off i) name d ≡ true
      → ((j : ℕ) → j < i → is_named (entry_from d dir off j) name d ≡ false)
      → find_from n off dir name d ≡ some (entry_from d dir off i)
  unfolding find_from
  find_from-found zero off i l h b = absurd (omega arith)
  find_from-found (suc n) off zero l h b =
      let named : is_named (ospfs_inode_data dir off d) name d ≡ true =
        rw (← first_entry d dir off) h in
      rw (named, first_entry d dir off) refl
  find_from-found (suc n) off (suc i) l h b =
      let other : is_named (ospfs_inode_data dir off d) name d ≡ false =
        rw (← first_entry d dir off) (b 0 (omega arith)) in
      rw (other, ← next_entry d dir off i)
        (find_from-found n (off + 128) i (omega arith) (rw (next_entry d dir off i) h)
          λ j k. rw (next_entry d dir off j) (b (suc j) (omega arith)))

  pub find_from-absent :
      (n off : ℕ)
      → ((j : ℕ) → j < n → is_named (entry_from d dir off j) name d ≡ false)
      → find_from n off dir name d ≡ none
  unfolding find_from
  find_from-absent zero off b = refl
  find_from-absent (suc n) off b =
      let other : is_named (ospfs_inode_data dir off d) name d ≡ false =
        rw (← first_entry d dir off) (b 0 (omega arith)) in
      rw other (
        find_from-absent n (off + 128) λ j k. rw (next_entry d dir off j) (b (suc j) (omega arith)))

  -- find_direntry returns the first entry in use that has the name, or the null pointer if the directory
  -- has none.
  pub find_direntry-Finds :
      Finds d dir 0 (rounds_of (load32 d (oi_size dir))) name (find_direntry dir name d)
  unfolding find_direntry
  find_direntry-Finds = find_from-Finds (rounds_of (load32 d (oi_size dir))) 0
