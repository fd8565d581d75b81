-- ===== src/Ospfs/Directory/Unlink.antt =====
-- ospfs_unlink of Lab3/ospfsmod.c, and its search for the entry.
use cs111_ucla.Prelude.{
  ◌∙◌, ap, arith, ◌≡◌, ◌<◌, ℕ, zero, suc, ◌+◌, ◌*◌, true, false, ◌==◌, if◌then◌else◌, sub32, update,
}
use cs111_ucla.Ospfs.Disk.{Disk}
use cs111_ucla.Ospfs.Index.{oi_size, oi_ftype, oi_nlink, ospfs_inode_data, ftype_symlink}
use cs111_ucla.Ospfs.Monad.{◌>>=◌, ◌>>◌, enoent, M, pure, throw, get, modify, ignored, get32, put32}
use cs111_ucla.Ospfs.Grow.{change_size}
use cs111_ucla.Ospfs.Names.{Name, direntry_size, od_ino, rounds_of, is_named}
use cs111_ucla.Ospfs.Directory.Symlink.{oi_symlink}
use cs111_ucla.Ospfs.Names.Find.{entry_from, first_entry, next_entry}

-- The loop of ospfs_unlink: entry_off and od after it. The latter is the last entry that was looked at.
unfoldable pub unlink_from : ℕ → ℕ → ℕ → ℕ → Name → Disk → ℕ × ℕ
unlink_from zero off od dir_oi name d = (off, od)
unlink_from (suc rounds) off od dir_oi name d =
    let next = ospfs_inode_data dir_oi off d in
    let rest = unlink_from rounds (off + direntry_size) next dir_oi name d in
    if is_named next name d then (off, next) else rest

-- ospfs_unlink, once it has the entry: the entry is blank, and the file has one link less.
unfoldable pub drop_link : ℕ → ℕ → M (Unit {0})
drop_link od oi = do
  put32 (od_ino od) 0
  nlink ← get32 (oi_nlink oi)
  put32 (oi_nlink oi) (sub32 nlink 1)
  left ← get32 (oi_nlink oi)
  if left == 0 then (λ d. ignored (change_size oi 0 d)) else pure tt

-- ospfs_unlink of the name of the inode at `oi`.
unfoldable pub ospfs_unlink : ℕ → ℕ → Name → M (Unit {0})
unfolding unlink_from drop_link
ospfs_unlink oi dir_oi name = do
  size ← get32 (oi_size dir_oi)
  entry ← get (unlink_from (rounds_of size) 0 0 dir_oi name)
  ftype ← get32 (oi_ftype oi)
  if entry.0 == size then throw enoent else (do
    if ftype == ftype_symlink
        then (do put32 (oi_size oi) 0; modify (λ d. update d (oi_symlink oi) 0))
        else pure tt
    drop_link entry.1 oi)

-- The loop of ospfs_unlink stops at the entry that find_direntry finds.
pub unlink_from-found :
    (d : Disk) (dir : ℕ) (name : Name) (n off od i : ℕ)
    → i < n
    → is_named (entry_from d dir off i) name d ≡ true
    → ((j : ℕ) → j < i → is_named (entry_from d dir off j) name d ≡ false)
    → unlink_from n off od dir name d ≡ (off + 128 * i, entry_from d dir off i)
unfolding unlink_from
unlink_from-found d dir name zero off od i l h b = absurd (omega arith)
unlink_from-found d dir name (suc n) off od zero l h b =
    let named : is_named (ospfs_inode_data dir off d) name d ≡ true =
      rw (← first_entry d dir off) h in
    rw (named, first_entry d dir off) (ap (λ o. (o, ospfs_inode_data dir off d)) (omega arith))
unlink_from-found d dir name (suc n) off od (suc i) l h b =
    let other : is_named (ospfs_inode_data dir off d) name d ≡ false =
      rw (← first_entry d dir off) (b 0 (omega arith)) in
    rw (other, ← next_entry d dir off i)
      (unlink_from-found d dir name n (off + 128) (ospfs_inode_data dir off d) i (omega arith)
          (rw (next_entry d dir off i) h)
          (λ j k. rw (next_entry d dir off j) (b (suc j) (omega arith)))
        ∙ ap (λ o. (o, entry_from d dir (off + 128) i)) (omega arith))

pub unlink_from-absent :
    (d : Disk) (dir : ℕ) (name : Name) (n off od : ℕ)
    → ((j : ℕ) → j < n → is_named (entry_from d dir off j) name d ≡ false)
    → (unlink_from n off od dir name d).0 ≡ off + 128 * n
unfolding unlink_from
unlink_from-absent d dir name zero off od b = omega arith
unlink_from-absent d dir name (suc n) off od b =
    let other : is_named (ospfs_inode_data dir off d) name d ≡ false =
      rw (← first_entry d dir off) (b 0 (omega arith)) in
    rw other (
      unlink_from-absent d dir name n (off + 128) (ospfs_inode_data dir off d)
        (λ j k. rw (next_entry d dir off j) (b (suc j) (omega arith)))
      ∙ omega arith)
