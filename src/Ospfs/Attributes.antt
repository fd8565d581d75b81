-- ===== src/Ospfs/Attributes.antt =====
-- ospfs_notify_change and ospfs_follow_link of Lab3/ospfsmod.c.
pub mod Follow
mod Tests
use cs111_ucla.Prelude.{
  ℕ, zero, suc, ◌+◌, ◌%◌, Bool, ◌==◌, if◌then◌else◌, update, u32_mod, Option, none, some, [], ◌∷◌,
}
use cs111_ucla.Ospfs.Disk.{Disk}
use cs111_ucla.Ospfs.Index.{oi_ftype, oi_mode, ftype_dir}
use cs111_ucla.Ospfs.Monad.{◌>>=◌, ◌>>◌, eperm, Result, M, pure, throw, get32, put32}
use cs111_ucla.Ospfs.Grow.{change_size}
use cs111_ucla.Ospfs.Names.{Name, memcmp_is}
use cs111_ucla.Ospfs.Directory.Symlink.{oi_symlink}

-- The kernel's struct iattr; the two flags are ATTR_SIZE and ATTR_MODE of ia_valid.
pub record Iattr : Type 0 where
  pub attr_size : Bool
  pub attr_mode : Bool
  pub ia_size : ℕ
  pub ia_mode : ℕ

-- `change_ok` and `setattr` are the kernel's inode_change_ok and inode_setattr for the inode.
unfoldable pub ospfs_notify_change :
    (Iattr → Result (Unit {0})) → (Iattr → Result (Unit {0})) → ℕ → Iattr → M (Unit {0})
ospfs_notify_change change_ok setattr oi attr = do
  ftype ← get32 (oi_ftype oi)
  if attr.attr_size
      then (if ftype == ftype_dir then throw eperm else change_size oi (attr.ia_size % u32_mod))
      else pure tt
  if attr.attr_mode then put32 (oi_mode oi) attr.ia_mode else pure tt
  λ d. (change_ok attr, d)
  λ d. (setattr attr, d)

-- "root?"
abbrev pub root_prefix : Name
root_prefix = 114 ∷ 111 ∷ 111 ∷ 116 ∷ 63 ∷ []

abbrev pub colon : ℕ
colon = 58

-- strchr in the first `fuel` bytes from `a` on.
unfoldable pub strchr : ℕ → ℕ → ℕ → Disk → Option ℕ
strchr zero c a d = none
strchr (suc fuel) c a d =
    let rest = strchr fuel c (a + 1) d in
    if d a == c then some a else if d a == 0 then none else rest

-- What ospfs_follow_link does: nd_set_link with the string at an address, or a write to the null
-- pointer.
pub data Followed : Type 0 where
  set_link : ℕ → Followed
  null_write : Followed

abbrev pub follow_conditional : Bool → ℕ → Option ℕ → Disk → Followed × Disk
follow_conditional root oi none d = (null_write, d)
follow_conditional root oi (some pointer) d =
    let cut = update d pointer 0 in
    if root then (set_link (oi_symlink oi + 5), cut) else (set_link (pointer + 1), cut)

-- ospfs_follow_link; strncmp of five characters that are not null is memcmp. `root` is `current->uid == 0`. The text of a link has 52 bytes at most.
unfoldable pub ospfs_follow_link : Bool → ℕ → Disk → Followed × Disk
ospfs_follow_link root oi d =
    if memcmp_is root_prefix (oi_symlink oi) d
    then follow_conditional root oi (strchr 52 colon (oi_symlink oi) d) d
    else (set_link (oi_symlink oi), d)
