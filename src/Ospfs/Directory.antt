-- ===== src/Ospfs/Directory.antt =====
-- Making and removing directory entries: create_blank_direntry, ospfs_link, ospfs_create,
-- ospfs_symlink and ospfs_unlink of Lab3/ospfsmod.c.
pub mod Symlink
pub mod Entries
pub mod Slot
pub mod Blank
pub mod Filled
pub mod Init
pub mod Create
pub mod Creates
pub mod Link
pub mod Unlink
pub mod Unlinks
pub mod Removes
pub mod Tests
use cs111_ucla.Prelude.{
  ℕ, zero, suc, ◌+◌, ◌*◌, Bool, true, false, ltb, ◌==◌, if◌then◌else◌, ◌||◌, add32, update, Option,
  none, some,
}
use cs111_ucla.Ospfs.Disk.{Disk, load32, store32}
use cs111_ucla.Ospfs.Bitmap.{os_ninodes}
use cs111_ucla.Ospfs.Index.{
  ndirect, oi_size, oi_ftype, oi_nlink, oi_mode, oi_direct, oi_indirect, oi_indirect2, ospfs_inode,
  ospfs_inode_data, ftype_reg,
}
use cs111_ucla.Ospfs.Monad.{
  ◌>>=◌, ◌>>◌, enospc, eexist, enametoolong, enomem, hang, M, pure, throw, get, modify, get32,
  put32,
}
use cs111_ucla.Ospfs.Grow.{change_size}
use cs111_ucla.Ospfs.Names.{
  Name, length, direntry_size, maxnamelen, od_ino, od_name, rounds_of, find_direntry, strncpy, Made,
  null, panicked, made, ospfs_mk_linux_inode,
}

-- The loop of create_blank_direntry: the first entry with inode number 0.
unfoldable pub blank_from : ℕ → ℕ → ℕ → Disk → Option ℕ
blank_from zero off dir_oi d = none
blank_from (suc rounds) off dir_oi d =
    let od = ospfs_inode_data dir_oi off d in
    let rest = blank_from rounds (off + direntry_size) dir_oi d in
    if load32 d (od_ino od) == 0 then some od else rest

-- Without such an entry the directory grows by one; `off` is where the loop has ended.
abbrev pub blank_or_grow : ℕ → ℕ → ℕ → Option ℕ → M ℕ
blank_or_grow dir_oi size off (some od) = pure od
blank_or_grow dir_oi size off none = do
  change_size dir_oi (add32 size direntry_size)
  get (ospfs_inode_data dir_oi off)

unfoldable pub create_blank_direntry : ℕ → M ℕ
unfolding blank_from
create_blank_direntry dir_oi = do
  size ← get32 (oi_size dir_oi)
  blank ← get (blank_from (rounds_of size) 0 dir_oi)
  blank_or_grow dir_oi size (direntry_size * rounds_of size) blank

-- `strncpy(od->od_name, name, len); od->od_name[len] = 0;`
abbrev pub put_name : ℕ → Name → M (Unit {0})
put_name od name = do
  modify (strncpy name (od_name od))
  modify (λ d. update d (od_name od + length name) 0)

abbrev pub is_some : Option ℕ → Bool
is_some none = false
is_some (some _) = true

-- The tests that ospfs_link, ospfs_create and ospfs_symlink begin with.
unfoldable pub check_name : ℕ → Name → Bool → M (Unit {0})
check_name dir_oi name too_long = do
  found ← get (find_direntry dir_oi name)
  if ltb maxnamelen (length name) || too_long
      then throw enametoolong
      else (if is_some found then throw eexist else pure tt)

-- ospfs_link of the inode at `oi_node`, whose number is `ino`.
unfoldable pub ospfs_link : ℕ → ℕ → ℕ → Name → M (Unit {0})
unfolding check_name
ospfs_link ino oi_node dir_oi name = do
  check_name dir_oi name false
  od ← create_blank_direntry dir_oi
  put_name od name
  put32 (od_ino od) ino
  nlink ← get32 (oi_nlink oi_node)
  put32 (oi_nlink oi_node) (add32 nlink 1)

-- The inode of a number that is smaller than os_ninodes.
abbrev pub inode_or : Option ℕ → ℕ
inode_or none = 0
inode_or (some oi) = oi

-- The loop that looks for a free inode: its number, os_ninodes if there is none.
unfoldable pub free_inode_from : ℕ → ℕ → Disk → ℕ
free_inode_from zero entry_ino d = entry_ino
free_inode_from (suc rounds) entry_ino d =
    let rest = free_inode_from rounds (entry_ino + 1) d in
    if load32 d (oi_nlink (inode_or (ospfs_inode entry_ino d))) == 0 then entry_ino else rest

abbrev pub instantiate : Made → M (Unit {0})
instantiate null = throw enomem
instantiate panicked = λ d. (hang, d)
instantiate (made _) = pure tt

-- `for (i = 0; i < OSPFS_NDIRECT; i++) oi_direct[i] = 0;`, with `rounds` left.
unfoldable pub clear_direct : ℕ → ℕ → ℕ → Disk → Disk
clear_direct zero i oi d = d
clear_direct (suc rounds) i oi d = clear_direct rounds (i + 1) oi (store32 (oi_direct oi i) 0 d)

-- The inode of a new file.
unfoldable pub init_file : ℕ → ℕ → M (Unit {0})
unfolding clear_direct
init_file oi mode = do
  put32 (oi_size oi) 0
  put32 (oi_ftype oi) ftype_reg
  put32 (oi_mode oi) mode
  put32 (oi_nlink oi) 1
  put32 (oi_indirect oi) 0
  put32 (oi_indirect2 oi) 0
  modify (clear_direct ndirect 0 oi)

-- ospfs_create, once it has an entry and an inode.
unfoldable pub create_at : Bool → ℕ → ℕ → Name → ℕ → M (Unit {0})
unfolding init_file
create_at room od entry_ino name mode = do
  rf_node ← get (λ d. inode_or (ospfs_inode entry_ino d))
  init_file rf_node mode
  put32 (od_ino od) entry_ino
  put_name od name
  inode ← get (ospfs_mk_linux_inode room entry_ino)
  instantiate inode

-- ospfs_create; `room` is whether the kernel's new_inode returns an inode.
unfoldable pub ospfs_create : Bool → ℕ → Name → ℕ → M (Unit {0})
unfolding check_name free_inode_from create_at
ospfs_create room dir_oi name mode = do
  check_name dir_oi name false
  entry_ino ← get (λ d. free_inode_from (os_ninodes d) 0 d)
  ninodes ← get os_ninodes
  if entry_ino == ninodes
      then throw enospc
      else (do od ← create_blank_direntry dir_oi; create_at room od entry_ino name mode)
