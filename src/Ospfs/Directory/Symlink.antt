-- ===== src/Ospfs/Directory/Symlink.antt =====
-- ospfs_symlink of Lab3/ospfsmod.c.
use cs111_ucla.Prelude.{ℕ, ◌+◌, Bool, ltb, ◌==◌, if◌then◌else◌, update}
use cs111_ucla.Ospfs.Bitmap.{os_ninodes}
use cs111_ucla.Ospfs.Index.{oi_size, oi_ftype, oi_nlink, ospfs_inode, ftype_symlink}
use cs111_ucla.Ospfs.Monad.{◌>>=◌, ◌>>◌, enospc, M, throw, get, modify, get32, put32}
use cs111_ucla.Ospfs.Names.{Name, length, od_ino, strncpy, ospfs_mk_linux_inode}
use cs111_ucla.Ospfs.Directory.{
  create_blank_direntry, check_name, put_name, inode_or, free_inode_from, instantiate,
}

-- The link's text in a symbolic link's inode.
abbrev pub oi_symlink : ℕ → ℕ
oi_symlink oi = oi + 12

abbrev pub maxsymlinklen : ℕ
maxsymlinklen = 51

-- The inode of a new symbolic link.
unfoldable pub init_symlink : ℕ → Name → M (Unit {0})
init_symlink oi symname = do
  put32 (oi_size oi) (length symname)
  put32 (oi_nlink oi) 1
  put32 (oi_ftype oi) ftype_symlink
  size ← get32 (oi_size oi)
  modify (strncpy symname (oi_symlink oi))
  modify (λ d. update d (oi_symlink oi + size) 0)

-- ospfs_symlink, once it has an entry and an inode.
unfoldable pub symlink_at : Bool → ℕ → ℕ → Name → Name → M (Unit {0})
unfolding init_symlink
symlink_at room od entry_ino name symname = do
  sym_node ← get (λ d. inode_or (ospfs_inode entry_ino d))
  init_symlink sym_node symname
  put32 (od_ino od) entry_ino
  put_name od name
  inode ← get (ospfs_mk_linux_inode room entry_ino)
  instantiate inode

-- ospfs_symlink; `symname` has no null character.
unfoldable pub ospfs_symlink : Bool → ℕ → Name → Name → M (Unit {0})
unfolding check_name free_inode_from symlink_at
ospfs_symlink room dir_oi name symname = do
  check_name dir_oi name (ltb maxsymlinklen (length symname))
  entry_ino ← get (λ d. free_inode_from (os_ninodes d) 0 d)
  ninodes ← get os_ninodes
  if entry_ino == ninodes
      then throw enospc
      else (do od ← create_blank_direntry dir_oi; symlink_at room od entry_ino name symname)
