-- ===== src/Ospfs/Names.antt =====
-- Directory entries and their names, of Lab3/ospfs.h and Lab3/ospfsmod.c: find_direntry and the
-- lookup of a name. A name is the list of the `len` characters of a dentry's d_name.
pub mod Strings
pub mod Find
use Prim.Native.Nat.{bit_or}
use cs111_ucla.Prelude.{
  ℕ, zero, suc, ◌+◌, ◌-◌, ◌/◌, ◌%◌, ◌^◌, Bool, true, not, ◌&&◌, ltb, ◌==◌, if◌then◌else◌, add32,
  update, Option, none, some, List, [], ◌∷◌,
}
use cs111_ucla.Ospfs.Disk.{Disk, load32, memset_zero}
use cs111_ucla.Ospfs.Index.{
  oi_size, oi_ftype, oi_nlink, oi_mode, ospfs_inode, ospfs_inode_data, ftype_reg, ftype_dir,
  ftype_symlink,
}
use cs111_ucla.Ospfs.Monad.{enametoolong, einval, Result, ok, err, hang}

abbrev pub direntry_size : ℕ
direntry_size = 128

abbrev pub maxnamelen : ℕ
maxnamelen = direntry_size - 5

abbrev pub od_ino : ℕ → ℕ
od_ino od = od

abbrev pub od_name : ℕ → ℕ
od_name od = od + 4

abbrev pub Name : Type 0
Name = List ℕ

unfoldable pub length {ℓ} : {A : Type ℓ} → List A → ℕ
length [] = 0
length (x ∷ xs) = suc (length xs)

-- `strlen(s) == n`, for the string at `a`.
unfoldable pub strlen_is : ℕ → ℕ → Disk → Bool
strlen_is zero a d = d a == 0
strlen_is (suc n) a d = not (d a == 0) && strlen_is n (a + 1) d

-- `memcmp(s, name, len) == 0`.
unfoldable pub memcmp_is : Name → ℕ → Disk → Bool
memcmp_is [] a d = true
memcmp_is (c ∷ cs) a d = d a == c && memcmp_is cs (a + 1) d

-- strncpy(&ospfs_data[a], name, len).
unfoldable pub strncpy : Name → ℕ → Disk → Disk
strncpy [] a d = d
strncpy (c ∷ cs) a d =
    let copied = strncpy cs (a + 1) (update d a c) in
    if c == 0 then memset_zero (length cs + 1) a d else copied

-- Whether the entry at `od` is in use and has the name.
abbrev pub is_named : ℕ → Name → Disk → Bool
is_named od name d =
    not (load32 d (od_ino od) == 0)
    && (strlen_is (length name) (od_name od) d && memcmp_is name (od_name od) d)

-- The rounds of `for (off = 0; off < size; off += OSPFS_DIRENTRY_SIZE)`.
abbrev pub rounds_of : ℕ → ℕ
rounds_of size = (size + 127) / 128

-- The loop of find_direntry, from offset `off` on; `none` is the null pointer.
unfoldable pub find_from : ℕ → ℕ → ℕ → Name → Disk → Option ℕ
find_from zero off dir_oi name d = none
find_from (suc rounds) off dir_oi name d =
    let od = ospfs_inode_data dir_oi off d in
    let rest = find_from rounds (off + direntry_size) dir_oi name d in
    if is_named od name d then some od else rest

-- find_direntry, with the length of the name given.
unfoldable pub find_direntry : ℕ → Name → Disk → Option ℕ
unfolding find_from
find_direntry dir_oi name d = find_from (rounds_of (load32 d (oi_size dir_oi))) 0 dir_oi name d

-- The operations that ospfs_mk_linux_inode gives to an inode.
pub data Operations : Type 0 where
  reg_ops dir_ops symlink_ops : Operations

-- The fields of the kernel's struct inode that ospfs_mk_linux_inode sets, but for the times.
pub record LinuxInode : Type 0 where
  pub i_ino : ℕ
  pub i_uid : ℕ
  pub i_gid : ℕ
  pub i_size : ℕ
  pub i_mode : ℕ
  pub i_nlink : ℕ
  pub i_op : Operations

-- What ospfs_mk_linux_inode does: it returns 0, panics, or returns an inode.
pub data Made : Type 0 where
  null panicked : Made
  made : LinuxInode → Made

abbrev pub mode_bits : ℕ → ℕ → ℕ
mode_bits mode kind = bit_or mode kind % 2 ^ 16

-- The inode at `oi`. S_IFREG is 0100000, S_IFDIR 0040000, S_IFLNK 0120000; all permissions are 0777.
unfoldable pub linux_inode : ℕ → ℕ → Disk → Made
linux_inode ino oi d =
    let type = load32 d (oi_ftype oi) in
    let size = load32 d (oi_size oi) in
    let mode = load32 d (oi_mode oi) in
    let nlink = load32 d (oi_nlink oi) in
    let inode : LinuxInode = record {
      i_ino = ino;
      i_uid = 0;
      i_gid = 0;
      i_size = size;
      i_mode = 0xA1FF;
      i_nlink = nlink;
      i_op = symlink_ops;
    } in
    if type == ftype_reg
    then made (record inode { i_mode = mode_bits mode 0x8000; i_op = reg_ops })
    else if type == ftype_dir
    then made
        (record inode { i_mode = mode_bits mode 0x4000; i_nlink = add32 nlink 1; i_op = dir_ops })
    else if type == ftype_symlink
    then made inode
    else panicked

abbrev pub linux_inode_at : Bool → ℕ → Option ℕ → Disk → Made
linux_inode_at room ino none d = null
linux_inode_at room ino (some oi) d = if room then linux_inode ino oi d else null

-- ospfs_mk_linux_inode; `room` is whether the kernel's new_inode returns an inode.
unfoldable pub ospfs_mk_linux_inode : Bool → ℕ → Disk → Made
unfolding linux_inode
ospfs_mk_linux_inode room ino d = linux_inode_at room ino (ospfs_inode ino d) d

-- ospfs_dir_lookup: the inode that it attaches to the dentry, `none` for a negative dentry.
abbrev pub attached : Made → Result (Option LinuxInode)
attached null = err einval
attached panicked = hang
attached (made i) = ok (some i)

abbrev pub lookup_found : Bool → Option ℕ → Disk → Result (Option LinuxInode)
lookup_found room none d = ok none
lookup_found room (some od) d = attached (ospfs_mk_linux_inode room (load32 d (od_ino od)) d)

-- The loop of ospfs_dir_lookup makes the tests of find_direntry in the same order.
unfoldable pub ospfs_dir_lookup : Bool → ℕ → Name → Disk → Result (Option LinuxInode)
unfolding ospfs_mk_linux_inode find_direntry
ospfs_dir_lookup room dir_oi name d =
    if ltb maxnamelen (length name)
    then err enametoolong
    else lookup_found room (find_direntry dir_oi name d) d
