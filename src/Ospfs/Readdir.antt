-- ===== src/Ospfs/Readdir.antt =====
-- ospfs_dir_readdir of Lab3/ospfsmod.c. The kernel's callback `filldir` is a parameter.
pub mod Entries
pub mod Resume
mod Tests
use cs111_ucla.Prelude.{
  ℕ, zero, suc, ◌+◌, ◌/◌, Bool, true, false, leb, ◌==◌, if◌then◌else◌, mul32, sub32, Option, none,
  some, List, [], ◌∷◌, ◌++◌,
}
use cs111_ucla.Ospfs.Disk.{Disk, load32}
use cs111_ucla.Ospfs.Index.{
  oi_size, oi_ftype, ospfs_inode, ospfs_inode_data, ftype_reg, ftype_dir, ftype_symlink,
}
use cs111_ucla.Ospfs.Names.{direntry_size, maxnamelen, od_ino, od_name}

pub data FileType : Type 0 where
  dt_reg dt_dir dt_lnk : FileType

-- The name that is passed to filldir: a string of the module, or the one at an address of the disk.
pub data EntryName : Type 0 where
  dot dot_dot : EntryName
  at : ℕ → EntryName

-- The arguments of a call of filldir.
pub record Filled : Type 0 where
  pub name : EntryName
  pub len : ℕ
  pub pos : ℕ
  pub ino : ℕ
  pub type : FileType

-- The callback: whether it takes an entry, after those that it has taken.
abbrev pub Filldir : Type 0
Filldir = List Filled → Filled → Bool

-- Why readdir stops: the directory ends, filldir has refused an entry, an entry's inode has an unknown
-- type, the entry's inode is the null pointer, or the fuel has run out.
pub data Stop : Type 0 where
  at_end refused bad_type null_inode no_fuel : Stop

-- The position, what filldir has taken, and why the function stops.
pub record Read : Type 0 where
  pub f_pos : ℕ
  pub taken : List Filled
  pub stop : Stop

-- The type that the switch gives an entry; `none` is the default branch.
abbrev pub type_of : ℕ → Option FileType
type_of ftype =
    if ftype == ftype_reg
    then some dt_reg
    else if ftype == ftype_dir
    then some dt_dir
    else if ftype == ftype_symlink
    then some dt_lnk
    else none

-- What a round makes of the entry at its position.
pub data Step : Type 0 where
  ends blank unknown no_inode : Step
  passes : Filled → Step

-- strlen of the string at an address: the number of characters before the null character, which a name has
-- within the `left` bytes of its field.
unfoldable pub strlen : ℕ → ℕ → Disk → ℕ
strlen zero a d = 0
strlen (suc left) a d = let rest = strlen left (a + 1) d in if d a == 0 then 0 else 1 + rest

unfoldable pub typed : ℕ → ℕ → ℕ → Option FileType → Disk → Step
unfolding strlen
typed od f_pos ino none d = unknown
typed od f_pos ino (some t) d = passes (record {
  name = at (od_name od);
  len = strlen (maxnamelen + 1) (od_name od) d;
  pos = f_pos;
  ino = ino;
  type = t;
})

unfoldable pub with_inode : ℕ → ℕ → ℕ → Option ℕ → Disk → Step
unfolding typed
with_inode od f_pos ino none d = no_inode
with_inode od f_pos ino (some oi) d = typed od f_pos ino (type_of (load32 d (oi_ftype oi))) d

unfoldable pub entry_at : ℕ → ℕ → Disk → Step
unfolding with_inode
entry_at dir_oi f_pos d =
    let off = mul32 direntry_size (sub32 f_pos 2) in
    let od = ospfs_inode_data dir_oi off d in
    let ino = load32 d (od_ino od) in
    if leb (load32 d (oi_size dir_oi)) off
    then ends
    else if ino == 0
    then blank
    else with_inode od f_pos ino (ospfs_inode ino d) d

-- The loop; f_pos is at least 2.
unfoldable pub read_entries : Filldir → ℕ → ℕ → Disk → ℕ → List Filled → Read
read_entries fill zero dir_oi d f_pos taken = record {
  f_pos = f_pos;
  taken = taken;
  stop = no_fuel;
}
read_entries fill (suc fuel) dir_oi d f_pos taken = elim (entry_at dir_oi f_pos d) [
  | ends ↦ record { f_pos = f_pos; taken = taken; stop = at_end }
  | blank ↦ read_entries fill fuel dir_oi d (f_pos + 1) taken
  | unknown ↦ record { f_pos = f_pos; taken = taken; stop = bad_type }
  | no_inode ↦ record { f_pos = f_pos; taken = taken; stop = null_inode }
  | passes e ↦ elim (fill taken e) [
    | false ↦ record { f_pos = f_pos; taken = taken; stop = refused }
    | true ↦ read_entries fill fuel dir_oi d (f_pos + 1) (taken ++ (e ∷ []))
  ]
]

-- The numbers of the directory's and of its parent's inode.
abbrev pub dot_entry : ℕ → Filled
dot_entry ino = record { name = dot; len = 1; pos = 0; ino = ino; type = dt_dir }

abbrev pub dot_dot_entry : ℕ → Filled
dot_dot_entry parent = record { name = dot_dot; len = 2; pos = 1; ino = parent; type = dt_dir }

-- From position 1 on.
abbrev pub read_rest : Filldir → ℕ → ℕ → Disk → ℕ → ℕ → List Filled → Read
read_rest fill fuel dir_oi d parent f_pos taken = elim (f_pos == 1) [
  | false ↦ read_entries fill fuel dir_oi d f_pos taken
  | true ↦ elim (fill taken (dot_dot_entry parent)) [
    | false ↦ record { f_pos = 1; taken = taken; stop = refused }
    | true ↦ read_entries fill fuel dir_oi d 2 (taken ++ (dot_dot_entry parent ∷ []))
  ]
]

-- `return -1` of the default branch does not save the position.
abbrev pub saved : ℕ → Read → Read
saved f_pos r = elim r.stop [
  | at_end ↦ r
  | refused ↦ r
  | bad_type ↦ record r { f_pos = f_pos }
  | null_inode ↦ r
  | no_fuel ↦ r
]

-- ospfs_dir_readdir before it returns, from the position f_pos on: the directory `ino` at dir_oi, in
-- the directory `parent`. Each round moves by one entry, so that their number is fuel enough.
unfoldable pub readdir : Filldir → ℕ → ℕ → ℕ → Disk → ℕ → Read
readdir fill ino parent dir_oi d f_pos =
    let fuel = load32 d (oi_size dir_oi) / direntry_size + 2 in
    elim (f_pos == 0) [
      | false ↦ read_rest fill fuel dir_oi d parent f_pos []
      | true ↦ elim (fill [] (dot_entry ino)) [
        | false ↦ record { f_pos = 0; taken = []; stop = refused }
        | true ↦ read_rest fill fuel dir_oi d parent 1 (dot_entry ino ∷ [])
      ]
    ]

unfoldable pub ospfs_dir_readdir : Filldir → ℕ → ℕ → ℕ → Disk → ℕ → Read
unfolding readdir
ospfs_dir_readdir fill ino parent dir_oi d f_pos =
    saved f_pos (readdir fill ino parent dir_oi d f_pos)
