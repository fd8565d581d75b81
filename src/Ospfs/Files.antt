-- ===== src/Ospfs/Files.antt =====
-- ospfs_read and ospfs_write of Lab3/ospfsmod.c. The kernel's copies between user space and the
-- disk image are parameters.
pub mod Bytes
pub mod Read
pub mod Write
pub mod Back
mod Tests
use cs111_ucla.Prelude.{
  ℕ, zero, suc, ◌+◌, ◌-◌, ◌%◌, ◌≤◌, ◌<◌, ◌≡◌, Bool, true, false, ltb, ◌==◌, if◌then◌else◌, u32_mod,
}
use cs111_ucla.Ospfs.Disk.{Disk, load32, Outside}
use cs111_ucla.Ospfs.Bitmap.{blksize, ospfs_block}
use cs111_ucla.Ospfs.Index.{oi_size, ospfs_inode_blockno}
use cs111_ucla.Ospfs.Monad.{eio, efault, Result, ok, err, hang}
use cs111_ucla.Ospfs.Grow.{change_size}

-- The memory of the process, by the byte's address.
abbrev pub User : Type 0
User = ℕ → ℕ

-- The kernel's copy_to_user and copy_from_user. The arguments are the destination, the source and
-- the number of bytes; they return the number of bytes that could not be copied.
pub record UserCopy : Type 0 where
  pub to_user : ℕ → ℕ → ℕ → Disk → User → ℕ × User
  pub from_user : ℕ → ℕ → ℕ → User → Disk → ℕ × Disk

-- What the kernel documents of the two: 0 means that all bytes, and no others, have been copied.
pub record Copies (k : UserCopy) : Type 0 where
  pub fetched :
      (to from n : ℕ) (d : Disk) (u : User)
      → (k.to_user to from n d u).0 ≡ 0
      → (x : ℕ) → x < n
      → (k.to_user to from n d u).1 (to + x) ≡ d (from + x)
  pub fetched_only :
      (to from n : ℕ) (d : Disk) (u : User) → Outside to n u (k.to_user to from n d u).1
  pub stored :
      (to from n : ℕ) (u : User) (d : Disk)
      → (k.from_user to from n u d).0 ≡ 0
      → (x : ℕ) → x < n
      → (k.from_user to from n u d).1 (to + x) ≡ u (from + x)
  pub stored_only :
      (to from n : ℕ) (u : User) (d : Disk) → Outside to n d (k.from_user to from n u d).1

-- The `m` bytes of the process from `buffer` on may be written.
abbrev pub Writable : UserCopy → ℕ → ℕ → Type 0
Writable k buffer m =
    (to from n : ℕ) (d : Disk) (u : User)
    → buffer ≤ to
    → to + n ≤ buffer + m
    → (k.to_user to from n d u).0 ≡ 0

-- They may be read.
abbrev pub Readable : UserCopy → ℕ → ℕ → Type 0
Readable k buffer m =
    (to from n : ℕ) (u : User) (d : Disk)
    → buffer ≤ from
    → from + n ≤ buffer + m
    → (k.from_user to from n u d).0 ≡ 0

-- `n` of a round: what is left of the block, but not more than what is left of the request.
abbrev pub chunk : ℕ → ℕ → ℕ → ℕ
chunk count amount f_pos =
    if ltb (count - amount) (blksize - f_pos % blksize)
    then count - amount
    else blksize - f_pos % blksize

-- What a read leaves: its answer, the file position, and the user's memory.
pub record ReadEnd : Type 0 where
  pub answer : Result ℕ
  pub position : ℕ
  pub memory : User

-- The loop of ospfs_read; `hang` without fuel. `retval` is 0 whenever the loop's test is reached.
unfoldable pub read_loop : UserCopy → ℕ → ℕ → Disk → ℕ → ℕ → ℕ → ℕ → User → ReadEnd
read_loop k zero oi d buffer count amount f_pos u = record {
  answer = hang;
  position = f_pos;
  memory = u;
}
read_loop k (suc fuel) oi d buffer count amount f_pos u =
    let blockno = ospfs_inode_blockno oi (f_pos % u32_mod) d in
    let n = chunk count amount f_pos in
    let copied = k.to_user buffer (ospfs_block blockno) n d u in
    elim (ltb amount count) [
      | false ↦ record { answer = ok amount; position = f_pos; memory = u }
      | true ↦ elim (blockno == 0) [
        | true ↦ record { answer = err eio; position = f_pos; memory = u }
        | false ↦ elim (copied.0 == 0) [
          | false ↦ record { answer = err efault; position = f_pos; memory = copied.1 }
          | true ↦ read_loop k fuel oi d (buffer + n) count (amount + n) (f_pos + n) copied.1
        ]
      ]
    ]

-- The bytes that may be read: `count = oi->oi_size - *f_pos` is cut to a size_t of 32 bits.
abbrev pub read_count : ℕ → ℕ → ℕ → ℕ
read_count size count f_pos =
    if ltb size (f_pos + count)
    then (if ltb size f_pos then (u32_mod - (f_pos - size) % u32_mod) % u32_mod else size - f_pos)
    else count

-- ospfs_read of the inode at `oi`. Each round moves a byte at least, so that the count is fuel
-- enough.
unfoldable pub ospfs_read : UserCopy → ℕ → Disk → ℕ → ℕ → ℕ → User → ReadEnd
ospfs_read k oi d buffer count f_pos u =
    let bytes = read_count (load32 d (oi_size oi)) count f_pos in
    read_loop k (bytes + 1) oi d buffer bytes 0 f_pos u

-- What a write leaves: its answer, the file position, and the disk.
pub record WriteEnd : Type 0 where
  pub answer : Result ℕ
  pub position : ℕ
  pub disk : Disk

unfoldable pub write_loop : UserCopy → ℕ → ℕ → User → ℕ → ℕ → ℕ → ℕ → Disk → WriteEnd
write_loop k zero oi u buffer count amount f_pos d = record {
  answer = hang;
  position = f_pos;
  disk = d;
}
write_loop k (suc fuel) oi u buffer count amount f_pos d =
    let blockno = ospfs_inode_blockno oi (f_pos % u32_mod) d in
    let n = chunk count amount f_pos in
    let copied = k.from_user (ospfs_block blockno + f_pos % blksize) buffer n u d in
    elim (ltb amount count) [
      | false ↦ record { answer = ok amount; position = f_pos; disk = d }
      | true ↦ elim (blockno == 0) [
        | true ↦ record { answer = err eio; position = f_pos; disk = d }
        | false ↦ elim (copied.0 == 0) [
          | false ↦ record { answer = err efault; position = f_pos; disk = copied.1 }
          | true ↦ write_loop k fuel oi u (buffer + n) count (amount + n) (f_pos + n) copied.1
        ]
      ]
    ]

-- After change_size, with its answer.
abbrev pub write_resized : UserCopy → ℕ → User → ℕ → ℕ → ℕ → Result (Unit {0}) → Disk → WriteEnd
write_resized k oi u buffer count f_pos (ok _) d =
    write_loop k (count + 1) oi u buffer count 0 f_pos d
write_resized k oi u buffer count f_pos (err e) d = record {
  answer = err e;
  position = f_pos;
  disk = d;
}
write_resized k oi u buffer count f_pos hang d = record {
  answer = hang;
  position = f_pos;
  disk = d;
}

-- ospfs_write of the inode at `oi`, once the position is known.
unfoldable pub write_at : UserCopy → ℕ → User → ℕ → ℕ → ℕ → Disk → WriteEnd
write_at k oi u buffer count f_pos d =
    let grown = change_size oi ((count + f_pos) % u32_mod) d in
    if ltb (load32 d (oi_size oi)) (count + f_pos)
    then write_resized k oi u buffer count f_pos grown.0 grown.1
    else write_loop k (count + 1) oi u buffer count 0 f_pos d

-- ospfs_write; `append` is whether the file is opened with O_APPEND.
unfoldable pub ospfs_write : UserCopy → Bool → ℕ → User → ℕ → ℕ → ℕ → Disk → WriteEnd
unfolding write_at
ospfs_write k append oi u buffer count f_pos d =
    write_at k oi u buffer count (if append then load32 d (oi_size oi) else f_pos) d
