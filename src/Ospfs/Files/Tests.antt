-- ===== src/Ospfs/Files/Tests.antt =====
-- Reading and writing on the small disk, with a kernel that copies all bytes.
use cs111_ucla.Prelude.{
  ℕ, ◌+◌, ◌-◌, ◌≤◌, ◌<◌, ◌≡◌, refl, arith, ltb, leb, ◌&&◌, if◌then◌else◌, false, true, ◌⊎◌,
}
use cs111_ucla.Ospfs.Disk.{load32}
use cs111_ucla.Ospfs.Index.{ospfs_inode_blockno}
use cs111_ucla.Ospfs.Files.{User, UserCopy, Copies, read_loop, ospfs_read, ospfs_write}
use cs111_ucla.Ospfs.Files.Bytes.{Regular, file_size}
use cs111_ucla.Ospfs.Files.Read.{Fetched, available, ospfs_read-Fetched}
use cs111_ucla.Ospfs.Files.Write.Resized.{Writes, start, ospfs_write-Writes}
use cs111_ucla.Ospfs.Files.Back.{ReadsBack, ospfs_write-ospfs_read}
use cs111_ucla.Ospfs.Tests.{small_disk, inode_1, small_disk-SmallFile}

abbrev copy : ℕ → ℕ → ℕ → (ℕ → ℕ) → (ℕ → ℕ) → ℕ × (ℕ → ℕ)
copy to from n source target =
    (0, λ x. if leb to x && ltb x (to + n) then source (from + (x - to)) else target x)

abbrev copying : UserCopy
copying = record { to_user = copy; from_user = copy }

copy-inside :
    (to from n : ℕ) (source target : ℕ → ℕ) (x : ℕ)
    → x < n
    → (copy to from n source target).1 (to + x) ≡ source (from + x)
copy-inside to from n source target x h =
    let test : (leb to (to + x) && ltb (to + x) (to + n)) ≡ true = ground arith in
    let place : from + (to + x - to) ≡ from + x = omega arith in rw (test, place) refl

copy-outside :
    (to from n : ℕ) (source target : ℕ → ℕ) (x : ℕ)
    → (x < to) ⊎ (to + n ≤ x)
    → (copy to from n source target).1 x ≡ target x
copy-outside to from n source target x h =
    let test : (leb to x && ltb x (to + n)) ≡ false = ground arith in rw test refl

copying-Copies : Copies copying
copying-Copies = record {
  fetched = λ to from n d u e. copy-inside to from n d u;
  fetched_only = copy-outside;
  stored = λ to from n u d e. copy-inside to from n u d;
  stored_only = copy-outside;
}

small_disk-Regular : Regular small_disk inode_1
unfolding load32
small_disk-Regular = record { file = small_disk-SmallFile; no_link = λ e. omega arith }

small_disk-size : file_size small_disk inode_1 ≡ 500
unfolding load32
small_disk-size = refl

abbrev blank : User
blank x = 0

abbrev text : User
text x = x + 1

ospfs_read-Fetched_example :
    Fetched small_disk inode_1 700
      (available (file_size small_disk inode_1) 300 0)
      0
      (available (file_size small_disk inode_1) 300 0)
      blank
      (ospfs_read copying inode_1 small_disk 700 300 0 blank)
ospfs_read-Fetched_example =
    ospfs_read-Fetched 700 300 0 blank small_disk-Regular copying-Copies (omega arith)
      (λ to from n d u lo hi. refl)

ospfs_write-Writes_example :
    Writes small_disk inode_1 text 0 1000
      (start small_disk inode_1 true 0)
      (ospfs_write copying true inode_1 text 0 1000 0 small_disk)
ospfs_write-Writes_example =
    ospfs_write-Writes true text 0 1000 0 small_disk-Regular copying-Copies
      (λ to from n u d lo hi. refl) (omega (arith, small_disk-size))

ospfs_write-ospfs_read_example :
    ReadsBack copying inode_1 text blank 0 700 2000 1024
      (ospfs_write copying false inode_1 text 0 2000 1024 small_disk)
ospfs_write-ospfs_read_example =
    ospfs_write-ospfs_read text blank 0 700 2000 1024 small_disk-Regular copying-Copies
      (λ to from n u d lo hi. refl) (λ to from n d u lo hi. refl) (omega arith) refl

-- The first byte of the file; it is also what a read at position 1 finds.
read_aligned : (ospfs_read copying inode_1 small_disk 700 3 0 blank).memory 700 ≡ 77
unfolding ospfs_read read_loop load32 ospfs_inode_blockno
read_aligned = refl

read_unaligned : (ospfs_read copying inode_1 small_disk 700 3 1 blank).memory 700 ≡ 77
unfolding ospfs_read read_loop load32 ospfs_inode_blockno
read_unaligned = refl
