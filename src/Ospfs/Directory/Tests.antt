-- ===== src/Ospfs/Directory/Tests.antt =====
-- A small disk with a directory, for the theorems about directories: inode 1 is a directory of two
-- entries in block 4, of which the first has the name "a" for inode 2, a file of one block, block 5.
use mathlib.Core.Bool.{false≢true}
use cs111_ucla.Prelude.{
  ℕ, zero, suc, ◌+◌, ◌*◌, ◌≤◌, ◌<◌, ◌≡◌, refl, sym, ◌∙◌, inl, arith, true, false, ◌==◌,
  if◌then◌else◌, [], ◌∷◌, some,
}
use cs111_ucla.Ospfs.Disk.{Disk, load32}
use cs111_ucla.Ospfs.Bitmap.{bitvector_test}
use cs111_ucla.Ospfs.Bitmap.Alloc.{is_free, first_data}
use cs111_ucla.Ospfs.Index.{ospfs_inode_data, ospfs_inode_blockno}
use cs111_ucla.Ospfs.Grow.Frame.{InodeAt}
use cs111_ucla.Ospfs.Grow.Small.{blocks, ptr, SmallFile}
use cs111_ucla.Ospfs.Names.{Name, length, strlen_is, memcmp_is, is_named, find_direntry, find_from}
use cs111_ucla.Ospfs.Directory.{ospfs_create, ospfs_link}
use cs111_ucla.Ospfs.Directory.Create.{inode_at, IsOther}
use cs111_ucla.Ospfs.Directory.Link.{Links, ospfs_link-Links}
use cs111_ucla.Ospfs.Directory.Entries.{num_entries, entry}
use cs111_ucla.Ospfs.Directory.Slot.{IsDirectory}
use cs111_ucla.Ospfs.Directory.Creates.{Creates, Rooted, ospfs_create-Creates}
use cs111_ucla.Ospfs.Directory.Unlink.{ospfs_unlink}
use cs111_ucla.Ospfs.Directory.Unlinks.{Unlinkable}
use cs111_ucla.Ospfs.Directory.Removes.{Unlinks, ospfs_unlink-Unlinks}

abbrev pub dir_disk : Disk
dir_disk x =
    if x == 1028
    then 12
    else if x == 1032
    then 16
    else if x == 1036
    then 3
    else if x == 2048
    then 192
    else if x == 2049
    then 15
    else if x == 3080
    then 1
    else if x == 3137
    then 1
    else if x == 3140
    then 1
    else if x == 3144
    then 1
    else if x == 3152
    then 4
    else if x == 3201
    then 4
    else if x == 3208
    then 1
    else if x == 3216
    then 5
    else if x == 4096
    then 2
    else if x == 4100
    then 97
    else 0

abbrev pub root : ℕ
root = 3136

abbrev file : ℕ
file = 3200

dir_disk-used : (b : ℕ) → b < first_data dir_disk → is_free dir_disk b ≡ false
unfolding load32 bitvector_test
dir_disk-used zero h = refl
dir_disk-used (suc zero) h = refl
dir_disk-used (suc (suc zero)) h = refl
dir_disk-used (suc (suc (suc zero))) h = refl
dir_disk-used (suc (suc (suc (suc b)))) h = absurd (omega arith)

inode-at : (oi : ℕ) → 3072 ≤ oi → oi ≤ 4032 → InodeAt dir_disk oi
unfolding load32 bitvector_test
inode-at oi lo hi = record {
  layout = record {
    small = omega arith;
    bitmap = omega arith;
    data_in = omega arith;
    used = dir_disk-used;
  };
  after_bitmap = omega arith;
  before_data = omega arith;
}

root-blocks : blocks dir_disk root ≡ 1
unfolding load32
root-blocks = refl

root-ptr : (i : ℕ) → i < blocks dir_disk root → ptr dir_disk root i ≡ 4
unfolding load32
root-ptr zero h = refl
root-ptr (suc i) h = absurd (omega (arith, root-blocks))

zero_after : (x : ℕ) → 3217 ≤ x → x < 4096 → dir_disk x ≡ 0
zero_after x lo hi = ground arith

zero_between : (x : ℕ) → 3153 ≤ x → x < 3200 → dir_disk x ≡ 0
zero_between x lo hi = ground arith

zero_word : (a : ℕ) → ((x : ℕ) → a ≤ x → x < a + 4 → dir_disk x ≡ 0) → load32 dir_disk a ≡ 0
unfolding load32
zero_word a z = omega (
  arith,
  z a (omega arith) (omega arith),
  z (a + 1) (omega arith) (omega arith),
  z (a + 2) (omega arith) (omega arith),
  z (a + 3) (omega arith) (omega arith),
)

root-cleared : (i : ℕ) → 1 ≤ i → i < 10 → ptr dir_disk root i ≡ 0
root-cleared i lo hi =
    zero_word (3152 + 4 * i) (λ x l h. zero_between x (omega arith) (omega arith))

file-cleared : (i : ℕ) → 1 ≤ i → i < 10 → ptr dir_disk file i ≡ 0
file-cleared i lo hi = zero_word (3216 + 4 * i) (λ x l h. zero_after x (omega arith) (omega arith))

root-SmallFile : SmallFile dir_disk root
unfolding load32 bitvector_test
root-SmallFile = record {
  at = inode-at root (omega arith) (omega arith);
  size_in = omega arith;
  in_data = λ i h. omega (arith, root-ptr i h);
  in_disk = λ i h. omega (arith, root-ptr i h);
  used = λ i h. rw (root-ptr i h) refl;
  distinct = λ i j l h. absurd (omega (arith, root-blocks));
  cleared = λ i lo hi. root-cleared i (omega (arith, root-blocks)) hi;
}

file-blocks : blocks dir_disk file ≡ 1
unfolding load32
file-blocks = refl

file-ptr : (i : ℕ) → i < blocks dir_disk file → ptr dir_disk file i ≡ 5
unfolding load32
file-ptr zero h = refl
file-ptr (suc i) h = absurd (omega (arith, file-blocks))

file-SmallFile : SmallFile dir_disk file
unfolding load32 bitvector_test
file-SmallFile = record {
  at = inode-at file (omega arith) (omega arith);
  size_in = omega arith;
  in_data = λ i h. omega (arith, file-ptr i h);
  in_disk = λ i h. omega (arith, file-ptr i h);
  used = λ i h. rw (file-ptr i h) refl;
  distinct = λ i j l h. absurd (omega (arith, file-blocks));
  cleared = λ i lo hi. file-cleared i (omega (arith, file-blocks)) hi;
}

root-IsDirectory : IsDirectory dir_disk root
unfolding load32
root-IsDirectory = record {
  regular = record { file = root-SmallFile; no_link = λ e. omega arith };
  whole = refl;
}

root-Rooted : Rooted dir_disk root
unfolding load32
root-Rooted = record {
  number = 1;
  is_inode = refl;
  linked = λ e. omega arith;
  reserved = λ e. omega arith;
}

second_blank : (name : Name) → is_named (entry dir_disk root 1) name dir_disk ≡ false
unfolding load32 ospfs_inode_data ospfs_inode_blockno
second_blank name = refl

root_unique :
    (name : Name) (i j : ℕ)
    → i < num_entries dir_disk root
    → j < num_entries dir_disk root
    → is_named (entry dir_disk root i) name dir_disk ≡ true
    → is_named (entry dir_disk root j) name dir_disk ≡ true
    → i ≡ j
unfolding load32
root_unique name zero zero hi hj ni nj = refl
root_unique name (suc zero) j hi hj ni nj = absurd (false≢true (sym (second_blank name) ∙ ni))
root_unique name zero (suc zero) hi hj ni nj = absurd (false≢true (sym (second_blank name) ∙ nj))
root_unique name (suc (suc i)) j hi hj ni nj = absurd (omega arith)
root_unique name zero (suc (suc j)) hi hj ni nj = absurd (omega arith)

root-Unlinkable : Unlinkable dir_disk root file
unfolding load32
root-Unlinkable = record {
  directory = root-IsDirectory;
  file = record { file = file-SmallFile; no_link = λ e. omega arith };
  apart = inl (omega arith);
  foreign = λ i j h l. omega (arith, file-ptr i h, root-ptr j l);
  unique = root_unique;
}

ospfs_create-Creates_example :
    Creates dir_disk root 420 (98 ∷ []) true (ospfs_create true root (98 ∷ []) 420 dir_disk)
unfolding load32
ospfs_create-Creates_example =
    ospfs_create-Creates 420 (98 ∷ []) true root-Rooted root-IsDirectory (omega arith)
      ((λ e. omega arith), tt)

file-IsOther : IsOther dir_disk root 2
unfolding load32
file-IsOther = record {
  in_range = omega arith;
  not_zero = λ e. omega arith;
  apart = inl (omega arith);
}

ospfs_link-Links_example :
    Links dir_disk root 2 (98 ∷ []) (ospfs_link 2 (inode_at dir_disk 2) root (98 ∷ []) dir_disk)
unfolding load32
ospfs_link-Links_example =
    ospfs_link-Links (98 ∷ []) root-IsDirectory file-IsOther (omega arith) ((λ e. omega arith), tt)

ospfs_unlink-Unlinks_example :
    Unlinks dir_disk root file (97 ∷ []) (ospfs_unlink file root (97 ∷ []) dir_disk)
unfolding length
ospfs_unlink-Unlinks_example = ospfs_unlink-Unlinks root-Unlinkable (97 ∷ []) (omega arith)

find_a : find_direntry root (97 ∷ []) dir_disk ≡ some 4096
unfolding load32 ospfs_inode_data ospfs_inode_blockno find_direntry find_from strlen_is memcmp_is
    length
find_a = refl
