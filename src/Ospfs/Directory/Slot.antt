-- ===== src/Ospfs/Directory/Slot.antt =====
-- Where the entries of a directory of Lab3/ospfsmod.c are on the disk, and what a change of one entry
-- and of another inode leaves as it was.
use cs111_ucla.Prelude.{
  ℕ, ◌+◌, ◌*◌, ◌/◌, ◌%◌, ◌≤◌, ◌<◌, ◌≡◌, ◌≢◌, refl, sym, ◌∙◌, ap, ◌⊎◌, inl, inr, arith, Bool-cases,
  ltb,
}
use cs111_ucla.Ospfs.Disk.{Disk}
use cs111_ucla.Ospfs.Bitmap.{blksize}
use cs111_ucla.Ospfs.Bitmap.Alloc.{first_data}
use cs111_ucla.Ospfs.Index.{ospfs_inode_data}
use cs111_ucla.Ospfs.Grow.Small.{SmallFile}
use cs111_ucla.Ospfs.Grow.Frame.{InodeAt}
use cs111_ucla.Ospfs.Files.Bytes.{
  Regular, file_size, data_at, in_data-Regular, data-Regular, Keeps, hole-Keeps, Keeps-size,
  Keeps-Regular, Keeps-data_at,
}
use cs111_ucla.Ospfs.Files.Write.{data_at-differs, outside_or_at}
use cs111_ucla.Ospfs.Directory.Entries.{num_entries, entry}

-- A directory of at most ten blocks: a whole number of entries.
pub record IsDirectory (d : Disk) (dir : ℕ) : Type 0 where
  pub regular : Regular d dir
  pub whole : file_size d dir % 128 ≡ 0

module _ {d : Disk} {dir : ℕ} (g : IsDirectory d dir) (i : ℕ) (h : i < num_entries d dir) where
  pub entry-inside : 128 * i + 128 ≤ file_size d dir
  entry-inside = omega (arith, g.whole, g.regular.file.size_in)

  pub entry-data_at : entry d dir i ≡ data_at d dir (128 * i)
  entry-data_at =
      ap (λ o. ospfs_inode_data dir o d) (omega arith)
      ∙ data-Regular g.regular (128 * i) (omega (arith, entry-inside))

  pub entry-byte : (x : ℕ) → x < 128 → entry d dir i + x ≡ data_at d dir (128 * i + x)
  entry-byte x l =
      let quotient : (128 * i + x) / blksize ≡ 128 * i / blksize = omega arith in
      let remainder : (128 * i + x) % blksize ≡ 128 * i % blksize + x = omega arith in
      rw (entry-data_at, quotient, remainder) (omega arith)

  pub entry-behind : first_data d * blksize ≤ entry d dir i
  entry-behind =
      omega
        (arith, entry-data_at, in_data-Regular g.regular (128 * i) (omega (arith, entry-inside)))

data_at-apart :
    {d : Disk} {oi : ℕ} (f : SmallFile d oi) (y z : ℕ)
    → y < file_size d oi
    → z < file_size d oi
    → y ≢ z
    → data_at d oi y ≢ data_at d oi z
data_at-apart f y z hy hz ne same = elim (Bool-cases (ltb y z)) [
  | inl before ↦ data_at-differs f y z (ground arith) hz same
  | inr behind ↦ data_at-differs f z y (ground arith) hy (sym same)
]

-- Two entries do not meet.
pub entries-apart :
    {d : Disk} {dir : ℕ} (g : IsDirectory d dir) (i j x : ℕ)
    → i < num_entries d dir
    → j < num_entries d dir
    → j ≢ i
    → x < 128
    → (entry d dir j + x < entry d dir i) ⊎ (entry d dir i + 128 ≤ entry d dir j + x)
entries-apart {d} {dir} g i j x hi hj ne l =
    elim (outside_or_at (entry d dir i) 128 (entry d dir j + x)) [
      | inl outside ↦ outside
      | inr (y, (ly, same)) ↦ absurd (
          data_at-apart g.regular.file (128 * j + x) (128 * i + y)
            (omega (arith, entry-inside g j hj)) (omega (arith, entry-inside g i hi))
            (λ q. omega arith) (sym (entry-byte g j hj x l) ∙ same ∙ entry-byte g i hi y ly))
    ]

-- The disk `e` is `d` but for the inode at `hole` and entry `i` of the directory.
module _ {d e : Disk} {dir : ℕ} (g : IsDirectory d dir) {hole : ℕ} (at : InodeAt d hole)
    (apart : (dir + 64 ≤ hole) ⊎ (hole + 64 ≤ dir)) (i : ℕ) (h : i < num_entries d dir)
    (rest : (y : ℕ)
      → (y < hole) ⊎ (hole + 64 ≤ y)
      → (y < entry d dir i) ⊎ (entry d dir i + 128 ≤ y)
      → e y ≡ d y) where
  pub slot-Keeps : Keeps d e dir
  slot-Keeps =
      hole-Keeps g.regular.file hole at.after_bitmap apart
        λ y l o. rest y o (inl (omega (arith, entry-behind g i h)))

  pub slot-IsDirectory : IsDirectory e dir
  slot-IsDirectory = record {
    regular = Keeps-Regular g.regular slot-Keeps;
    whole = rw (Keeps-size g.regular.file slot-Keeps) g.whole;
  }

  pub slot-count : num_entries e dir ≡ num_entries d dir
  slot-count = rw (Keeps-size g.regular.file slot-Keeps) refl

  pub slot-entry : (j : ℕ) → j < num_entries d dir → entry e dir j ≡ entry d dir j
  slot-entry j l =
      entry-data_at slot-IsDirectory j (omega (arith, slot-count))
      ∙ Keeps-data_at g.regular slot-Keeps (128 * j) (omega (arith, entry-inside g j l))
      ∙ sym (entry-data_at g j l)

  pub slot-others :
      (j x : ℕ)
      → j < num_entries d dir
      → j ≢ i
      → x < 128
      → e (entry e dir j + x) ≡ d (entry d dir j + x)
  slot-others j x l ne lx = rw (slot-entry j l) (
      rest (entry d dir j + x) (inr (omega (arith, entry-behind g j l, at)))
        (entries-apart g i j x h l ne lx))
