-- ===== src/Ospfs/Files/Write/Resized.antt =====
-- ospfs_write of Lab3/ospfsmod.c, with change_size before its loop, on files of at most ten blocks;
-- and what ospfs_read finds afterwards.
use mathlib.Core.Bool.{false≢true}
use cs111_ucla.Prelude.{
  ℕ, ◌+◌, ◌*◌, ◌/◌, ◌%◌, ◌≤◌, ◌<◌, ◌≡◌, ◌≢◌, refl, sym, ◌∙◌, ap, ◌⊎◌, inl, inr, arith, false, ltb,
  Bool-cases, u32_mod, Bool, if◌then◌else◌,
}
use cs111_ucla.Ospfs.Disk.{Disk}
use cs111_ucla.Ospfs.Bitmap.{blksize, os_nblocks}
use cs111_ucla.Ospfs.Bitmap.Alloc.{is_free, first_data}
use cs111_ucla.Ospfs.Monad.{ok, err, enospc, Result}
use cs111_ucla.Ospfs.Grow.{change_size}
use cs111_ucla.Ospfs.Grow.Small.{blocks, ptr}
use cs111_ucla.Ospfs.Grow.Undo.{Like}
use cs111_ucla.Ospfs.Grow.Extends.{Extends, Extends-refl}
use cs111_ucla.Ospfs.Grow.Resize.{Resized, resized, no_room, change_size-Resized}
use cs111_ucla.Ospfs.Files.{
  User, UserCopy, Copies, Readable, WriteEnd, write_at, write_resized, ospfs_write,
}
use cs111_ucla.Ospfs.Files.Bytes.{
  Regular, file_byte, file_size, data_at, block_of, in_data-Regular, data-Regular, Keeps, low-Keeps,
  Keeps-size, Keeps-Regular, Keeps-data_at,
}
use cs111_ucla.Ospfs.Files.Write.{Stored, write_loop-Stored, data_at-differs}

-- A write of the `count` bytes of the process from `buffer` on, to a file from position `p` on, is
-- complete: the file is as long as it has to be, holds these bytes there, and what it held before
-- elsewhere; the blocks in use that were not the file's are as before.
pub record Overwritten (d : Disk) (oi : ℕ) (u : User) (buffer count p : ℕ) (e : WriteEnd)
    : Type 0 where
  pub answer : e.answer ≡ ok count
  pub position : e.position ≡ p + count
  pub regular : Regular e.disk oi
  pub size :
      file_size e.disk oi ≡ (if ltb (file_size d oi) (count + p) then count + p else file_size d oi)
  pub bytes : (x : ℕ) → x < count → file_byte e.disk oi (p + x) ≡ u (buffer + x)
  pub kept :
      (z : ℕ)
      → z < file_size d oi
      → (z < p) ⊎ (p + count ≤ z)
      → file_byte e.disk oi z ≡ file_byte d oi z
  pub others :
      (j x : ℕ)
      → first_data d ≤ j
      → j < os_nblocks d
      → is_free d j ≡ false
      → ((i : ℕ) → i < blocks d oi → ptr d oi i ≢ j)
      → x < blksize
      → e.disk (j * blksize + x) ≡ d (j * blksize + x)

-- How a write ends: it is complete, or the disk was full and is as before.
pub data Writes (d : Disk) (oi : ℕ) (u : User) (buffer count p : ℕ) (e : WriteEnd) : Type 0 where
  complete : Overwritten d oi u buffer count p e → Writes d oi u buffer count p e
  no_space :
      e.answer ≡ err enospc → e.position ≡ p → Like oi d e.disk → Writes d oi u buffer count p e

module _ {d e : Disk} {oi : ℕ} (r : Regular d oi) (x : Extends oi d e) where
  pub Extends-Regular : Regular e oi
  Extends-Regular = record {
    file = x.small;
    no_link = rw (x.fields 1 (omega arith) (omega arith)) r.no_link;
  }

  -- What the file holds.
  pub Extends-data : (z : ℕ) → z < file_size d oi → e (data_at e oi z) ≡ d (data_at d oi z)
  Extends-data z h =
      let b = block_of r z h in
      let i = z / blksize in
      rw (x.pointers i b) (
        x.kept (ptr d oi i) (z % blksize) (r.file.in_data i b) (r.file.in_disk i b)
          (r.file.used i b) (omega arith))

  Extends-byte :
      (z : ℕ) → z < file_size d oi → z < file_size e oi → file_byte e oi z ≡ file_byte d oi z
  Extends-byte z h h' =
      rw (data-Regular r z h, data-Regular Extends-Regular z h') (Extends-data z h)

-- The loop, after change_size or without it.
module _ {d e : Disk} {oi : ℕ} (r : Regular d oi) (x : Extends oi d e) (u : User)
    (buffer count p : ℕ)
    (size : file_size e oi
      ≡ (if ltb (file_size d oi) (count + p) then count + p else file_size d oi))
    {w : WriteEnd} (s : Stored e oi u buffer count p count w) where
  at_e : Regular e oi
  at_e = Extends-Regular r x

  low : (y : ℕ) → y < first_data e * blksize → w.disk y ≡ e y
  low y h = s.others y λ z l same. omega (arith, in_data-Regular at_e (p + z) (ground arith))

  keeps : Keeps e w.disk oi
  keeps = low-Keeps at_e.file low

  after : Regular w.disk oi
  after = Keeps-Regular at_e keeps

  byte_after : (z : ℕ) → z < file_size e oi → file_byte w.disk oi z ≡ w.disk (data_at e oi z)
  byte_after z h = ap w.disk (
      data-Regular after z (ground (arith, Keeps-size at_e.file keeps))
      ∙ Keeps-data_at at_e keeps z h)

  -- A byte of the file that is not written.
  apart :
      (z y : ℕ)
      → z < file_size e oi
      → (z < p) ⊎ (p + count ≤ z)
      → y < count
      → data_at e oi z ≢ data_at e oi (p + y)
  apart z y h (inl before) l same =
      data_at-differs at_e.file z (p + y) (omega arith) (ground arith) same
  apart z y h (inr behind) l same = data_at-differs at_e.file (p + y) z (omega arith) h (sym same)

  kept_byte :
      (z : ℕ)
      → z < file_size d oi
      → (z < p) ⊎ (p + count ≤ z)
      → file_byte w.disk oi z ≡ file_byte d oi z
  kept_byte z h o =
      let h' : z < file_size e oi = ground arith in
      byte_after z h'
      ∙ s.others (data_at e oi z) (λ y l. apart z y h' o l)
      ∙ ap e (sym (data-Regular at_e z h'))
      ∙ Extends-byte r x z h h'

  -- A block of another file is not one of this file's.
  foreign :
      (j y z : ℕ)
      → first_data d ≤ j
      → j < os_nblocks d
      → is_free d j ≡ false
      → ((i : ℕ) → i < blocks d oi → ptr d oi i ≢ j)
      → y < blksize
      → z < count
      → j * blksize + y ≢ data_at e oi (p + z)
  foreign j y z lo hi used ne l h same =
      let i = (p + z) / blksize in
      let at : j ≡ ptr e oi i = omega arith in
      elim (Bool-cases (ltb i (blocks d oi))) [
        | inl old ↦
            let lt : i < blocks d oi = ground arith in ne i lt (sym (x.pointers i lt) ∙ sym at)
        | inr new ↦
            let free = x.fresh i (ground arith) (block_of at_e (p + z) (ground arith)) in
            false≢true (sym used ∙ (rw at free))
      ]

  Stored-Overwritten : Overwritten d oi u buffer count p w
  Stored-Overwritten = record {
    answer = s.answer;
    position = s.position;
    regular = after;
    size = Keeps-size at_e.file keeps ∙ size;
    bytes = λ y h. byte_after (p + y) (ground arith) ∙ s.bytes y h;
    kept = kept_byte;
    others = λ j y lo hi used ne l.
        s.others (j * blksize + y) (λ z h. foreign j y z lo hi used ne l h)
        ∙ x.kept j y lo hi used l;
  }

write_at-Writes :
    {d : Disk} {oi : ℕ} {k : UserCopy} (u : User) (buffer count p : ℕ)
    → Regular d oi
    → Copies k
    → Readable k buffer count
    → count + p ≤ 10 * blksize
    → Writes d oi u buffer count p (write_at k oi u buffer count p d)
unfolding write_at
write_at-Writes {d} {oi} {k} u buffer count p r c w small =
    elim (Bool-cases (ltb (file_size d oi) (count + p))) [
      | inl longer ↦
          let cut : (count + p) % u32_mod ≡ count + p = omega arith in
          rw (longer, cut)
            (by_size (ground arith) refl
              (change_size-Resized (count + p) r.file (ground (arith, r.file.size_in)) small))
      | inr fits ↦ rw fits (
          complete (
            Stored-Overwritten r (Extends-refl r.file) u buffer count p (ground arith) (
              write_loop-Stored c u (count + 1) r buffer count 0 count p (omega arith)
                (ground arith) (omega arith) w)))
    ]
  where
    by_size :
        file_size d oi < count + p
        → {a : Result (Unit {0}) × Disk} → change_size oi (count + p) d ≡ a
        → Resized oi d (count + p) a
        → Writes d oi u buffer count p (write_resized k oi u buffer count p a.0 a.1)
    by_size l e (resized f x size) =
        let exact : file_size f oi
            ≡ (if ltb (file_size d oi) (count + p) then count + p else file_size d oi) =
          ground (arith, size) in
        complete (
          Stored-Overwritten r x u buffer count p exact (
            write_loop-Stored c u (count + 1) (Extends-Regular r x) buffer count 0 count p
              (omega arith) (omega (arith, size)) (omega arith) w))
    by_size l e (no_room f u like) = no_space refl refl like

-- Where a write begins.
abbrev pub start : Disk → ℕ → Bool → ℕ → ℕ
start d oi append p = if append then file_size d oi else p

-- A write by a process that may read the bytes, which ends in the first ten blocks of a file of at
-- most ten blocks that is not a symbolic link, always ends; with O_APPEND it begins at the file's
-- end. Either it answers `count` and moves the position on by it, and the file holds these bytes
-- there, holds elsewhere what it held before, is as long as it has to be, is again such a file, and no block in use that was
-- not the file's has changed; or it answers -ENOSPC, and the inode, the bitmap and all that is in use are as before.
pub ospfs_write-Writes :
    {d : Disk} {oi : ℕ} {k : UserCopy} (append : Bool) (u : User) (buffer count p : ℕ)
    → Regular d oi
    → Copies k
    → Readable k buffer count
    → count + start d oi append p ≤ 10 * blksize
    → Writes d oi u buffer count (start d oi append p) (ospfs_write k append oi u buffer count p d)
unfolding ospfs_write
ospfs_write-Writes {d} {oi} append u buffer count p r c w small =
    write_at-Writes u buffer count (start d oi append p) r c w small
