-- ===== src/Ospfs/Files/Back.antt =====
-- What ospfs_read of Lab3/ospfsmod.c finds after ospfs_write.
use cs111_ucla.Prelude.{ℕ, ◌+◌, ◌*◌, ◌%◌, ◌≤◌, ◌<◌, ◌≡◌, ◌∙◌, ap, ◌⊎◌, inl, inr, arith, false}
use cs111_ucla.Ospfs.Disk.{Disk}
use cs111_ucla.Ospfs.Bitmap.{blksize}
use cs111_ucla.Ospfs.Monad.{ok, err, enospc}
use cs111_ucla.Ospfs.Files.{
  User, UserCopy, Copies, Readable, Writable, WriteEnd, ospfs_write, ospfs_read,
}
use cs111_ucla.Ospfs.Files.Bytes.{Regular, file_byte, file_size}
use cs111_ucla.Ospfs.Files.Read.{available, read_from, ospfs_read-Fetched}
use cs111_ucla.Ospfs.Files.Write.Resized.{Writes, complete, no_space, ospfs_write-Writes}

-- After a write: the answer was -ENOSPC, or a read finds the bytes that were written.
abbrev pub ReadsBack : UserCopy → ℕ → User → User → ℕ → ℕ → ℕ → ℕ → WriteEnd → Type 0
ReadsBack k oi u u' buffer target count p e =
    let found = ospfs_read k oi e.disk target count p u' in
    (e.answer ≡ err enospc)
    ⊎ ((found.answer ≡ ok count)
        × ((x : ℕ) → x < count → found.memory (target + x) ≡ u (buffer + x)))

reads_back :
    {d : Disk} {oi : ℕ} {k : UserCopy} (u u' : User) (buffer target count p : ℕ) (e : WriteEnd)
    → Copies k
    → Writable k target count
    → p % blksize ≡ 0
    → Writes d oi u buffer count p e
    → ReadsBack k oi u u' buffer target count p e
reads_back u u' buffer target count p e c w whole (no_space a _ _) = inl a
reads_back {d} {oi} {k} u u' buffer target count p e c w whole (complete o) =
    let inside : p + count ≤ file_size e.disk oi = ground (arith, o.size) in
    let all : available (file_size e.disk oi) count p ≡ count = ground arith in
    let f = ospfs_read-Fetched target count p u' o.regular c (omega arith) (rw all w) in
    inr (
      f.answer ∙ ap ok all,
      λ x h.
          let at : read_from p x ≡ p + x = ground arith in
          f.bytes x (omega arith) ∙ ap (file_byte e.disk oi) at ∙ o.bytes x h,
    )

-- A write that begins at the beginning of a block and ends in the first ten blocks of a file
-- of at most ten blocks is answered -ENOSPC; or a read of as many bytes from that position answers their number
-- and finds the bytes that were written.
pub ospfs_write-ospfs_read :
    {d : Disk} {oi : ℕ} {k : UserCopy} (u u' : User) (buffer target count p : ℕ)
    → Regular d oi
    → Copies k
    → Readable k buffer count
    → Writable k target count
    → count + p ≤ 10 * blksize
    → p % blksize ≡ 0
    → ReadsBack k oi u u' buffer target count p (ospfs_write k false oi u buffer count p d)
ospfs_write-ospfs_read {d} {oi} {k} u u' buffer target count p r c read write small whole =
    reads_back u u' buffer target count p (ospfs_write k false oi u buffer count p d) c write whole
      (ospfs_write-Writes false u buffer count p r c read small)
