-- ===== src/Ospfs/Files/Read.antt =====
-- ospfs_read of Lab3/ospfsmod.c on files of at most ten blocks.
use cs111_ucla.Prelude.{
  ℕ, zero, suc, ◌+◌, ◌-◌, ◌/◌, ◌%◌, ◌≤◌, ◌<◌, ◌≡◌, refl, sym, ◌∙◌, ap, inl, inr, arith, false, true,
  ltb, Bool-cases, ◌==◌, u32_mod, lt→ltb, le→ltb, if◌then◌else◌,
}
use cs111_ucla.Ospfs.Disk.{Disk, Outside}
use cs111_ucla.Ospfs.Bitmap.{blksize, ospfs_block}
use cs111_ucla.Ospfs.Index.{ospfs_inode_blockno}
use cs111_ucla.Ospfs.Monad.{ok}
use cs111_ucla.Ospfs.Files.{
  User, UserCopy, Copies, Writable, chunk, ReadEnd, read_loop, ospfs_read, read_count,
}
use cs111_ucla.Ospfs.Files.Bytes.{
  Regular, file_byte, file_size, blockno-Regular, in_data-Regular, block_address-Regular,
  data-Regular,
}

-- The position in the file of the byte that a read from `p` on puts at place `x` of the buffer. The
-- first copy starts at the beginning of the block that holds `p`, not at `p`.
abbrev pub read_from : ℕ → ℕ → ℕ
read_from p x = if ltb x (blksize - p % blksize) then p - p % blksize + x else p + x

-- A read has put the bytes from `p` on, as read_from has it, into the `m` bytes from `buffer` on, and
-- has answered `count`.
pub record Fetched (d : Disk) (oi buffer m p count : ℕ) (u : User) (e : ReadEnd) : Type 0 where
  pub answer : e.answer ≡ ok count
  pub position : e.position ≡ p + m
  pub bytes : (x : ℕ) → x < m → e.memory (buffer + x) ≡ file_byte d oi (read_from p x)
  pub others : Outside buffer m u e.memory

-- The copy of a round.
abbrev copied : UserCopy → ℕ → Disk → ℕ → ℕ → ℕ → ℕ → User → ℕ × User
copied k oi d buffer count amount p u =
    k.to_user buffer (ospfs_block (ospfs_inode_blockno oi (p % u32_mod) d)) (chunk count amount p) d
      u

module _ {d : Disk} {oi : ℕ} (r : Regular d oi) {k : UserCopy} (c : Copies k) where
  -- A round that copies.
  read_step :
      (fuel buffer count amount p : ℕ) (u : User)
      → amount < count
      → p < file_size d oi
      → (copied k oi d buffer count amount p u).0 ≡ 0
      → read_loop k (suc fuel) oi d buffer count amount p u
        ≡ read_loop k fuel oi d
            (buffer + chunk count amount p)
            count
            (amount + chunk count amount p)
            (p + chunk count amount p)
            (copied k oi d buffer count amount p u).1
  unfolding read_loop
  read_step fuel buffer count amount p u more inside done =
      let found : (ospfs_inode_blockno oi (p % u32_mod) d == 0) ≡ false =
        ground (arith, blockno-Regular r p inside, in_data-Regular r p inside, r.file.at.layout) in
      let all : ((copied k oi d buffer count amount p u).0 == 0) ≡ true = ground (arith, done) in
      rw (read_loop, lt→ltb amount count more, found, all) refl

  -- The bytes of the first copy.
  first_byte :
      (x p m : ℕ)
      → x < m
      → p + m ≤ file_size d oi
      → x < blksize - p % blksize
      → d (ospfs_block (ospfs_inode_blockno oi (p % u32_mod) d) + x)
        ≡ file_byte d oi (read_from p x)
  first_byte x p m h inside low =
      let z = p - p % blksize + x in
      let at : read_from p x ≡ z = ground arith in
      let quotient : z / blksize ≡ p / blksize = omega arith in
      let remainder : z % blksize ≡ x = omega arith in
      ap d (
        rw (at, data-Regular r z (omega arith), blockno-Regular r p (omega arith))
          (rw (quotient, remainder) (ap (λ b. b + x) (block_address-Regular r p (omega arith)))))

  -- What a round copies, and what the rounds after it do.
  Fetched-step :
      (buffer count amount m p : ℕ) (u : User) {e : ReadEnd}
      → count ≡ amount + m
      → p + m ≤ file_size d oi
      → 0 < m
      → (copied k oi d buffer count amount p u).0 ≡ 0
      → Fetched d oi
          (buffer + chunk count amount p)
          (m - chunk count amount p)
          (p + chunk count amount p)
          count
          (copied k oi d buffer count amount p u).1
          e
      → Fetched d oi buffer m p count u e
  Fetched-step buffer count amount m p u {e} ec inside more done rest =
      let n = chunk count amount p in
      let le : n ≤ m = ground arith in
      record {
        answer = rest.answer;
        position = rest.position ∙ omega arith;
        bytes = λ x h. elim (Bool-cases (ltb x n)) [
          | inl first ↦
              rest.others (buffer + x) (inl (ground arith))
              ∙ c.fetched buffer _ n d u done x (ground arith)
              ∙ first_byte x p m h inside (ground arith)
          | inr later ↦
              let at : buffer + n + (x - n) ≡ buffer + x = ground arith in
              let from : read_from (p + n) (x - n) ≡ read_from p x = ground arith in
              ap e.memory (sym at) ∙ rest.bytes (x - n) (ground arith) ∙ ap (file_byte d oi) from
        ];
        others =
            λ x h. rest.others x (ground arith) ∙ c.fetched_only buffer _ n d u x (ground arith);
      }

  read_loop-Fetched :
      (fuel buffer count amount m p : ℕ) (u : User)
      → count ≡ amount + m
      → p + m ≤ file_size d oi
      → m < fuel
      → Writable k buffer m
      → Fetched d oi buffer m p count u (read_loop k fuel oi d buffer count amount p u)
  unfolding read_loop
  read_loop-Fetched zero buffer count amount m p u e inside enough w = absurd (omega arith)
  read_loop-Fetched (suc fuel) buffer count amount zero p u e inside enough w =
      rw (read_loop, le→ltb amount count (omega arith))
        (record {
          answer = ap ok (omega arith);
          position = omega arith;
          bytes = λ x h. absurd (omega arith);
          others = λ x h. refl;
        })
  read_loop-Fetched (suc fuel) buffer count amount (suc m) p u e inside enough w =
      let done = w buffer _ (chunk count amount p) d u (omega arith) (ground arith) in
      rw (read_step fuel buffer count amount p u (omega arith) (omega arith) done) (
        Fetched-step buffer count amount (suc m) p u e inside (omega arith) done (
          read_loop-Fetched fuel (buffer + chunk count amount p) count
            (amount + chunk count amount p) (suc m - chunk count amount p)
            (p + chunk count amount p) (copied k oi d buffer count amount p u).1 (ground arith)
            (ground arith) (ground arith)
            (λ to from n d u lo hi. w to from n d u (omega arith) (ground arith))))

-- The number of the `count` bytes from `p` on that a file of `size` bytes has.
abbrev pub available : ℕ → ℕ → ℕ → ℕ
available size count p = if ltb size (p + count) then size - p else count

-- A read from a position `p` that is not behind the end of a file of at most ten blocks, into memory
-- that may be written, ends without an error: it answers the number of bytes that the file has from `p` on,
-- at most `count`, moves the position on by it, and changes these bytes of the memory and no others.
-- They are the bytes of the file from `p` on, if `p` is the beginning of a block; if not, the first copy takes the
-- bytes from the beginning of the block instead, and the others follow from the next block on.
pub ospfs_read-Fetched :
    {d : Disk} {oi : ℕ} {k : UserCopy} (buffer count p : ℕ) (u : User)
    → Regular d oi
    → Copies k
    → p ≤ file_size d oi
    → Writable k buffer (available (file_size d oi) count p)
    → Fetched d oi buffer
        (available (file_size d oi) count p)
        p
        (available (file_size d oi) count p)
        u
        (ospfs_read k oi d buffer count p u)
unfolding ospfs_read
ospfs_read-Fetched {d} {oi} buffer count p u r c le w =
    let m = available (file_size d oi) count p in
    let same : read_count (file_size d oi) count p ≡ m = ground arith in
    rw same
      (read_loop-Fetched r c (m + 1) buffer m 0 m p u (omega arith) (ground arith) (omega arith) w)
