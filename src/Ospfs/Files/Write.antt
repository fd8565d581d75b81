-- ===== src/Ospfs/Files/Write.antt =====
-- The loop of ospfs_write of Lab3/ospfsmod.c, on files of at most ten blocks.
pub mod Resized
use cs111_ucla.Prelude.{
  ℕ, zero, suc, ◌+◌, ◌*◌, ◌-◌, ◌/◌, ◌%◌, ◌≤◌, ◌<◌, ◌≡◌, ◌≢◌, refl, sym, ◌∙◌, ap, ◌⊎◌, inl, inr,
  arith, false, true, ltb, Bool-cases, ◌==◌, u32_mod, lt→ltb, le→ltb, leb, ◌&&◌,
}
use cs111_ucla.Ospfs.Disk.{Disk}
use cs111_ucla.Ospfs.Bitmap.{blksize, ospfs_block}
use cs111_ucla.Ospfs.Bitmap.Alloc.{first_data}
use cs111_ucla.Ospfs.Index.{ospfs_inode_blockno}
use cs111_ucla.Ospfs.Monad.{ok}
use cs111_ucla.Ospfs.Grow.Small.{ptr, SmallFile}
use cs111_ucla.Ospfs.Files.{User, UserCopy, Copies, Readable, chunk, WriteEnd, write_loop}
use cs111_ucla.Ospfs.Files.Bytes.{
  Regular, file_size, data_at, blockno-Regular, in_data-Regular, block_address-Regular, low-Keeps,
  Keeps-size, Keeps-Regular, Keeps-data_at,
}

-- An address is outside of `n` bytes, or the address of one of them.
pub outside_or_at : (a n y : ℕ) → ((y < a) ⊎ (a + n ≤ y)) ⊎ ((x : ℕ) × ((x < n) × (y ≡ a + x)))
outside_or_at a n y = elim (Bool-cases (leb a y && ltb y (a + n))) [
  | inl inside ↦ inr (y - a, (ground arith, ground arith))
  | inr outside ↦ inl (ground arith)
]

-- The bytes of a file are at different places.
pub data_at-differs :
    {d : Disk} {oi : ℕ} (f : SmallFile d oi) (y z : ℕ)
    → y < z
    → z < file_size d oi
    → data_at d oi y ≢ data_at d oi z
data_at-differs {d} {oi} f y z l h same = elim (Bool-cases (y / blksize == z / blksize)) [
  | inl one ↦
      let e : y / blksize ≡ z / blksize = ground arith in
      let q : ptr d oi (y / blksize) ≡ ptr d oi (z / blksize) = ap (ptr d oi) e in omega arith
  | inr two ↦
      f.distinct (y / blksize) (z / blksize) (ground arith) (omega (arith, f.size_in)) (omega arith)
]

-- A write has stored the `m` bytes of the process from `buffer` on in a file from position `p` on, has
-- changed no other byte of the disk, and has answered `count`.
pub record Stored (d : Disk) (oi : ℕ) (u : User) (buffer m p count : ℕ) (e : WriteEnd)
    : Type 0 where
  pub answer : e.answer ≡ ok count
  pub position : e.position ≡ p + m
  pub bytes : (x : ℕ) → x < m → e.disk (data_at d oi (p + x)) ≡ u (buffer + x)
  pub others : (y : ℕ) → ((x : ℕ) → x < m → y ≢ data_at d oi (p + x)) → e.disk y ≡ d y

abbrev copied : UserCopy → ℕ → User → ℕ → ℕ → ℕ → ℕ → Disk → ℕ × Disk
copied k oi u buffer count amount p d =
    k.from_user (ospfs_block (ospfs_inode_blockno oi (p % u32_mod) d) + p % blksize) buffer
      (chunk count amount p) u d

module _ {d : Disk} {oi : ℕ} (r : Regular d oi) {k : UserCopy} (c : Copies k) (u : User)
    (buffer count amount m p : ℕ) (ec : count ≡ amount + m) (inside : p + m ≤ file_size d oi)
    (more : 0 < m) (done : (copied k oi u buffer count amount p d).0 ≡ 0) where
  -- Where the bytes of a round go.
  place_of :
      (x : ℕ)
      → x < chunk count amount p
      → ospfs_block (ospfs_inode_blockno oi (p % u32_mod) d) + p % blksize + x
        ≡ data_at d oi (p + x)
  place_of x h =
      let quotient : (p + x) / blksize ≡ p / blksize = ground arith in
      let remainder : (p + x) % blksize ≡ p % blksize + x = ground arith in
      rw (quotient, remainder, blockno-Regular r p (omega arith))
        (ap (λ b. b + p % blksize + x) (block_address-Regular r p (omega arith)) ∙ omega arith)

  round_bytes :
      (x : ℕ)
      → x < chunk count amount p
      → (copied k oi u buffer count amount p d).1 (data_at d oi (p + x)) ≡ u (buffer + x)
  round_bytes x h = rw (← place_of x h) (c.stored _ buffer (chunk count amount p) u d done x h)

  round_others :
      (y : ℕ)
      → ((x : ℕ) → x < chunk count amount p → y ≢ data_at d oi (p + x))
      → (copied k oi u buffer count amount p d).1 y ≡ d y
  round_others y ne =
      let to = ospfs_block (ospfs_inode_blockno oi (p % u32_mod) d) + p % blksize in
      let n = chunk count amount p in
      elim (outside_or_at to n y) [
        | inl outside ↦ c.stored_only to buffer n u d y outside
        | inr (x, (l, e)) ↦ absurd (ne x l (e ∙ place_of x l))
      ]

  round_low :
      (y : ℕ) → y < first_data d * blksize → (copied k oi u buffer count amount p d).1 y ≡ d y
  round_low y h = round_others y λ x l e. omega (arith, in_data-Regular r (p + x) (ground arith))

  -- A round, and what the rounds after it do.
  Stored-step :
      {e : WriteEnd}
      → Stored
          (copied k oi u buffer count amount p d).1
          oi
          u
          (buffer + chunk count amount p)
          (m - chunk count amount p)
          (p + chunk count amount p)
          count
          e
      → Stored d oi u buffer m p count e
  Stored-step {e} rest =
      let n = chunk count amount p in
      let le : n ≤ m = ground arith in
      let d1 = (copied k oi u buffer count amount p d).1 in
      let moved : (x : ℕ) → x < m - n → data_at d1 oi (p + n + x) ≡ data_at d oi (p + n + x) =
        λ x h. Keeps-data_at r (low-Keeps r.file round_low) (p + n + x) (ground arith) in
      record {
        answer = rest.answer;
        position = rest.position ∙ omega arith;
        bytes = λ x h. elim (Bool-cases (ltb x n)) [
          | inl first ↦
              rest.others (data_at d oi (p + x)) (λ y l e.
                data_at-differs r.file (p + x) (p + n + y) (ground arith) (ground arith)
                  (e ∙ moved y l))
              ∙ round_bytes x (ground arith)
          | inr later ↦
              let back : p + n + (x - n) ≡ p + x = ground arith in
              let from : buffer + n + (x - n) ≡ buffer + x = ground arith in
              let l : x - n < m - n = ground arith in
              ap e.disk (sym (moved (x - n) l ∙ ap (data_at d oi) back))
              ∙ rest.bytes (x - n) l
              ∙ ap u from
        ];
        others = λ y ne.
            rest.others y
              (λ x l e. ne (n + x) (ground arith) (e ∙ moved x l ∙ ap (data_at d oi) (omega arith)))
            ∙ round_others y (λ x l. ne x (ground arith));
      }

module _ {oi : ℕ} {k : UserCopy} (c : Copies k) (u : User) where
  write_step :
      {d : Disk} (r : Regular d oi) (fuel buffer count amount p : ℕ)
      → amount < count
      → p < file_size d oi
      → (copied k oi u buffer count amount p d).0 ≡ 0
      → write_loop k (suc fuel) oi u buffer count amount p d
        ≡ write_loop k fuel oi u
            (buffer + chunk count amount p)
            count
            (amount + chunk count amount p)
            (p + chunk count amount p)
            (copied k oi u buffer count amount p d).1
  unfolding write_loop
  write_step {d} r fuel buffer count amount p more inside done =
      let found : (ospfs_inode_blockno oi (p % u32_mod) d == 0) ≡ false =
        ground (arith, blockno-Regular r p inside, in_data-Regular r p inside, r.file.at.layout) in
      let all : ((copied k oi u buffer count amount p d).0 == 0) ≡ true = ground (arith, done) in
      rw (write_loop, lt→ltb amount count more, found, all) refl

  pub write_loop-Stored :
      (fuel : ℕ) {d : Disk} (r : Regular d oi) (buffer count amount m p : ℕ)
      → count ≡ amount + m
      → p + m ≤ file_size d oi
      → m < fuel
      → Readable k buffer m
      → Stored d oi u buffer m p count (write_loop k fuel oi u buffer count amount p d)
  unfolding write_loop
  write_loop-Stored zero r buffer count amount m p e inside enough w = absurd (omega arith)
  write_loop-Stored (suc fuel) r buffer count amount zero p e inside enough w =
      rw (write_loop, le→ltb amount count (omega arith))
        (record {
          answer = ap ok (omega arith);
          position = omega arith;
          bytes = λ x h. absurd (omega arith);
          others = λ y ne. refl;
        })
  write_loop-Stored (suc fuel) {d} r buffer count amount (suc m) p e inside enough w =
      let n = chunk count amount p in
      let done = w _ buffer n u d (omega arith) (ground arith) in
      let kept =
        low-Keeps r.file
          (round_low r c u buffer count amount (suc m) p e inside (omega arith) done) in
      rw (write_step r fuel buffer count amount p (omega arith) (omega arith) done) (
        Stored-step r c u buffer count amount (suc m) p e inside (omega arith) done (
          write_loop-Stored fuel (Keeps-Regular r kept) (buffer + n) count (amount + n) (suc m - n)
            (p + n) (ground arith) (ground (arith, Keeps-size r.file kept)) (ground arith)
            (λ to from l u d lo hi. w to from l u d (omega arith) (ground arith))))
