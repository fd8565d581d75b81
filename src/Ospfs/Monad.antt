-- ===== src/Ospfs/Monad.antt =====
-- Functions of Lab3/ospfsmod.c that change the disk and return 0 or an error: a state and error
-- monad, in which what was written before an error stays written.
use cs111_ucla.Prelude.{ℕ}
use cs111_ucla.Ospfs.Disk.{Disk, load32, store32, memset_zero}
use cs111_ucla.Ospfs.Bitmap.{blksize, ospfs_block, allocate_block, free_block}

-- The error numbers that the module returns, negated.
pub data Errno : Type 0 where
  enospc eio eperm enametoolong eexist enoent efault einval enomem : Errno

-- `hang` stands for a loop whose fuel has run out, and for a panic of the kernel.
pub data Result (A : Type 0) : Type 0 where
  ok : A → Result A
  err : Errno → Result A
  hang : Result A

abbrev pub M : Type 0 → Type 0
M A = Disk → Result A × Disk

abbrev pub pure : {A : Type 0} → A → M A
pure a d = (ok a, d)

abbrev pub throw : {A : Type 0} → Errno → M A
throw e d = (err e, d)

abbrev pub continue : {A B : Type 0} → Result A → Disk → (A → M B) → Result B × Disk
continue (ok a) d f = f a d
continue (err e) d f = (err e, d)
continue hang d f = (hang, d)

infixl 5 ◌>>=◌ ◌>>◌
abbrev pub ◌>>=◌ : {A B : Type 0} → M A → (A → M B) → M B
◌>>=◌ m f d = continue (m d).0 (m d).1 f

abbrev pub ◌>>◌ : {B : Type 0} → M (Unit {0}) → M B → M B
m >> k = m >>= λ _. k

abbrev pub get : {A : Type 0} → (Disk → A) → M A
get f d = (ok (f d), d)

abbrev pub modify : (Disk → Disk) → M (Unit {0})
modify f d = (ok tt, f d)

-- A call whose answer the source does not look at.
abbrev pub ignored : Result (Unit {0}) × Disk → Result (Unit {0}) × Disk
ignored (ok _, d) = (ok tt, d)
ignored (err _, d) = (ok tt, d)
ignored (hang, d) = (hang, d)

abbrev pub get32 : ℕ → M ℕ
get32 a d = (ok (load32 d a), d)

abbrev pub put32 : ℕ → ℕ → M (Unit {0})
put32 a v d = (ok tt, store32 a v d)

-- memset(ospfs_block(b), 0, OSPFS_BLKSIZE).
abbrev pub zero_block : ℕ → M (Unit {0})
zero_block b d = (ok tt, memset_zero blksize (ospfs_block b) d)

abbrev pub allocate : M ℕ
allocate d = (ok (allocate_block d).0, (allocate_block d).1)

abbrev pub release : ℕ → M (Unit {0})
release b d = (ok tt, free_block b d)
