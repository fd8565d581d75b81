-- ===== src/Ospfs/Disk.antt =====
-- The disk image of Lab3/ospfsmod.c, `ospfs_data`, as a memory of bytes. A pointer into it is a
-- byte offset; a uint32_t is stored lowest byte first, as on the i386 that the module runs on.
use cs111_ucla.Prelude.{
  ℕ, zero, suc, ◌+◌, ◌*◌, ◌/◌, ◌%◌, ◌≤◌, ◌<◌, ◌≡◌, refl, ◌∙◌, ◌⊎◌, inl, inr, arith, update,
  update_self, update_ne, u32_mod,
}

abbrev pub Disk : Type 0
Disk = ℕ → ℕ

unfoldable pub load32 : Disk → ℕ → ℕ
load32 d a = d a + 0x100 * d (a + 1) + 0x10000 * d (a + 2) + 0x1000000 * d (a + 3)

pub store32 : ℕ → ℕ → Disk → Disk
store32 a v d =
    update
      (update (update (update d a (v % 0x100)) (a + 1) (v / 0x100 % 0x100)) (a + 2)
        (v / 0x10000 % 0x100))
      (a + 3) (v / 0x1000000 % 0x100)

-- memset(&ospfs_data[a], 0, n).
pub memset_zero : ℕ → ℕ → Disk → Disk
memset_zero zero a d = d
memset_zero (suc n) a d = memset_zero n (a + 1) (update d a 0)

-- The two images differ at most in the `n` bytes from `a` on.
abbrev pub Outside : ℕ → ℕ → Disk → Disk → Type 0
Outside a n d d' = (x : ℕ) → (x < a) ⊎ (a + n ≤ x) → d' x ≡ d x

pub store32-Outside : (a v : ℕ) (d : Disk) → Outside a 4 d (store32 a v d)
unfolding store32
store32-Outside a v d x h = ground arith

pub memset_zero-Outside : (n a : ℕ) (d : Disk) → Outside a n d (memset_zero n a d)
unfolding memset_zero
memset_zero-Outside zero a d x h = refl
memset_zero-Outside (suc n) a d x h =
    memset_zero-Outside n (a + 1) (update d a 0) x (ground arith) ∙ update_ne d a x 0 (ground arith)

pub memset_zero-inside : (n a x : ℕ) (d : Disk) → a ≤ x → x < a + n → memset_zero n a d x ≡ 0
unfolding memset_zero
memset_zero-inside zero a x d lo hi = absurd (omega arith)
memset_zero-inside (suc n) a x d lo hi = elim (eq_or_lt a x lo) [
  | inl e ↦
      memset_zero-Outside n (a + 1) (update d a 0) x (inl (omega arith))
      ∙ (rw (← e) (update_self d a 0))
  | inr l ↦ memset_zero-inside n (a + 1) x (update d a 0) (omega arith) (omega arith)
]
  where
    eq_or_lt : (a x : ℕ) → a ≤ x → (a ≡ x) ⊎ (a < x)
    eq_or_lt a x h = ground arith

pub load32-store32 : (a v : ℕ) (d : Disk) → load32 (store32 a v d) a ≡ v % u32_mod
unfolding load32 store32
load32-store32 a v d = ground arith

-- A word that does not meet the changed range reads as before.
pub load32-Outside :
    (a n b : ℕ) (d d' : Disk)
    → Outside a n d d'
    → (b + 4 ≤ a) ⊎ (a + n ≤ b)
    → load32 d' b ≡ load32 d b
unfolding load32
load32-Outside a n b d d' o h = ground (arith, o b, o (b + 1), o (b + 2), o (b + 3))

-- The loads of a word whose bytes agree.
pub load32-zero : (n a b : ℕ) (d : Disk) → a ≤ b → b + 4 ≤ a + n → load32 (memset_zero n a d) b ≡ 0
unfolding load32
load32-zero n a b d lo hi = omega (
  arith,
  memset_zero-inside n a b d lo (omega arith),
  memset_zero-inside n a (b + 1) d (omega arith) (omega arith),
  memset_zero-inside n a (b + 2) d (omega arith) (omega arith),
  memset_zero-inside n a (b + 3) d (omega arith) (omega arith),
)

-- A word whose four bytes agree reads the same.
pub load32-bytes :
    (a : ℕ) (d d' : Disk) → ((x : ℕ) → a ≤ x → x < a + 4 → d' x ≡ d x) → load32 d' a ≡ load32 d a
unfolding load32
load32-bytes a d d' h = omega (
  arith,
  h a (omega arith) (omega arith),
  h (a + 1) (omega arith) (omega arith),
  h (a + 2) (omega arith) (omega arith),
  h (a + 3) (omega arith) (omega arith),
)
