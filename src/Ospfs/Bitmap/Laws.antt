-- ===== src/Ospfs/Bitmap/Laws.antt =====
-- What the bit vector operations of Lab3/ospfsmod.c do to each bit, and to the rest of the disk.
use Prim.Native.Nat.{bit_and, bit_or}
use native.Mathlib.Nat.{one-le-pow}
use cs111_ucla.Prelude.{
  ℕ, zero, suc, ◌+◌, ◌*◌, ◌/◌, ◌%◌, ◌^◌, ◌≤◌, ◌<◌, ◌≡◌, ◌≢◌, ap, ◌⊎◌, inl, inr, arith, true, false,
  not, ◌==◌, if◌then◌else◌, Bool-cases,
}
use cs111_ucla.Ospfs.Disk.{
  Disk, load32, store32, Outside, store32-Outside, load32-store32, load32-Outside,
}
use cs111_ucla.Ospfs.Bits.{
  digit, one_at, zero_at, digit-lt, digit-bit_and, digit-bit_or, and_power, digit-mod, digit-one_at,
  digit-zero_at,
}
use cs111_ucla.Ospfs.Bitmap.{bitvector_set, bitvector_clear, bitvector_test}

pow_ne_zero : (k : ℕ) → 0 < 2 ^ k
pow_ne_zero k = one-le-pow k 2 (omega arith)

-- A test reads one digit of one word.
pub test_digit :
    (vector i : ℕ) (d : Disk)
    → bitvector_test vector i d ≡ (digit (load32 d (vector + 4 * (i / 32))) (i % 32) == 1)
unfolding bitvector_test
test_digit vector i d =
    let w = load32 d (vector + 4 * (i / 32)) in
    rw (and_power (i % 32) w)
      (by_cases (digit w (i % 32)) (2 ^ (i % 32)) (digit-lt w (i % 32)) (pow_ne_zero (i % 32)))
  where
    by_cases : (x p : ℕ) → x < 2 → 0 < p → not (x * p == 0) ≡ (x == 1)
    by_cases zero p h l = ground arith
    by_cases (suc zero) p h l = ground arith
    by_cases (suc (suc x)) p h l = absurd (omega arith)

-- The word that an operation stores, read back.
module _ (vector i v : ℕ) (d : Disk) where
  abbrev word : ℕ
  word = vector + 4 * (i / 32)

  test-store_same :
      (j : ℕ)
      → i / 32 ≡ j / 32
      → bitvector_test vector j (store32 word v d) ≡ (digit v (j % 32) == 1)
  test-store_same j e =
      rw (test_digit vector j (store32 word v d), ← e, load32-store32 word v d)
        (rw (digit-mod 32 (j % 32) v (omega arith)))

  test-store_other :
      (j : ℕ)
      → i / 32 ≢ j / 32
      → bitvector_test vector j (store32 word v d) ≡ bitvector_test vector j d
  test-store_other j ne =
      rw (test_digit vector j (store32 word v d), test_digit vector j d)
        (rw (
          load32-Outside word 4 (vector + 4 * (j / 32)) d (store32 word v d)
            (store32-Outside word v d) (apart (i / 32) (j / 32) ne)))
    where
      apart :
          (a b : ℕ)
          → a ≢ b
          → (vector + 4 * b + 4 ≤ vector + 4 * a) ⊎ (vector + 4 * a + 4 ≤ vector + 4 * b)
      apart a b h = ground arith

-- Clearing a bit clears that bit and no other.
pub test-clear :
    (vector i j : ℕ) (d : Disk)
    → bitvector_test vector j (bitvector_clear vector i d)
      ≡ (if i == j then false else bitvector_test vector j d)
unfolding bitvector_clear
test-clear vector i j d =
    let w = load32 d (vector + 4 * (i / 32)) in
    let v = bit_and w (zero_at (i % 32)) in
    elim (Bool-cases (i / 32 == j / 32)) [
      | inl same ↦
          let e : i / 32 ≡ j / 32 = ground arith in
          ground (
            arith,
            e,
            test-store_same vector i v d j e,
            test_digit vector j d,
            ap (λ t. load32 d (vector + 4 * t)) e,
            digit-bit_and w (zero_at (i % 32)) (j % 32),
            digit-zero_at (i % 32) (j % 32) (omega arith) (omega arith),
            digit-lt w (j % 32),
          )
      | inr other ↦
          let ne : i / 32 ≢ j / 32 = ground arith in
          rw (test-store_other vector i v d j ne)
            (ground (arith, λ (e : i ≡ j). ap (λ (t : ℕ). t / 32) e))
    ]

-- Setting a bit sets that bit and no other.
pub test-set :
    (vector i j : ℕ) (d : Disk)
    → bitvector_test vector j (bitvector_set vector i d)
      ≡ (if i == j then true else bitvector_test vector j d)
unfolding bitvector_set
test-set vector i j d =
    let w = load32 d (vector + 4 * (i / 32)) in
    let v = bit_or w (one_at (i % 32)) in
    elim (Bool-cases (i / 32 == j / 32)) [
      | inl same ↦
          let e : i / 32 ≡ j / 32 = ground arith in
          ground (
            arith,
            e,
            test-store_same vector i v d j e,
            test_digit vector j d,
            ap (λ t. load32 d (vector + 4 * t)) e,
            digit-bit_or w (one_at (i % 32)) (j % 32),
            digit-one_at (i % 32) (j % 32) (omega arith) (omega arith),
            digit-lt w (j % 32),
          )
      | inr other ↦
          let ne : i / 32 ≢ j / 32 = ground arith in
          rw (test-store_other vector i v d j ne)
            (ground (arith, λ (e : i ≡ j). ap (λ (t : ℕ). t / 32) e))
    ]

-- Nothing but the word of the bit is touched.
pub bitvector_clear-Outside :
    (vector i : ℕ) (d : Disk) → Outside (vector + 4 * (i / 32)) 4 d (bitvector_clear vector i d)
unfolding bitvector_clear
bitvector_clear-Outside vector i d = store32-Outside (vector + 4 * (i / 32)) _ d

pub bitvector_set-Outside :
    (vector i : ℕ) (d : Disk) → Outside (vector + 4 * (i / 32)) 4 d (bitvector_set vector i d)
unfolding bitvector_set
bitvector_set-Outside vector i d = store32-Outside (vector + 4 * (i / 32)) _ d
