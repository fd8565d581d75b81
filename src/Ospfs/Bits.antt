-- ===== src/Ospfs/Bits.antt =====
-- The digit laws of `|`, `&` and `~` on words, by which the bit vector operations of
-- Lab3/ospfsmod.c are read.
use Prim.Native.Nat.{digits, bit_and, bit_or, bit_and-bitwise, bit_or-bitwise, min, max}
use native.Mathlib.Nat.{pow-suc}
use cs111_ucla.Prelude.{
  ℕ, zero, suc, ◌+◌, ◌*◌, ◌/◌, ◌%◌, ◌-◌, ◌^◌, ◌≤◌, ◌<◌, ◌≡◌, refl, ap, arith, Bool, true, ◌&&◌,
  ◌==◌, ==_iff, if◌then◌else◌,
}

-- The recursion of the native operations does not depend on its count, once that is enough.
digits_enough :
    (z : ℕ → ℕ) (f : ℕ → ℕ → ℕ) (n m a b : ℕ) → a ≤ n → a ≤ m → digits z f n a b ≡ digits z f m a b
digits_enough z f zero zero a b p q = refl
digits_enough z f zero (suc m) zero b p q = refl
digits_enough z f zero (suc m) (suc a) b p q = absurd (omega arith)
digits_enough z f (suc n) zero zero b p q = refl
digits_enough z f (suc n) zero (suc a) b p q = absurd (omega arith)
digits_enough z f (suc n) (suc m) zero b p q = refl
digits_enough z f (suc n) (suc m) (suc a) b p q =
    ap (λ (t : ℕ). t * 2 + f (suc a % 2) (b % 2))
      (digits_enough z f n m (suc a / 2) (b / 2) (omega arith) (omega arith))

and_zero_left : (b : ℕ) → bit_and 0 b ≡ 0
and_zero_left b = bit_and-bitwise 0 b

or_zero_left : (b : ℕ) → bit_or 0 b ≡ b
or_zero_left b = bit_or-bitwise 0 b

-- The lowest digit, and the rest.
pub and_digit : (a b : ℕ) → bit_and a b ≡ bit_and (a / 2) (b / 2) * 2 + min (a % 2) (b % 2)
and_digit zero b = omega (arith, and_zero_left b, and_zero_left (b / 2))
and_digit (suc a) b = omega (
  arith,
  bit_and-bitwise (suc a) b,
  bit_and-bitwise (suc a / 2) (b / 2),
  digits_enough (λ b. zero) min a (suc a / 2) (suc a / 2) (b / 2) (omega arith) (omega arith),
)

pub or_digit : (a b : ℕ) → bit_or a b ≡ bit_or (a / 2) (b / 2) * 2 + max (a % 2) (b % 2)
or_digit zero b = omega (arith, or_zero_left b, or_zero_left (b / 2))
or_digit (suc a) b = omega (
  arith,
  bit_or-bitwise (suc a) b,
  bit_or-bitwise (suc a / 2) (b / 2),
  digits_enough (λ b. b) max a (suc a / 2) (suc a / 2) (b / 2) (omega arith) (omega arith),
)

-- The digit number `k`.
pub digit : ℕ → ℕ → ℕ
digit a zero = a % 2
digit a (suc k) = digit (a / 2) k

pub digit-lt : (a k : ℕ) → digit a k < 2
unfolding digit
digit-lt a zero = omega arith
digit-lt a (suc k) = digit-lt (a / 2) k

pub digit-bit_and : (a b k : ℕ) → digit (bit_and a b) k ≡ min (digit a k) (digit b k)
unfolding digit
digit-bit_and a b zero = omega (arith, and_digit a b)
digit-bit_and a b (suc k) =
    let half : bit_and a b / 2 ≡ bit_and (a / 2) (b / 2) = omega (arith, and_digit a b) in
    rw half (digit-bit_and (a / 2) (b / 2) k)

pub digit-bit_or : (a b k : ℕ) → digit (bit_or a b) k ≡ max (digit a k) (digit b k)
unfolding digit
digit-bit_or a b zero = omega (arith, or_digit a b)
digit-bit_or a b (suc k) =
    let half : bit_or a b / 2 ≡ bit_or (a / 2) (b / 2) = omega (arith, or_digit a b) in
    rw half (digit-bit_or (a / 2) (b / 2) k)

and_zero_right : (k a : ℕ) → a ≤ k → bit_and a 0 ≡ 0
and_zero_right k zero h = refl
and_zero_right zero (suc a) h = absurd (omega arith)
and_zero_right (suc k) (suc a) h =
    omega (arith, and_digit (suc a) 0, and_zero_right k (suc a / 2) (omega arith))

-- `a & (1 << k)` is not zero exactly when the digit `k` of `a` is one.
pub and_power : (k a : ℕ) → bit_and a (2 ^ k) ≡ digit a k * 2 ^ k
unfolding digit
and_power zero a = omega (arith, and_digit a 1, and_zero_right (a / 2) (a / 2) (omega arith))
and_power (suc k) a =
    let e : 2 ^ suc k ≡ 2 * 2 ^ k = omega (arith, pow-suc 2 k) in
    let half : 2 ^ suc k / 2 ≡ 2 ^ k = omega (arith, e) in
    omega (
      arith,
      and_digit a (2 ^ suc k),
      ap (λ (t : ℕ). bit_and (a / 2) t) half,
      and_power k (a / 2),
      ap (λ (t : ℕ). digit (a / 2) k * t) e,
      e,
    )

-- The digits below `n` are those of the remainder by 2 ^ n.
mod_half : (m v : ℕ) → 0 < m → (v % (2 * m) / 2 ≡ v / 2 % m) × (v % (2 * m) % 2 ≡ v % 2)
mod_half m v h = grind arith

pow_pos : (n : ℕ) → 0 < 2 ^ n
pow_pos zero = omega arith
pow_pos (suc n) = omega (arith, pow-suc 2 n, pow_pos n)

pub digit-mod : (n j v : ℕ) → j < n → digit (v % 2 ^ n) j ≡ digit v j
unfolding digit
digit-mod zero j v h = absurd (omega arith)
digit-mod (suc n) zero v h =
    let e : 2 ^ suc n ≡ 2 * 2 ^ n = omega (arith, pow-suc 2 n) in
    rw e (mod_half (2 ^ n) v (pow_pos n)).1
digit-mod (suc n) (suc j) v h =
    let e : 2 ^ suc n ≡ 2 * 2 ^ n = omega (arith, pow-suc 2 n) in
    rw e (rw (mod_half (2 ^ n) v (pow_pos n)).0 (digit-mod n j (v / 2) (omega arith)))

-- 1 << k, and the mask ~(1 << k) of a word.
abbrev pub one_at : ℕ → ℕ
one_at k = 2 ^ k

abbrev pub zero_at : ℕ → ℕ
zero_at k = 2 ^ 32 - 1 - 2 ^ k

-- A test of all numbers below a bound, by evaluation.
every : (ℕ → Bool) → ℕ → Bool
every check zero = true
every check (suc bound) = every check bound && check bound

every_at : (check : ℕ → Bool) (bound k : ℕ) → k < bound → every check bound ≡ true → check k ≡ true
unfolding every
every_at check zero k inside done = absurd (omega arith)
every_at check (suc bound) k inside done = ground (arith, every_at check bound k)

-- The digits of the masks, digit by digit.
one_digit : ℕ → ℕ → Bool
unfolding digit
one_digit k j = digit (one_at k) j == (if k == j then 1 else 0)

zero_digit : ℕ → ℕ → Bool
unfolding digit
zero_digit k j = digit (zero_at k) j == (if k == j then 0 else 1)

ones_table : every (λ k. every (one_digit k) 32) 32 ≡ true
unfolding every one_digit digit
ones_table = refl

zeros_table : every (λ k. every (zero_digit k) 32) 32 ≡ true
unfolding every zero_digit digit
zeros_table = refl

pub digit-one_at : (k j : ℕ) → k < 32 → j < 32 → digit (one_at k) j ≡ (if k == j then 1 else 0)
unfolding one_digit
digit-one_at k j hk hj =
    (==_iff _ _).0
      (every_at (one_digit k) 32 j hj (every_at (λ i. every (one_digit i) 32) 32 k hk ones_table))

pub digit-zero_at : (k j : ℕ) → k < 32 → j < 32 → digit (zero_at k) j ≡ (if k == j then 0 else 1)
unfolding zero_digit
digit-zero_at k j hk hj =
    (==_iff _ _).0 (
      every_at (zero_digit k) 32 j hj (every_at (λ i. every (zero_digit i) 32) 32 k hk zeros_table))
