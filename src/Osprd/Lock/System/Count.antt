-- ===== src/Osprd/Lock/System/Count.antt =====
-- Counting the locked files of a ramdisk, for the proofs about Lab2/osprd.c.
use cs111_ucla.Prelude.{
  ℕ, zero, suc, ◌+◌, ◌≤◌, ◌<◌, ◌≡◌, ◌≢◌, ◌==◌, refl, sym, ap, inl, inr, Bool, true, false, not,
  ◌&&◌, if◌then◌else◌, Bool-cases, update, update_self, update_ne, arith,
}
use cs111_ucla.Osprd.Lock.{File}

abbrev bit : Bool → ℕ
bit b = if b then 1 else 0

abbrev pub is_locked_writer : File → Bool
is_locked_writer f = f.locked && f.writable

abbrev pub is_locked_reader : File → Bool
is_locked_reader f = f.locked && not f.writable

-- How many of the first `n` files satisfy a test.
pub count : (File → Bool) → ℕ → (ℕ → File) → ℕ
count p zero files = 0
count p (suc n) files = count p n files + bit (p (files n))

count-other :
    (p : File → Bool) (n i : ℕ) (files : ℕ → File) (v : File)
    → n ≤ i
    → count p n (update files i v) ≡ count p n files
unfolding count
count-other p zero i files v h = refl
count-other p (suc n) i files v h =
    rw (update_ne files i n v (omega arith), count-other p n i files v (omega arith)) refl

pub count-update :
    (p : File → Bool) (n i : ℕ) (files : ℕ → File) (v : File)
    → i < n
    → count p n (update files i v) + bit (p (files i)) ≡ count p n files + bit (p v)
unfolding count
count-update p zero i files v h = absurd (omega arith)
count-update p (suc n) i files v h = elim (Bool-cases (i == n)) [
  | inl last ↦
      let e : i ≡ n = ground arith in
      let here : bit (p (update files i v n)) ≡ bit (p v) =
        rw (sym e) (ap (λ g. bit (p g)) (update_self files i v)) in
      let there : bit (p (files i)) ≡ bit (p (files n)) = ap (λ k. bit (p (files k))) e in
      omega (arith, count-other p n i files v (omega arith), here, there)
  | inr earlier ↦
      let ne : i ≢ n = ground arith in
      let kept : bit (p (update files i v n)) ≡ bit (p (files n)) =
        ap (λ g. bit (p g)) (update_ne files i n v ne) in
      omega (arith, count-update p n i files v (omega arith), kept)
]

pub count-positive :
    (p : File → Bool) (n i : ℕ) (files : ℕ → File)
    → i < n
    → p (files i) ≡ true
    → 0 < count p n files
unfolding count
count-positive p zero i files h t = absurd (omega arith)
count-positive p (suc n) i files h t = elim (Bool-cases (i == n)) [
  | inl last ↦
      let e : i ≡ n = ground arith in
      let one : bit (p (files n)) ≡ 1 = rw (sym e, t) refl in omega (arith, one)
  | inr earlier ↦ let found = count-positive p n i files (ground arith) t in omega arith
]

pub unlocked_count :
    (p : File → Bool) (n : ℕ) (files : ℕ → File)
    → ((f : ℕ) → p (files f) ≡ false)
    → count p n files ≡ 0
unfolding count
unlocked_count p zero files h = refl
unlocked_count p (suc n) files h =
    let last : bit (p (files n)) ≡ 0 = rw (h n) refl in
    omega (arith, unlocked_count p n files h, last)
