-- ===== src/Mpos/Memory.antt =====
-- memcpy of WeensyOS1/lib.c, over a memory of bytes.
use native.Mathlib.Nat.{add-zero}
use cs111_ucla.Prelude.{
  ℕ, zero, suc, ◌+◌, ◌≤◌, ◌<◌, ◌≡◌, refl, ◌∙◌, ◌⊎◌, inl, arith, update, update_self, update_ne,
}

-- `while (n-- > 0) *d++ = *s++`.
unfoldable pub memcpy : ℕ → ℕ → ℕ → (ℕ → ℕ) → ℕ → ℕ
memcpy zero d s mem = mem
memcpy (suc n) d s mem = memcpy n (d + 1) (s + 1) (update mem d (mem s))

-- Outside of the target nothing changes.
pub memcpy_outside :
    (n d s a : ℕ) (mem : ℕ → ℕ) → (a < d) ⊎ (d + n ≤ a) → memcpy n d s mem a ≡ mem a
unfolding memcpy
memcpy_outside zero d s a mem h = refl
memcpy_outside (suc n) d s a mem h =
    memcpy_outside n (d + 1) (s + 1) a (update mem d (mem s)) (ground arith)
    ∙ update_ne mem d a (mem s) (ground arith)

-- The target holds what the source held, where the two do not meet.
pub memcpy_inside :
    (n d s i : ℕ) (mem : ℕ → ℕ)
    → (d + n ≤ s) ⊎ (s + n ≤ d)
    → i < n
    → memcpy n d s mem (d + i) ≡ mem (s + i)
unfolding memcpy
memcpy_inside zero d s i mem apart h = absurd (omega arith)
memcpy_inside (suc n) d s zero mem apart h =
    rw (add-zero d, add-zero s)
      (memcpy_outside n (d + 1) (s + 1) d (update mem d (mem s)) (inl (omega arith))
        ∙ update_self mem d (mem s))
memcpy_inside (suc n) d s (suc i) mem apart h =
    let e : d + suc i ≡ d + 1 + i = omega arith in
    let e' : s + suc i ≡ s + 1 + i = omega arith in
    rw (e, e')
      (memcpy_inside n (d + 1) (s + 1) i (update mem d (mem s)) (ground arith) (omega arith)
        ∙ update_ne mem d (s + 1 + i) (mem s) (ground arith))
