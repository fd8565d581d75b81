-- ===== src/Ospfs/Readdir/Entries.antt =====
-- The loop of ospfs_dir_readdir of Lab3/ospfsmod.c, in parts.
use mathlib.Core.List.{append_assoc}
use cs111_ucla.Prelude.{
  ℕ, zero, suc, ◌+◌, ◌-◌, ◌*◌, ◌/◌, ◌^◌, ◌≤◌, ◌≡◌, ◌≢◌, refl, sym, ◌∙◌, inl, inr, arith, true,
  Bool-cases, ltb, leb, List, [], ◌∷◌, ◌++◌, mul32, sub32,
}
use cs111_ucla.Ospfs.Disk.{Disk, load32}
use cs111_ucla.Ospfs.Index.{oi_size}
use cs111_ucla.Ospfs.Names.{direntry_size}
use cs111_ucla.Ospfs.Readdir.{
  Filldir, Filled, refused, Read, Step, ends, blank, unknown, no_inode, passes, entry_at,
  read_entries,
}

-- The filldir that takes all entries.
abbrev pub take_all : Filldir
take_all taken e = true

-- From position `p` on `fuel` rounds are enough, and the offset does not wrap around.
abbrev pub Enough : Disk → ℕ → ℕ → ℕ → Type 0
Enough d dir p fuel =
    ((2 ≤ p) × (p ≤ 2 ^ 24 + 3))
    × ((1 ≤ fuel) × (load32 d (oi_size dir) + 128 ≤ 128 * (p - 2) + 128 * fuel))

-- A round that does not stop leaves enough.
Enough-next :
    (d : Disk) (dir p fuel : ℕ)
    → load32 d (oi_size dir) ≤ 2 ^ 31
    → Enough d dir p (suc fuel)
    → entry_at dir p d ≢ ends
    → Enough d dir (p + 1) fuel
unfolding entry_at
Enough-next d dir p fuel small ((lo, hi), (some_fuel, e)) going =
    elim (Bool-cases (ltb (mul32 direntry_size (sub32 p 2)) (load32 d (oi_size dir)))) [
      | inl inside ↦ ((omega arith, ground arith), (ground arith, omega arith))
      | inr behind ↦
          let behind' : leb (load32 d (oi_size dir)) (mul32 direntry_size (sub32 p 2)) ≡ true =
            ground arith in
          absurd (going (rw behind' refl))
    ]

blank-going : blank ≢ ends
blank-going e = absurd (ground (arith, e))

passes-going : (f : Filled) → passes f ≢ ends
passes-going f e = absurd (ground (arith, e))

module _ (d : Disk) (dir : ℕ) (small : load32 d (oi_size dir) ≤ 2 ^ 31) (fill : Filldir) where
  -- Rounds that do not stop.
  skips :
      (fuel p : ℕ) (taken : List Filled)
      → entry_at dir p d ≡ blank
      → read_entries fill (suc fuel) dir d p taken ≡ read_entries fill fuel dir d (p + 1) taken
  unfolding read_entries
  skips fuel p taken s = rw (read_entries, s) refl

  takes :
      (fuel p : ℕ) (taken : List Filled) (e : Filled)
      → entry_at dir p d ≡ passes e
      → fill taken e ≡ true
      → read_entries fill (suc fuel) dir d p taken
        ≡ read_entries fill fuel dir d (p + 1) (taken ++ (e ∷ []))
  unfolding read_entries
  takes fuel p taken e s t = rw (read_entries, s, t) refl

  -- The fuel does not matter, if it is enough.
  any_fuel :
      (fuel fuel' p : ℕ) (taken : List Filled)
      → Enough d dir p fuel
      → Enough d dir p fuel'
      → read_entries fill fuel dir d p taken ≡ read_entries fill fuel' dir d p taken
  unfolding read_entries
  any_fuel zero fuel' p taken e e' = absurd (omega (arith, e))
  any_fuel (suc fuel) zero p taken e e' = absurd (omega (arith, e'))
  any_fuel (suc fuel) (suc fuel') p taken e e' = by_step (entry_at dir p d) refl λ t going.
      any_fuel fuel fuel' (p + 1) t (Enough-next d dir p fuel small e going)
        (Enough-next d dir p fuel' small e' going)
    where
      by_step :
          (s : Step)
          → entry_at dir p d ≡ s
          → ((t : List Filled)
              → entry_at dir p d ≢ ends
              → read_entries fill fuel dir d (p + 1) t ≡ read_entries fill fuel' dir d (p + 1) t)
          → read_entries fill (suc fuel) dir d p taken ≡ read_entries fill (suc fuel') dir d p taken
      by_step ends s rest = rw (read_entries, s) refl
      by_step unknown s rest = rw (read_entries, s) refl
      by_step no_inode s rest = rw (read_entries, s) refl
      by_step blank s rest =
          skips fuel p taken s
          ∙ rest taken (λ q. blank-going (sym s ∙ q))
          ∙ sym (skips fuel' p taken s)
      by_step (passes f) s rest = elim (Bool-cases (fill taken f)) [
        | inl fine ↦
            takes fuel p taken f s fine
            ∙ rest (taken ++ (f ∷ [])) (λ q. passes-going f (sym s ∙ q))
            ∙ sym (takes fuel' p taken f s fine)
        | inr full ↦ rw (read_entries, s, full) refl
      ]

-- The fuel of a call is enough for every position of the directory.
abbrev pub fuel_of : Disk → ℕ → ℕ
fuel_of d dir = load32 d (oi_size dir) / direntry_size + 2

pub fuel_of-Enough :
    (d : Disk) (dir p : ℕ) → 2 ≤ p → p ≤ 2 ^ 24 + 3 → Enough d dir p (fuel_of d dir)
fuel_of-Enough d dir p lo hi = ((lo, hi), (omega arith, omega arith))

-- What is read after a refusal, if everything is taken from there on.
abbrev pub Resumes : Disk → ℕ → Read → Read → Type 0
Resumes d dir r whole =
    r.stop ≡ refused
    → (((2 ≤ r.f_pos) × (r.f_pos ≤ 2 ^ 24 + 3))
        × (read_entries take_all (fuel_of d dir) dir d r.f_pos r.taken ≡ whole))

module _ (d : Disk) (dir : ℕ) (small : load32 d (oi_size dir) ≤ 2 ^ 31) (fill : Filldir) where
  pub resumes :
      (fuel p : ℕ) (taken : List Filled)
      → Enough d dir p fuel
      → Resumes d dir
          (read_entries fill fuel dir d p taken)
          (read_entries take_all fuel dir d p taken)
  unfolding read_entries
  resumes zero p taken e = absurd (omega (arith, e))
  resumes (suc fuel) p taken e =
      by_step (entry_at dir p d) refl
        λ t going. resumes fuel (p + 1) t (Enough-next d dir p fuel small e going)
    where
      by_step :
          (s : Step)
          → entry_at dir p d ≡ s
          → ((t : List Filled)
              → entry_at dir p d ≢ ends
              → Resumes d dir
                  (read_entries fill fuel dir d (p + 1) t)
                  (read_entries take_all fuel dir d (p + 1) t))
          → Resumes d dir
              (read_entries fill (suc fuel) dir d p taken)
              (read_entries take_all (suc fuel) dir d p taken)
      by_step ends s rest = rw (read_entries, s) λ q. absurd (ground (arith, q))
      by_step unknown s rest = rw (read_entries, s) λ q. absurd (ground (arith, q))
      by_step no_inode s rest = rw (read_entries, s) λ q. absurd (ground (arith, q))
      by_step blank s rest =
          rw (skips d dir small fill fuel p taken s, skips d dir small take_all fuel p taken s)
            (rest taken (λ q. blank-going (sym s ∙ q)))
      by_step (passes f) s rest = elim (Bool-cases (fill taken f)) [
        | inl fine ↦
            rw
              (
                takes d dir small fill fuel p taken f s fine,
                takes d dir small take_all fuel p taken f s refl,
              )
              (rest (taken ++ (f ∷ [])) (λ q. passes-going f (sym s ∙ q)))
        | inr full ↦
            let stopped : read_entries fill (suc fuel) dir d p taken
                ≡ record { f_pos = p; taken = taken; stop = refused } =
              rw (read_entries, s, full) refl in
            rw stopped λ q. (
              e.0,
              any_fuel d dir small take_all (fuel_of d dir) (suc fuel) p taken
                  (fuel_of-Enough d dir p e.0.0 e.0.1) e,
            )
      ]

-- What was taken before does not matter to a filldir that takes everything.
abbrev pub before : List Filled → Read → Read
before xs r = record r { taken = xs ++ r.taken }

pub prefixed :
    (d : Disk) (dir fuel p : ℕ) (xs ys : List Filled)
    → read_entries take_all fuel dir d p (xs ++ ys)
      ≡ before xs (read_entries take_all fuel dir d p ys)
unfolding read_entries
prefixed d dir zero p xs ys = refl
prefixed d dir (suc fuel) p xs ys =
    by_step (entry_at dir p d) refl (prefixed d dir fuel (p + 1) xs ys)
      λ e. prefixed d dir fuel (p + 1) xs (ys ++ (e ∷ []))
  where
    by_step :
        (s : Step)
        → entry_at dir p d ≡ s
        → read_entries take_all fuel dir d (p + 1) (xs ++ ys)
          ≡ before xs (read_entries take_all fuel dir d (p + 1) ys)
        → ((e : Filled)
            → read_entries take_all fuel dir d (p + 1) (xs ++ (ys ++ (e ∷ [])))
              ≡ before xs (read_entries take_all fuel dir d (p + 1) (ys ++ (e ∷ []))))
        → read_entries take_all (suc fuel) dir d p (xs ++ ys)
          ≡ before xs (read_entries take_all (suc fuel) dir d p ys)
    by_step ends s skip take = rw (read_entries, s) refl
    by_step unknown s skip take = rw (read_entries, s) refl
    by_step no_inode s skip take = rw (read_entries, s) refl
    by_step blank s skip take = rw (read_entries, s) skip
    by_step (passes e) s skip take = rw (read_entries, s, append_assoc xs ys (e ∷ [])) (take e)
