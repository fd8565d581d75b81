-- ===== src/Ospfs/Attributes/Follow.antt =====
-- Following a conditional symbolic link twice, with ospfs_follow_link of Lab3/ospfsmod.c.
use cs111_ucla.Prelude.{
  ℕ, zero, suc, ◌+◌, ◌≤◌, ◌<◌, ◌≡◌, ◌≢◌, refl, sym, ◌∙◌, ap, inl, inr, arith, Bool, true, false,
  Bool-cases, ◌==◌, update, update_self, update_ne, Option, none, some, List, [], ◌∷◌,
}
use cs111_ucla.Ospfs.Disk.{Disk}
use cs111_ucla.Ospfs.Names.{memcmp_is, length}
use cs111_ucla.Ospfs.Directory.Symlink.{oi_symlink}
use cs111_ucla.Ospfs.Attributes.{
  root_prefix, colon, strchr, set_link, null_write, follow_conditional, ospfs_follow_link,
}

some-inj : {m n : ℕ} → some m ≡ some n → m ≡ n
some-inj {m} {n} e = ground (arith, e)

-- What strchr finds, and that it finds nothing once that is a null character.
pub record Found (n c a : ℕ) (d : Disk) (p : ℕ) : Type 0 where
  pub after : a ≤ p
  pub holds : d p ≡ c
  pub first : (x : ℕ) → a ≤ x → x < p → d x ≢ c
  pub cut : strchr n c a (update d p 0) ≡ none

strchr-Found : (n c a : ℕ) (d : Disk) (p : ℕ) → c ≢ 0 → strchr n c a d ≡ some p → Found n c a d p
unfolding strchr
strchr-Found zero c a d p nz e = absurd (ground (arith, e))
strchr-Found (suc n) c a d p nz e = elim (Bool-cases (d a == c)) [
  | inl here ↦
      let q : strchr (suc n) c a d ≡ some a = rw (strchr, here) refl in
      let at : a ≡ p = some-inj (sym q ∙ e) in
      let zero_now : update d a 0 a ≡ 0 = update_self d a 0 in
      let not_colon : (update d a 0 a == c) ≡ false = ground (arith, zero_now) in
      let is_end : (update d a 0 a == 0) ≡ true = ground (arith, zero_now) in
      rw (← at) (record {
        after = omega arith;
        holds = ground arith;
        first = λ x lo hi. absurd (omega arith);
        cut = rw (strchr, not_colon, is_end) refl;
      })
  | inr other ↦ elim (Bool-cases (d a == 0)) [
    | inl ended ↦
        let q : strchr (suc n) c a d ≡ none = rw (strchr, other, ended) refl in
        absurd (ground (arith, sym q ∙ e))
    | inr more ↦
        let q : strchr (suc n) c a d ≡ strchr n c (a + 1) d = rw (strchr, other, more) refl in
        let f = strchr-Found n c (a + 1) d p nz (sym q ∙ e) in
        let same : update d p 0 a ≡ d a = update_ne d p a 0 (λ k. omega (arith, f.after)) in
        record {
          after = omega (arith, f.after);
          holds = f.holds;
          first = λ x lo hi. elim (Bool-cases (x == a)) [
            | inl this ↦ let at : x ≡ a = ground arith in rw at (λ k. ground arith)
            | inr later ↦ f.first x (ground arith) hi
          ];
          cut = rw (strchr, same, other, more) f.cut;
        }
  ]
]

memcmp_is-cut :
    (d : Disk) (p : ℕ) (name : List ℕ) (a : ℕ)
    → a + length name ≤ p
    → memcmp_is name a (update d p 0) ≡ memcmp_is name a d
unfolding memcmp_is length
memcmp_is-cut d p [] a h = refl
memcmp_is-cut d p (c ∷ cs) a h =
    rw (update_ne d p a 0 (λ k. omega arith), memcmp_is-cut d p cs (a + 1) (omega arith)) refl

-- A string that begins with "root?" has no colon in its first five characters.
behind_prefix :
    (d : Disk) (a p : ℕ) → memcmp_is root_prefix a d ≡ true → a ≤ p → d p ≡ colon → a + 5 ≤ p
unfolding memcmp_is
behind_prefix d a p m lo c =
    let apart : (b : ℕ) → d b ≢ colon → p ≢ b = λ b ne e. ne (ap d (sym e) ∙ c) in
    omega (
      arith,
      apart a (ground arith),
      apart (a + 1) (ground arith),
      apart (a + 1 + 1) (ground arith),
      apart (a + 1 + 1 + 1) (ground arith),
      apart (a + 1 + 1 + 1 + 1) (ground arith),
    )

-- A conditional link can be followed once: if its text begins with "root?" and
-- ospfs_follow_link has set a destination, then it has put a null character in the place of the colon, and following
-- the same link again writes to the null pointer.
pub follow_link_again :
    (oi a : ℕ) (d : Disk) (root root' : Bool)
    → memcmp_is root_prefix (oi_symlink oi) d ≡ true
    → (ospfs_follow_link root oi d).0 ≡ set_link a
    → (ospfs_follow_link root' oi (ospfs_follow_link root oi d).1).0 ≡ null_write
unfolding ospfs_follow_link length
follow_link_again oi a d root root' m e = by_colon (strchr 52 colon (oi_symlink oi) d) refl
  where
    follows :
        (r : Bool) (t : Disk) (o : Option ℕ)
        → memcmp_is root_prefix (oi_symlink oi) t ≡ true
        → strchr 52 colon (oi_symlink oi) t ≡ o
        → ospfs_follow_link r oi t ≡ follow_conditional r oi o t
    follows r t o n s = rw (ospfs_follow_link, n, s) refl

    cut_disk : (r : Bool) (p : ℕ) → (follow_conditional r oi (some p) d).1 ≡ update d p 0
    cut_disk true p = refl
    cut_disk false p = refl

    by_colon :
        (o : Option ℕ)
        → strchr 52 colon (oi_symlink oi) d ≡ o
        → (ospfs_follow_link root' oi (ospfs_follow_link root oi d).1).0 ≡ null_write
    by_colon none s = absurd (ground (arith, sym (ap (λ x. x.0) (follows root d none m s)) ∙ e))
    by_colon (some p) s =
        let f = strchr-Found 52 colon (oi_symlink oi) d p (λ k. omega arith) s in
        let far = behind_prefix d (oi_symlink oi) p m f.after f.holds in
        let still = memcmp_is-cut d p root_prefix (oi_symlink oi) far ∙ m in
        rw
          (
            follows root d (some p) m s,
            cut_disk root p,
            follows root' (update d p 0) none still f.cut,
          )
          refl
