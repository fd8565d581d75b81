-- ===== src/Ospfs/Names/Strings.antt =====
-- The names that Lab3/ospfsmod.c stores in directory entries.
use cs111_ucla.Prelude.{
  ℕ, zero, suc, ◌+◌, ◌≤◌, ◌<◌, ◌≡◌, ◌≢◌, refl, ◌∙◌, ap, inl, arith, true, false, ◌&&◌, ◌==◌, update,
  update_self, update_ne, [], ◌∷◌,
}
use cs111_ucla.Ospfs.Disk.{Disk, load32, Outside}
use cs111_ucla.Ospfs.Names.{Name, length, strlen_is, memcmp_is, strncpy, is_named}

-- A name has no null character.
abbrev pub NoNull : Name → Type 0
NoNull [] = Unit
NoNull (c ∷ cs) = (c ≢ 0) × NoNull cs

-- The string at `a` is the name.
abbrev pub Holds : Name → ℕ → Disk → Type 0
Holds [] a d = d a ≡ 0
Holds (c ∷ cs) a d = (c ≢ 0) × ((d a ≡ c) × Holds cs (a + 1) d)

pub strncpy-Outside :
    (name : Name) (a : ℕ) (d : Disk) → NoNull name → Outside a (length name) d (strncpy name a d)
unfolding strncpy length
strncpy-Outside [] a d n x h = refl
strncpy-Outside (c ∷ cs) a d (nz, n) x h =
    let test : (c == 0) ≡ false = ground arith in
    rw test (
      strncpy-Outside cs (a + 1) (update d a c) n x (ground arith)
      ∙ update_ne d a x c (ground arith))

shifted :
    (a b : ℕ) (d d' : Disk) (n : ℕ)
    → ((x : ℕ) → x ≤ suc n → d' (b + x) ≡ d (a + x))
    → (x : ℕ) → x ≤ n
    → d' (b + 1 + x) ≡ d (a + 1 + x)
shifted a b d d' n same x l =
    let to : b + 1 + x ≡ b + suc x = omega arith in
    let from : a + 1 + x ≡ a + suc x = omega arith in rw (to, from) (same (suc x) (omega arith))

at_start : (a b : ℕ) (d d' : Disk) → d' (b + 0) ≡ d (a + 0) → d' b ≡ d a
at_start a b d d' h = ap d' (omega arith) ∙ h ∙ ap d (omega arith)

pub Holds-same :
    (name : Name) (a : ℕ) (d d' : Disk)
    → ((x : ℕ) → x ≤ length name → d' (a + x) ≡ d (a + x))
    → Holds name a d
    → Holds name a d'
unfolding length
Holds-same [] a d d' same h = at_start a a d d' (same 0 (omega arith)) ∙ h
Holds-same (c ∷ cs) a d d' same (nz, (e, h)) = (
  nz,
  (
    at_start a a d d' (same 0 (omega arith)) ∙ e,
    Holds-same cs (a + 1) d d' (shifted a a d d' (length cs) same) h,
  ),
)

-- Copying a name and its terminator stores the name.
pub strncpy-Holds :
    (name : Name) (a : ℕ) (d : Disk)
    → NoNull name
    → Holds name a (update (strncpy name a d) (a + length name) 0)
unfolding strncpy length
strncpy-Holds [] a d n = ground arith
strncpy-Holds (c ∷ cs) a d (nz, n) =
    let test : (c == 0) ≡ false = ground arith in
    let at : a + suc (length cs) ≡ a + 1 + length cs = omega arith in
    let copied = strncpy cs (a + 1) (update d a c) in
    let first : update copied (a + 1 + length cs) 0 a ≡ c =
      update_ne copied (a + 1 + length cs) a 0 (λ e. omega arith)
      ∙ strncpy-Outside cs (a + 1) (update d a c) n a (inl (omega arith))
      ∙ update_self d a c in
    rw (test, at) (nz, (first, strncpy-Holds cs (a + 1) (update d a c) n))

-- A stored name is the one that the tests of find_direntry find.
pub Holds-found :
    (name : Name) (a : ℕ) (d : Disk)
    → Holds name a d
    → (strlen_is (length name) a d && memcmp_is name a d) ≡ true
unfolding strlen_is memcmp_is length
Holds-found [] a d h = ground arith
Holds-found (c ∷ cs) a d (nz, (e, h)) = ground (arith, Holds-found cs (a + 1) d h)

pub found-Holds :
    (name : Name) (a : ℕ) (d : Disk)
    → (strlen_is (length name) a d && memcmp_is name a d) ≡ true
    → Holds name a d
unfolding strlen_is memcmp_is length
found-Holds [] a d h = ground arith
found-Holds (c ∷ cs) a d h = (ground arith, (ground arith, found-Holds cs (a + 1) d (ground arith)))

-- And they find no other name there.
pub Holds-unique :
    (name other : Name) (a : ℕ) (d : Disk)
    → Holds name a d
    → (strlen_is (length other) a d && memcmp_is other a d) ≡ true
    → other ≡ name
unfolding strlen_is memcmp_is length
Holds-unique [] [] a d h t = refl
Holds-unique [] (c ∷ cs) a d h t = absurd (ground arith)
Holds-unique (c ∷ cs) [] a d (nz, (e, h)) t = absurd (ground arith)
Holds-unique (c ∷ cs) (b ∷ bs) a d (nz, (e, h)) t =
    let first : b ≡ c = ground arith in
    let rest = Holds-unique cs bs (a + 1) d h (ground arith) in cc

strlen_is-same :
    (n a b : ℕ) (d d' : Disk)
    → ((x : ℕ) → x ≤ n → d' (b + x) ≡ d (a + x))
    → strlen_is n b d' ≡ strlen_is n a d
unfolding strlen_is
strlen_is-same zero a b d d' same = ground (arith, same 0)
strlen_is-same (suc n) a b d d' same =
    ground (arith, same 0, strlen_is-same n (a + 1) (b + 1) d d' (shifted a b d d' n same))

memcmp_is-same :
    (name : Name) (a b : ℕ) (d d' : Disk)
    → ((x : ℕ) → x ≤ length name → d' (b + x) ≡ d (a + x))
    → memcmp_is name b d' ≡ memcmp_is name a d
unfolding memcmp_is length
memcmp_is-same [] a b d d' same = refl
memcmp_is-same (c ∷ cs) a b d d' same =
    ground
      (arith, same 0, memcmp_is-same cs (a + 1) (b + 1) d d' (shifted a b d d' (length cs) same))

pub load32-moved :
    (a b : ℕ) (d d' : Disk) → ((x : ℕ) → x < 4 → d' (b + x) ≡ d (a + x)) → load32 d' b ≡ load32 d a
unfolding load32
load32-moved a b d d' same = omega (
  arith,
  at_start a b d d' (same 0 (omega arith)),
  same 1 (omega arith),
  same 2 (omega arith),
  same 3 (omega arith),
)

-- The tests look at the inode number and at the name's bytes only.
pub is_named-same :
    (name : Name) (a b : ℕ) (d d' : Disk)
    → ((x : ℕ) → x < length name + 5 → d' (b + x) ≡ d (a + x))
    → is_named b name d' ≡ is_named a name d
is_named-same name a b d d' same =
    let name_bytes : (x : ℕ) → x ≤ length name → d' (b + 4 + x) ≡ d (a + 4 + x) = λ x l.
      let to : b + 4 + x ≡ b + (4 + x) = omega arith in
      let from : a + 4 + x ≡ a + (4 + x) = omega arith in
      rw (to, from) (same (4 + x) (omega arith)) in
    rw
      (
        load32-moved a b d d' (λ x l. same x (omega arith)),
        strlen_is-same (length name) (a + 4) (b + 4) d d' name_bytes,
        memcmp_is-same name (a + 4) (b + 4) d d' name_bytes,
      )
      refl
