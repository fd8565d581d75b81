-- ===== src/Osprd/Lock/Laws.antt =====
-- Single operations on the lock of Lab2/osprd.c.
use mathlib.Core.Bool.{false≢true}
use cs111_ucla.Prelude.{
  ℕ, ◌<◌, ◌≡◌, ◌≢◌, refl, ◌⊎◌, inl, inr, Bool, true, false, ◌==◌, add32, List, [], ◌∷◌, arith,
  Bool-cases,
}
use cs111_ucla.Osprd.Lock.{
  File, Osprd, for_each_open_file, in_progress, condition, grant, take_ticket, count_lock,
  uncount_lock, is_deadlock, must_wait, osprd_ioctl, acquire, try_acquire, release,
}

-- The locks that are held: one writer and no reader, or no writer.
abbrev pub IsExclusive : Osprd → Type 0
IsExclusive d = (d.write_locks ≡ 0) ⊎ ((d.write_locks ≡ 1) × (d.read_locks ≡ 0))

-- Looking at the open files changes the two flags only.
pub for_each_open_file-keeps :
    (files : List File) (d : Osprd)
    → ((for_each_open_file files d).ticket_head ≡ d.ticket_head)
      × ((for_each_open_file files d).ticket_tail ≡ d.ticket_tail)
      × ((for_each_open_file files d).write_locks ≡ d.write_locks)
      × ((for_each_open_file files d).read_locks ≡ d.read_locks)
      × ((for_each_open_file files d).write_owner ≡ d.write_owner)
unfolding for_each_open_file
for_each_open_file-keeps [] d = (refl, refl, refl, refl, refl)
for_each_open_file-keeps (f ∷ rest) d = for_each_open_file-keeps rest (in_progress f d)

-- A task that need not wait finds no lock in its way.
pub free_locks :
    (ticket : ℕ) (writable : Bool) (d : Osprd)
    → must_wait ticket writable d ≡ false
    → (d.write_locks ≡ 0) × (writable ≡ true → d.read_locks ≡ 0)
free_locks ticket true d free = (ground arith, λ w. ground arith)
free_locks ticket false d free = (ground arith, λ w. absurd (false≢true w))

pub count_lock-IsExclusive :
    (pid : ℕ) (writable : Bool) (d : Osprd)
    → (d.write_locks ≡ 0) × (writable ≡ true → d.read_locks ≡ 0)
    → IsExclusive (count_lock pid writable d)
count_lock-IsExclusive pid true d (w, r) = inr (omega arith, r refl)
count_lock-IsExclusive pid false d (w, r) = inl w

take_ticket-IsExclusive :
    (files : List File) (d : Osprd) → IsExclusive d → IsExclusive (take_ticket files d)
take_ticket-IsExclusive files d x =
    let (_, _, w, r, _) =
      for_each_open_file-keeps files
        (record d { ticket_head = add32 d.ticket_head 1; read_ids = 0; write_ids = 0 }) in
    rw (w, r) x

-- The lock that a file holds is counted.
abbrev pub IsCounted : File → Osprd → Type 0
IsCounted filp d =
    filp.locked ≡ true
    → ((filp.writable ≡ true) × (d.write_locks ≡ 1))
      ⊎ ((filp.writable ≡ false) × (0 < d.read_locks) × (d.write_locks ≡ 0))

pub uncount_lock-IsExclusive :
    (filp : File) (d : Osprd)
    → filp.locked ≡ true
    → IsCounted filp d
    → IsExclusive (uncount_lock filp.writable d)
uncount_lock-IsExclusive filp d held c = elim (c held) [
  | inl (w, one) ↦ inl (ground arith)
  | inr (r, some_reader, none_writing) ↦ inl (ground arith)
]

pub woken_free :
    (ticket : ℕ) (writable : Bool) (d : Osprd)
    → condition d ticket writable ≡ true
    → must_wait ticket writable d ≡ false
woken_free ticket writable d h = ground arith

acquire-IsExclusive :
    (pid : ℕ) (files : List File) (filp : File) (d : Osprd)
    → IsExclusive d
    → IsExclusive (acquire pid files filp d).2
unfolding acquire
acquire-IsExclusive pid files filp d x =
    let d' = take_ticket files d in
    elim (Bool-cases (is_deadlock pid filp.writable d')) [
      | inl dead ↦ rw (acquire, dead) (take_ticket-IsExclusive files d x)
      | inr alive ↦ elim (Bool-cases (must_wait d.ticket_head filp.writable d')) [
        | inl wait ↦ rw (acquire, alive, wait) (take_ticket-IsExclusive files d x)
        | inr free ↦
            rw (acquire, alive, free)
              (count_lock-IsExclusive pid filp.writable
                (record d' { ticket_tail = add32 d'.ticket_tail 1 })
                (free_locks d.ticket_head filp.writable d' free))
      ]
    ]

try_acquire-IsExclusive :
    (pid : ℕ) (filp : File) (d : Osprd) → IsExclusive d → IsExclusive (try_acquire pid filp d).2
unfolding try_acquire
try_acquire-IsExclusive pid filp d x = elim (Bool-cases (must_wait d.ticket_head filp.writable d)) [
  | inl busy ↦ rw (try_acquire, busy) x
  | inr free ↦
      rw (try_acquire, free)
        (count_lock-IsExclusive pid filp.writable d (free_locks d.ticket_head filp.writable d free))
]

release-IsExclusive :
    (filp : File) (d : Osprd) → IsCounted filp d → IsExclusive d → IsExclusive (release filp d).2
unfolding release
release-IsExclusive filp d c x = elim (Bool-cases filp.locked) [
  | inl held ↦ rw (release, held) (uncount_lock-IsExclusive filp d held c)
  | inr not_held ↦ rw (release, not_held) x
]

-- Every ioctl keeps the locks exclusive, one writer and no reader or no writer at all, if the lock
-- that a locked file holds is counted; so does the end of an ioctl that had to wait, when it goes
-- on under its condition.
pub osprd_ioctl-IsExclusive :
    (cmd pid : ℕ) (files : List File) (filp : File) (d : Osprd)
    → IsCounted filp d
    → IsExclusive d
    → IsExclusive (osprd_ioctl cmd pid files filp d).2
      × ((ticket : ℕ)
          → condition d ticket filp.writable ≡ true
          → IsExclusive (grant pid filp.writable d))
unfolding osprd_ioctl
osprd_ioctl-IsExclusive cmd pid files filp d c x = (by_command, woken)
  where
    woken :
        (ticket : ℕ)
        → condition d ticket filp.writable ≡ true
        → IsExclusive (grant pid filp.writable d)
    woken ticket h =
        count_lock-IsExclusive pid filp.writable (record d { ticket_tail = add32 d.ticket_tail 1 })
          (free_locks ticket filp.writable d (woken_free ticket filp.writable d h))

    by_command : IsExclusive (osprd_ioctl cmd pid files filp d).2
    by_command = elim (Bool-cases (cmd == 42)) [
      | inl a ↦ rw (osprd_ioctl, a) (acquire-IsExclusive pid files filp d x)
      | inr na ↦ elim (Bool-cases (cmd == 43)) [
        | inl t ↦ rw (osprd_ioctl, na, t) (try_acquire-IsExclusive pid filp d x)
        | inr nt ↦ elim (Bool-cases (cmd == 44)) [
          | inl r ↦ rw (osprd_ioctl, na, nt, r) (release-IsExclusive filp d c x)
          | inr nr ↦ rw (osprd_ioctl, na, nt, nr) x
        ]
      ]
    ]

pub behind-must_wait :
    (d : Osprd) (writable : Bool)
    → d.ticket_head ≢ d.ticket_tail
    → must_wait d.ticket_head writable d ≡ true
behind-must_wait d writable ne = ground arith
