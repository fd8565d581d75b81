-- ===== src/Osprd/Lock/System/Take.antt =====
-- Steps of Lab2/osprd.c that take the lock keep the invariant.
use cs111_ucla.Prelude.{
  ℕ, ◌+◌, ◌^◌, ◌≤◌, ◌<◌, ◌≡◌, ◌==◌, refl, sym, ◌∙◌, ap, inl, inr, Bool, true, false, Bool-cases,
  update, update_self, update_ne, arith, add32,
}
use cs111_ucla.Osprd.Lock.{File, Osprd, grant, count_lock, mark, must_wait}
use cs111_ucla.Osprd.Lock.Laws.{count_lock-IsExclusive, free_locks}
use cs111_ucla.Osprd.Lock.System.{idle, going, System, set_task, set_device, set_locked}
use cs111_ucla.Osprd.Lock.System.Count.{is_locked_writer, is_locked_reader, count, count-update}
use cs111_ucla.Osprd.Lock.System.Sound.{Holds, IsSound, holder, goer}
use cs111_ucla.Osprd.Lock.System.Ticket.{free_turn, others_ticket}

-- The counts after a file has got a lock that was free, and after one has lost its lock.
locking_counts :
    (n f pid : ℕ) (files : ℕ → File) (d : Osprd)
    → f < n
    → d.write_locks ≡ 0
    → d.read_locks + 1 < 2 ^ 32
    → count is_locked_writer n files ≤ d.write_locks
    → count is_locked_reader n files ≤ d.read_locks
    → (count is_locked_writer n (update files f (mark true (files f)))
        ≤ (count_lock pid (files f).writable d).write_locks)
      × (count is_locked_reader n (update files f (mark true (files f)))
          ≤ (count_lock pid (files f).writable d).read_locks)
locking_counts n f pid files d f_in no_writer small writers readers =
    let w = count-update is_locked_writer n f files (mark true (files f)) f_in in
    let r = count-update is_locked_reader n f files (mark true (files f)) f_in in
    (ground arith, ground arith)

pub writable_kept :
    (files : ℕ → File) (f g : ℕ) (held : Bool)
    → (update files f (mark held (files f)) g).writable ≡ (files g).writable
writable_kept files f g held = elim (Bool-cases (f == g)) [
  | inl same ↦
      let e : f ≡ g = ground arith in
      rw (sym e) (ap (λ x. x.writable) (update_self files f (mark held (files f))))
  | inr other ↦ ap (λ x. x.writable) (update_ne files f g (mark held (files f)) (ground arith))
]

pub getting :
    (n : ℕ) (s : System) (pid f t : ℕ)
    → IsSound n s
    → f < n
    → s.task pid ≡ going f t
    → s.device.read_locks + 1 < 2 ^ 32
    → IsSound n (
        set_task pid idle
          (set_locked f true (set_device (grant pid (s.files f).writable s.device) s)))
getting n s pid f t w f_in e small =
    let mine : Holds (s.task pid) t = rw e refl in
    let (turn, no_writer, no_reader) = w.go pid f t e in
    let (low, high) = w.held pid t mine in
    let bound = w.bounded in
    let (writers, readers) =
      locking_counts n f pid s.files s.device f_in no_writer small w.writers w.readers in
    record {
      exclusive =
          count_lock-IsExclusive pid (s.files f).writable
            (record s.device { ticket_tail = add32 s.device.ticket_tail 1 }) (no_writer, no_reader);
      order = omega arith;
      bounded = omega arith;
      reads = ground (arith, w.reads);
      held = λ q u x. elim (holder s.task pid idle q u x) [
        | inl (_, y) ↦ absurd y
        | inr (ne, y) ↦
            let (lo, hi) = w.held q u y in
            let apart = others_ticket n s pid t q u w mine ne y in (omega arith, omega arith)
      ];
      distinct = λ p q u x y. elim (holder s.task pid idle p u x) [
        | inl (_, z) ↦ absurd z
        | inr (_, x') ↦ elim (holder s.task pid idle q u y) [
          | inl (_, z) ↦ absurd z
          | inr (_, y') ↦ w.distinct p q u x' y'
        ]
      ];
      go = λ q g u x. elim (goer s.task pid idle q g u x) [
        | inl (_, y) ↦ absurd cc
        | inr (ne, y) ↦
            let hold : Holds (s.task q) u = rw y refl in
            absurd (others_ticket n s pid t q u w mine ne hold ((w.go q g u y).0 ∙ sym turn))
      ];
      writers = writers;
      readers = readers;
    }

pub trying :
    (n : ℕ) (s : System) (pid f : ℕ)
    → IsSound n s
    → f < n
    → s.device.read_locks + 1 < 2 ^ 32
    → must_wait s.device.ticket_head (s.files f).writable s.device ≡ false
    → IsSound n (set_locked f true (set_device (count_lock pid (s.files f).writable s.device) s))
trying n s pid f w f_in small free =
    let locks = free_locks s.device.ticket_head (s.files f).writable s.device free in
    let turn = free_turn s.device.ticket_head (s.files f).writable s.device free in
    let (writers, readers) =
      locking_counts n f pid s.files s.device f_in locks.0 small w.writers w.readers in
    record {
      exclusive = count_lock-IsExclusive pid (s.files f).writable s.device locks;
      order = w.order;
      bounded = w.bounded;
      reads = ground (arith, w.reads);
      held = w.held;
      distinct = w.distinct;
      go = λ q g u x.
          let hold : Holds (s.task q) u = rw x refl in absurd (omega (arith, w.held q u hold));
      writers = writers;
      readers = readers;
    }
