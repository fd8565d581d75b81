-- ===== src/Osprd/Lock/System/Ticket.antt =====
-- Steps of Lab2/osprd.c that take, keep or give up a ticket keep the invariant.
use mathlib.Core.Path.{subst}
use cs111_ucla.Prelude.{
  ℕ, ◌+◌, ◌^◌, ◌<◌, ◌≡◌, ◌≢◌, ◌==◌, refl, sym, ◌∙◌, inl, inr, Bool, true, false, if◌then◌else◌,
  arith,
}
use cs111_ucla.Osprd.Lock.{Osprd, interrupted, must_wait}
use cs111_ucla.Osprd.Lock.Laws.{free_locks}
use cs111_ucla.Osprd.Lock.System.{
  Task, idle, ticketed, going, System, next_ticket, set_task, set_device,
}
use cs111_ucla.Osprd.Lock.System.Sound.{Holds, IsSound, going_inj, holder, goer}

-- A task takes a ticket.
pub drawing :
    (n : ℕ) (s : System) (pid f : ℕ)
    → IsSound n s
    → s.device.ticket_head + 1 < 2 ^ 32
    → IsSound n
        (set_task pid (ticketed f s.device.ticket_head) (set_device (next_ticket s.device) s))
drawing n s pid f w small =
    let new = ticketed f s.device.ticket_head in
    record {
      exclusive = w.exclusive;
      order = omega (arith, w.order);
      bounded = omega arith;
      reads = w.reads;
      held = λ q t x. elim (holder s.task pid new q t x) [
        | inl (e, y) ↦ (omega (arith, y, w.order), omega (arith, y))
        | inr (ne, y) ↦ let (lo, hi) = w.held q t y in (lo, omega arith)
      ];
      distinct = λ p q t x y. elim (holder s.task pid new p t x) [
        | inl (e, x') ↦ elim (holder s.task pid new q t y) [
          | inl (e', y') ↦ e ∙ sym e'
          | inr (ne, y') ↦ absurd (omega (arith, x', (w.held q t y').1))
        ]
        | inr (ne, x') ↦ elim (holder s.task pid new q t y) [
          | inl (e', y') ↦ absurd (omega (arith, y', (w.held p t x').1))
          | inr (ne', y') ↦ w.distinct p q t x' y'
        ]
      ];
      go = λ q g t x. elim (goer s.task pid new q g t x) [
        | inl (e, y) ↦ absurd cc
        | inr (ne, y) ↦ w.go q g t y
      ];
      writers = w.writers;
      readers = w.readers;
    }

-- The fields read_ids and write_ids.
pub flagging :
    (n : ℕ) (s : System) (a b : ℕ)
    → IsSound n s
    → IsSound n (set_device (record s.device { read_ids = a; write_ids = b }) s)
flagging n s a b w = record {
  exclusive = w.exclusive;
  order = w.order;
  bounded = w.bounded;
  reads = w.reads;
  held = w.held;
  distinct = w.distinct;
  go = w.go;
  writers = w.writers;
  readers = w.readers;
}

pub free_turn :
    (t : ℕ) (writable : Bool) (d : Osprd) → must_wait t writable d ≡ false → t ≡ d.ticket_tail
free_turn t writable d free = ground arith

-- A task that holds a ticket goes further with it, or drops it.
pub turning :
    (n : ℕ) (s : System) (pid t : ℕ) (new : Task)
    → IsSound n s
    → Holds (s.task pid) t
    → ((u : ℕ) → Holds new u → t ≡ u)
    → ((g u : ℕ)
        → new ≡ going g u
        → (u ≡ s.device.ticket_tail)
          × (s.device.write_locks ≡ 0)
          × ((s.files g).writable ≡ true → s.device.read_locks ≡ 0))
    → IsSound n (set_task pid new s)
turning n s pid t new w mine same_ticket new_go = record {
  exclusive = w.exclusive;
  order = w.order;
  bounded = w.bounded;
  reads = w.reads;
  held = λ q u x. elim (holder s.task pid new q u x) [
    | inl (_, y) ↦ rw (← same_ticket u y) (w.held pid t mine)
    | inr (ne, y) ↦ w.held q u y
  ];
  distinct = λ p q u x y. elim (holder s.task pid new p u x) [
    | inl (e1, x') ↦ elim (holder s.task pid new q u y) [
      | inl (e2, y') ↦ e1 ∙ sym e2
      | inr (ne, y') ↦ e1 ∙ w.distinct pid q t mine (rw (same_ticket u x') y')
    ]
    | inr (ne, x') ↦ elim (holder s.task pid new q u y) [
      | inl (e2, y') ↦ w.distinct p pid t (rw (same_ticket u y') x') mine ∙ sym e2
      | inr (ne', y') ↦ w.distinct p q u x' y'
    ]
  ];
  go = λ q g u x. elim (goer s.task pid new q g u x) [
    | inl (_, y) ↦ new_go g u y
    | inr (ne, y) ↦ w.go q g u y
  ];
  writers = w.writers;
  readers = w.readers;
}

-- A task that finds the lock free.
pub going_on :
    (n : ℕ) (s : System) (pid f t : ℕ)
    → IsSound n s
    → Holds (s.task pid) t
    → must_wait t (s.files f).writable s.device ≡ false
    → IsSound n (set_task pid (going f t) s)
going_on n s pid f t w mine free =
    let turn = free_turn t (s.files f).writable s.device free in
    let (no_writer, no_reader) = free_locks t (s.files f).writable s.device free in
    turning n s pid t (going f t) w mine (λ u e. e)
      λ g u y.
        let (same, ticket) = going_inj f t g u y in
        (sym ticket ∙ turn, no_writer, λ writing. no_reader (rw same writing))

-- The ticket of the task `pid` is no other task's.
pub others_ticket :
    (n : ℕ) (s : System) (pid t q u : ℕ)
    → IsSound n s
    → Holds (s.task pid) t
    → q ≢ pid
    → Holds (s.task q) u
    → u ≢ t
others_ticket n s pid t q u w mine ne y same =
    ne (w.distinct q pid t (subst (λ x. Holds (s.task q) x) same y) mine)

-- The task `pid` gives up its ticket `t`: then the tail may be a later one.
pub leaving :
    (n : ℕ) (s : System) (pid t : ℕ)
    → IsSound n s
    → Holds (s.task pid) t
    → IsSound n (set_task pid idle (set_device (interrupted t s.device) s))
leaving n s pid t w mine =
    let (low, high) = w.held pid t mine in
    let bound = w.bounded in
    let tail' = (interrupted t s.device).ticket_tail in
    let next : tail'
        ≡ (if t == s.device.ticket_tail then s.device.ticket_tail + 1 else s.device.ticket_tail) =
      ground arith in
    let head : (interrupted t s.device).ticket_head ≡ s.device.ticket_head = ground arith in
    let wl : (interrupted t s.device).write_locks ≡ s.device.write_locks = ground arith in
    let rl : (interrupted t s.device).read_locks ≡ s.device.read_locks = ground arith in
    record {
      exclusive = rw (wl, rl) w.exclusive;
      order = ground arith;
      bounded = omega arith;
      reads = omega (arith, rl, w.reads);
      held = λ q u x. elim (holder s.task pid idle q u x) [
        | inl (_, y) ↦ absurd y
        | inr (ne, y) ↦
            let (lo, hi) = w.held q u y in
            let apart = others_ticket n s pid t q u w mine ne y in (ground arith, omega arith)
      ];
      distinct = λ p q u x y. elim (holder s.task pid idle p u x) [
        | inl (_, z) ↦ absurd z
        | inr (_, x') ↦ elim (holder s.task pid idle q u y) [
          | inl (_, z) ↦ absurd z
          | inr (_, y') ↦ w.distinct p q u x' y'
        ]
      ];
      go = λ q g u x. elim (goer s.task pid idle q g u x) [
        | inl (_, y) ↦ absurd cc
        | inr (ne, y) ↦
            let (turn, no_writer, no_reader) = w.go q g u y in
            let hold : Holds (s.task q) u = rw y refl in
            let apart = others_ticket n s pid t q u w mine ne hold in
            (ground arith, omega arith, λ writing. rw rl (no_reader writing))
      ];
      writers = omega (arith, w.writers);
      readers = omega (arith, w.readers);
    }
