-- ===== src/Osprd/Lock/System.antt =====
-- The tasks that use one ramdisk of Lab2/osprd.c, step by step: a task that asks for the lock takes its
-- ticket, looks at its files, tests for a deadlock, tests the lock, perhaps waits, and takes the lock
-- in the critical section; others run between any two of these. The increment of ticket_head, the
-- evaluation of each test, and what an interrupted task does are one step each, though
-- the driver does them without its spinlock. The tickets and the counters are taken to stay
-- below 2 ^ 32.
pub mod Count
pub mod Sound
pub mod Ticket
pub mod Take
pub mod Give
pub mod Safe
pub mod Lost
use cs111_ucla.Prelude.{ℕ, ◌+◌, ◌^◌, ◌<◌, ◌≡◌, ◌⊎◌, Bool, true, false, add32, update}
use cs111_ucla.Osprd.Lock.{
  File, Osprd, condition, grant, count_lock, uncount_lock, mark, interrupted, in_progress,
  is_deadlock, must_wait, osprd_close_last,
}

-- Where a task is in OSPRDIOCACQUIRE, with the number of its file and its ticket: it has its ticket; it has
-- passed the test for a deadlock; it waits; or it goes on to the critical section.
pub data Task : Type 0 where
  idle : Task
  ticketed : ℕ → ℕ → Task
  tested : ℕ → ℕ → Task
  waiting : ℕ → ℕ → Task
  going : ℕ → ℕ → Task

-- The ramdisk, its open files and the tasks by their pids.
pub record System : Type 0 where
  pub device : Osprd
  pub files : ℕ → File
  pub task : ℕ → Task

abbrev pub set_task : ℕ → Task → System → System
set_task pid t s = record s { task = update s.task pid t }

abbrev pub set_device : Osprd → System → System
set_device d s = record s { device = d }

abbrev pub set_locked : ℕ → Bool → System → System
set_locked f held s = record s { files = update s.files f (mark held (s.files f)) }

-- `ticket_cur = d->ticket_head++`.
abbrev pub next_ticket : Osprd → Osprd
next_ticket d = record d { ticket_head = add32 d.ticket_head 1 }

-- One step of a task on one of `n` files.
pub data Step (n : ℕ) (s : System) : System → Type 0 where
  takes_ticket :
      (pid f : ℕ)
      → f < n
      → s.task pid ≡ idle
      → s.device.ticket_head + 1 < 2 ^ 32
      → Step n s
          (set_task pid (ticketed f s.device.ticket_head) (set_device (next_ticket s.device) s))
  clears :
      (pid f t : ℕ)
      → s.task pid ≡ ticketed f t
      → Step n s (set_device (record s.device { read_ids = 0; write_ids = 0 }) s)
  looks_at :
      (pid f t : ℕ) (filp : File)
      → s.task pid ≡ ticketed f t
      → Step n s (set_device (in_progress filp s.device) s)
  refused :
      (pid f t : ℕ)
      → s.task pid ≡ ticketed f t
      → is_deadlock pid (s.files f).writable s.device ≡ true
      → Step n s (set_task pid idle s)
  passes :
      (pid f t : ℕ)
      → s.task pid ≡ ticketed f t
      → is_deadlock pid (s.files f).writable s.device ≡ false
      → Step n s (set_task pid (tested f t) s)
  queues :
      (pid f t : ℕ)
      → s.task pid ≡ tested f t
      → must_wait t (s.files f).writable s.device ≡ true
      → Step n s (set_task pid (waiting f t) s)
  goes_on :
      (pid f t : ℕ)
      → s.task pid ≡ tested f t
      → must_wait t (s.files f).writable s.device ≡ false
      → Step n s (set_task pid (going f t) s)
  wakes :
      (pid f t : ℕ)
      → s.task pid ≡ waiting f t
      → condition s.device t (s.files f).writable ≡ true
      → Step n s (set_task pid (going f t) s)
  is_interrupted :
      (pid f t : ℕ)
      → s.task pid ≡ waiting f t
      → Step n s (set_task pid idle (set_device (interrupted t s.device) s))
  gets :
      (pid f t : ℕ)
      → f < n
      → s.task pid ≡ going f t
      → s.device.read_locks + 1 < 2 ^ 32
      → Step n s (
          set_task pid idle
            (set_locked f true (set_device (grant pid (s.files f).writable s.device) s)))
  tries :
      (pid f : ℕ)
      → f < n
      → s.device.read_locks + 1 < 2 ^ 32
      → must_wait s.device.ticket_head (s.files f).writable s.device ≡ false
      → Step n s (set_locked f true (set_device (count_lock pid (s.files f).writable s.device) s))
  releases :
      (f : ℕ)
      → f < n
      → (s.files f).locked ≡ true
      → Step n s (set_locked f false (set_device (uncount_lock (s.files f).writable s.device) s))
  closes :
      (f : ℕ)
      → f < n
      → ((s.files f).locked ≡ true) ⊎ ((s.files f).writable ≡ false)
      → Step n s (set_locked f false (set_device (osprd_close_last (s.files f) s.device).1 s))
