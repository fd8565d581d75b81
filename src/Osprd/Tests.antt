-- ===== src/Osprd/Tests.antt =====
-- Requests to a ramdisk of 32 sectors, as Lab2/osprd.c sets it up by default, and its lock.
use cs111_ucla.Prelude.{ℕ, ◌+◌, ◌≡◌, inl, false, refl, arith, true, false, []}
use cs111_ucla.Osprd.{Request, process_request}
use cs111_ucla.Osprd.Lock.{File, setup, in_progress, condition, grant, osprd_ioctl}
use cs111_ucla.Osprd.Lock.Laws.{IsExclusive, osprd_ioctl-IsExclusive}
use cs111_ucla.Osprd.Lock.System.{
  System, idle, ticketed, tested, waiting, going, next_ticket, set_task, set_locked, set_device,
}
use cs111_ucla.Osprd.Lock.System.Safe.{opened}
use cs111_ucla.Osprd.Requests.{InBounds, Done, process_request-Done}

abbrev blank_disk : ℕ → ℕ
blank_disk x = 0

abbrev write_sector : ℕ → Request
write_sector n = record {
  fs_request = true;
  is_write = true;
  sector = n;
  current_nr_sectors = 1;
  buffer = λ x. x + 1;
  ended = [];
}

write_sector-InBounds : InBounds 32 (write_sector 31)
write_sector-InBounds = record { fs = refl; sectors = omega arith; small = omega arith }

process_request-Done_example :
    Done blank_disk
      (write_sector 31)
      (process_request 32 blank_disk (write_sector 31)).0
      (process_request 32 blank_disk (write_sector 31)).1
process_request-Done_example = process_request-Done write_sector-InBounds blank_disk

abbrev reader : File
reader = record { on_osprd = true; writable = false; locked = false }

abbrev writer : File
writer = record { on_osprd = true; writable = true; locked = false }

osprd_ioctl-IsExclusive_example :
    IsExclusive (osprd_ioctl 43 7 [] writer setup).2
    × ((ticket : ℕ) → condition setup ticket true ≡ true → IsExclusive (grant 7 true setup))
osprd_ioctl-IsExclusive_example = osprd_ioctl-IsExclusive 43 7 [] writer setup (λ e. cc) (inl refl)

-- Task 7 has a ticket for file 0, open for writing, and has looked at a file that it reads.
abbrev ticket_of_7 : System
unfolding opened
ticket_of_7 =
    set_device (in_progress reader (next_ticket setup))
      (set_task 7 (ticketed 0 0) (set_device (next_ticket setup) (opened (λ f. writer))))

-- Afterwards task 8 takes a ticket.
abbrev ticket_of_8 : System
ticket_of_8 =
    set_task 8 (ticketed 1 1)
      (set_device (next_ticket ticket_of_7.device) (set_task 7 idle ticket_of_7))

-- Task 7 gets the lock for file 0, open for writing, by its ticket 0.
abbrev locked_by_7 : System
unfolding opened
locked_by_7 =
    let s = set_task 7 (ticketed 0 0) (set_device (next_ticket setup) (opened (λ f. writer))) in
    let t = set_task 7 (going 0 0) (set_task 7 (tested 0 0) s) in
    set_task 7 idle (set_locked 0 true (set_device (grant 7 true t.device) t))

-- Then task 8 waits with ticket 1.
abbrev waits_behind_7 : System
waits_behind_7 =
    let s = locked_by_7 in
    let t = set_task 8 (ticketed 1 1) (set_device (next_ticket s.device) s) in
    set_task 8 (waiting 1 1) (set_task 8 (tested 1 1) t)
