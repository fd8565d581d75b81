-- ===== src/Osprd/Lock.antt =====
-- The lock of Lab2/osprd.c: osprd_ioctl, osprd_close_last and what they call. A task that has to wait
-- is given back with its ticket; what it does when it is woken or interrupted are functions of their
-- own.
pub mod Laws
pub mod System
use cs111_ucla.Prelude.{
  ℕ, ◌-◌, ◌^◌, Bool, true, false, not, ◌&&◌, ◌||◌, ltb, ◌==◌, if◌then◌else◌, add32, sub32, List, [],
  ◌∷◌,
}

-- What the driver uses of a struct file: whether file2osprd finds a ramdisk, FMODE_WRITE and
-- F_OSPRD_LOCKED.
pub record File : Type 0 where
  pub on_osprd : Bool
  pub writable : Bool
  pub locked : Bool

-- The fields of osprd_info_t but the data and the kernel's own. `write_owner` is the pattern of a
-- pid_t.
pub record Osprd : Type 0 where
  pub ticket_head : ℕ
  pub ticket_tail : ℕ
  pub write_ids : ℕ
  pub read_ids : ℕ
  pub write_locks : ℕ
  pub read_locks : ℕ
  pub write_owner : ℕ

-- The pid_t -1.
abbrev pub no_owner : ℕ
no_owner = 2 ^ 32 - 1

-- osprd_setup.
abbrev pub setup : Osprd
setup = record {
  ticket_head = 0;
  ticket_tail = 0;
  write_ids = 0;
  read_ids = 0;
  write_locks = 0;
  read_locks = 0;
  write_owner = no_owner;
}

abbrev pub in_progress : File → Osprd → Osprd
in_progress filp d = record d {
  write_ids = if filp.on_osprd && filp.writable then 1 else d.write_ids;
  read_ids = if filp.on_osprd && not filp.writable then 1 else d.read_ids;
}

-- for_each_open_file with the callback in_progress.
unfoldable pub for_each_open_file : List File → Osprd → Osprd
for_each_open_file [] d = d
for_each_open_file (filp ∷ rest) d = for_each_open_file rest (in_progress filp d)

abbrev pub condition : Osprd → ℕ → Bool → Bool
condition d ticket_cur writable =
    if writable
    then d.write_locks == 0 && d.read_locks == 0 && ticket_cur == d.ticket_tail
    else d.write_locks == 0 && ticket_cur == d.ticket_tail

-- What an ioctl comes to: it returns, or it waits with a ticket.
pub data Answer : Type 0 where
  success : Answer
  edeadlk : Answer
  erestartsys : Answer
  ebusy : Answer
  einval : Answer
  enotty : Answer
  waits : ℕ → Answer

-- A lock more, for the task `pid`, and one less.
abbrev pub count_lock : ℕ → Bool → Osprd → Osprd
count_lock pid writable d = record d {
  write_owner = if writable then pid else d.write_owner;
  write_locks = if writable then add32 d.write_locks 1 else d.write_locks;
  read_locks = if writable then d.read_locks else add32 d.read_locks 1;
}

abbrev pub uncount_lock : Bool → Osprd → Osprd
uncount_lock writable d = record d {
  write_owner = if writable then no_owner else d.write_owner;
  write_locks = if writable then sub32 d.write_locks 1 else d.write_locks;
  read_locks = if writable then d.read_locks else sub32 d.read_locks 1;
}

abbrev pub mark : Bool → File → File
mark held filp = record filp { locked = held }

-- The end of OSPRDIOCACQUIRE, when the lock is free for the task.
abbrev pub grant : ℕ → Bool → Osprd → Osprd
grant pid writable d = count_lock pid writable (record d { ticket_tail = add32 d.ticket_tail 1 })

-- A task that waits with a ticket is interrupted by a signal.
abbrev pub interrupted : ℕ → Osprd → Osprd
interrupted ticket_cur d =
    if ticket_cur == d.ticket_tail then record d { ticket_tail = add32 d.ticket_tail 1 } else d

-- The beginning of OSPRDIOCACQUIRE: a ticket is taken and the open files of the task are looked at.
abbrev pub take_ticket : List File → Osprd → Osprd
take_ticket open_files d =
    for_each_open_file open_files
      (record d { ticket_head = add32 d.ticket_head 1; read_ids = 0; write_ids = 0 })

abbrev pub is_deadlock : ℕ → Bool → Osprd → Bool
is_deadlock pid writable d =
    not (d.read_ids == 0) && writable
    || not (d.write_ids == 0) && not writable
    || pid == d.write_owner && writable

abbrev pub must_wait : ℕ → Bool → Osprd → Bool
must_wait ticket_cur writable d =
    if writable
    then ltb 0 d.write_locks || ltb 0 d.read_locks || not (ticket_cur == d.ticket_tail)
    else ltb 0 d.write_locks || not (ticket_cur == d.ticket_tail)

-- OSPRDIOCACQUIRE of the task `pid` with its open files, up to where it may wait.
unfoldable pub acquire : ℕ → List File → File → Osprd → Answer × File × Osprd
acquire pid open_files filp d =
    let ticket_cur = d.ticket_head in
    let d' = take_ticket open_files d in
    if is_deadlock pid filp.writable d'
    then (edeadlk, filp, d')
    else if must_wait ticket_cur filp.writable d'
    then (waits ticket_cur, filp, d')
    else (success, mark true filp, grant pid filp.writable d')

unfoldable pub try_acquire : ℕ → File → Osprd → Answer × File × Osprd
try_acquire pid filp d =
    if must_wait d.ticket_head filp.writable d
    then (ebusy, filp, d)
    else (success, mark true filp, count_lock pid filp.writable d)

-- OSPRDIOCRELEASE; waking the waiting tasks changes nothing here.
unfoldable pub release : File → Osprd → Answer × File × Osprd
release filp d =
    if not filp.locked
    then (einval, filp, d)
    else (success, mark false filp, uncount_lock filp.writable d)

-- osprd_ioctl, whose commands are 42, 43 and 44.
unfoldable pub osprd_ioctl : ℕ → ℕ → List File → File → Osprd → Answer × File × Osprd
unfolding acquire try_acquire release
osprd_ioctl cmd pid open_files filp d =
    if cmd == 42
    then acquire pid open_files filp d
    else if cmd == 43
    then try_acquire pid filp d
    else if cmd == 44
    then release filp d
    else (enotty, filp, d)

unfoldable pub osprd_close_last : File → Osprd → File × Osprd
osprd_close_last filp d = (
  mark false filp,
  (if filp.writable
      then record d { write_owner = no_owner; write_locks = 0 }
      else if ltb 0 d.read_locks && filp.locked
      then record d { read_locks = sub32 d.read_locks 1 }
      else d),
)
