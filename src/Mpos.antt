-- ===== src/Mpos.antt =====
-- WeensyOS1/mpos-kern.c, mpos-kern.h and memcpy of lib.c: the MiniprocOS kernel. A process
-- descriptor is a record, `proc_array` a table, the current process the index that `run` leaves in
-- `current`. A handler that ends in `run` returns the kernel as the process it runs finds it; `none`
-- is the kernel spinning for ever.
pub mod Memory
pub mod Schedule
pub mod Invariant
pub mod Fork
pub mod Child
pub mod Interrupt
pub mod Calls
pub mod Reap
mod Tests
use cs111_ucla.Prelude.{
  ℕ, zero, suc, ◌+◌, ◌*◌, ◌%◌, Bool, true, false, ◌||◌, Option, none, some, leb, ◌==◌,
  if◌then◌else◌, ℤ, pos, negsuc, signed32, word_of, add32, sub32, u32_mod, update,
}
use Memory.{memcpy}

-- registers_t of x86.h.
pub record Registers : Type 0 where
  pub reg_edi : ℕ
  pub reg_esi : ℕ
  pub reg_ebp : ℕ
  pub reg_original_esp : ℕ
  pub reg_ebx : ℕ
  pub reg_edx : ℕ
  pub reg_ecx : ℕ
  pub reg_eax : ℕ
  pub reg_es : ℕ
  pub reg_ds : ℕ
  pub reg_intno : ℕ
  pub reg_err : ℕ
  pub reg_eip : ℕ
  pub reg_cs : ℕ
  pub reg_eflags : ℕ
  pub reg_esp : ℕ
  pub reg_ss : ℕ

pub data ProcState : Type 0 where
  p_empty p_runnable p_blocked p_zombie : ProcState

-- `p_exit_status` is an int that is only copied from and to %eax: it is kept as its bit pattern.
pub record Process : Type 0 where
  pub p_pid : ℕ
  pub p_registers : Registers
  pub p_state : ProcState
  pub p_exit_status : ℕ
  pub p_waiting : ℤ

-- `memory` holds the bytes outside of proc_array. They are what copy_stack copies if the stack
-- pointer of the parent stands in its stack; where it does not, the copy of the kernel may also write over
-- proc_array, and do_fork below does not stand for it.
pub record Kernel : Type 0 where
  pub proc_array : ℕ → Process
  pub current : ℕ
  pub memory : ℕ → ℕ

abbrev pub nprocs : ℕ
nprocs = 16

abbrev pub proc1_stack_addr : ℕ
proc1_stack_addr = 0x280000

abbrev pub proc_stack_size : ℕ
proc_stack_size = 0x40000

abbrev pub is_empty : ProcState → Bool
is_empty p_empty = true
is_empty _ = false

abbrev pub is_runnable : ProcState → Bool
is_runnable p_runnable = true
is_runnable _ = false

abbrev pub is_zombie : ProcState → Bool
is_zombie p_zombie = true
is_zombie _ = false

abbrev pub proc : Kernel → ℕ → Process
proc k i = k.proc_array i

abbrev pub modify : Kernel → ℕ → (Process → Process) → Kernel
modify k i f = record k { proc_array = update k.proc_array i (f (k.proc_array i)) }

abbrev pub set_state : ProcState → Process → Process
set_state s p = record p { p_state = s }

abbrev pub set_eax : ℕ → Process → Process
set_eax v p = record p { p_registers = record p.p_registers { reg_eax = v } }

abbrev pub set_esp : ℕ → Process → Process
set_esp v p = record p { p_registers = record p.p_registers { reg_esp = v } }

abbrev pub set_registers : Registers → Process → Process
set_registers r p = record p { p_registers = r }

abbrev pub set_waiting : ℤ → Process → Process
set_waiting w p = record p { p_waiting = w }

-- `run` of mpos-x86.c, up to the jump into the process.
unfoldable pub run : Kernel → ℕ → Kernel
run k i = record k { current = i }

-- The loop of `schedule`, with fuel: `none` after so many processes that cannot run.
unfoldable pub schedule_from : ℕ → ℕ → Kernel → Option Kernel
schedule_from zero pid k = none
schedule_from (suc fuel) pid k =
    let pid' = (pid + 1) % nprocs in
    let rest = schedule_from fuel pid' k in
    if is_runnable (proc k pid').p_state then some (run k pid') else rest

unfoldable pub schedule : Kernel → Option Kernel
schedule k = schedule_from nprocs (proc k k.current).p_pid k

-- The search of `do_fork` and of INT_SYS_NEWTHREAD: `n` slots are left, from `pid` on.
unfoldable pub first_empty : ℕ → ℕ → Kernel → Option ℕ
first_empty zero pid k = none
first_empty (suc n) pid k =
    let rest = first_empty n (pid + 1) k in if is_empty (proc k pid).p_state then some pid else rest

abbrev pub stack_top : ℕ → ℕ
stack_top pid = (proc1_stack_addr + pid * proc_stack_size) % u32_mod

-- `dest_stack_bottom`: as far below the top of its stack as `src`'s stack pointer is below its own.
abbrev pub dest_stack_bottom : Kernel → ℕ → ℕ → ℕ
dest_stack_bottom k dest src =
    add32 (stack_top (proc k dest).p_pid)
      (sub32 (proc k src).p_registers.reg_esp (stack_top (proc k src).p_pid))

unfoldable pub copy_stack : Kernel → ℕ → ℕ → Kernel
copy_stack k dest src =
    let src_stack_bottom = (proc k src).p_registers.reg_esp in
    let n = sub32 (stack_top (proc k src).p_pid) src_stack_bottom in
    let to = dest_stack_bottom k dest src in
    let copied = record k { memory = memcpy n to src_stack_bottom k.memory } in
    modify copied dest (set_esp to)

-- The child's own pid, the 0 that `sys_fork` returns to it, and its state.
abbrev pub finish_child : ℕ → Process → Process
finish_child pid p = set_state p_runnable (set_eax 0 (record p { p_pid = pid }))

-- The new process in the slot `pid`, as a copy of `parent`.
unfoldable pub fork_into : Kernel → ℕ → ℕ → Kernel
fork_into k parent pid =
    let copied = modify k pid (set_registers (proc k parent).p_registers) in
    modify (copy_stack copied pid parent) pid (finish_child pid)

-- What `do_fork` returns (-1 is its bit pattern), and the kernel that it leaves.
unfoldable pub do_fork : Kernel → ℕ → ℕ × Kernel
unfolding first_empty
do_fork k parent = elim (first_empty 15 1 k) [
  | none ↦ (word_of (negsuc 0), k)
  | some pid ↦ (pid, fork_into k parent pid)
]

-- The test that INT_SYS_WAIT and INT_SYS_KILL make of their argument, `pid_t p = %eax`.
unfoldable pub pid_argument : Kernel → ℤ → Option ℕ
pid_argument k (negsuc n) = none
pid_argument k (pos p) =
    if p == 0 || leb nprocs p || p == (proc k k.current).p_pid || is_empty (proc k p).p_state
    then none
    else some p

abbrev pub current_eax : Kernel → ℕ
current_eax k = (proc k k.current).p_registers.reg_eax

-- `if (current->p_waiting > 0)` in INT_SYS_EXIT: the waiter gets the status, the slot is freed.
unfoldable pub wake_waiter : Kernel → ℤ → Kernel
wake_waiter k (negsuc n) = k
wake_waiter k (pos zero) = k
wake_waiter k (pos (suc n)) =
    let status = (proc k k.current).p_exit_status in
    let woken = modify k (suc n) (λ p. set_eax status (set_state p_runnable p)) in
    modify woken k.current (λ p. set_state p_empty (set_waiting (negsuc 0) p))

unfoldable pub sys_exit : Kernel → Kernel
unfolding wake_waiter
sys_exit k =
    let status = current_eax k in
    let ended = modify k k.current (λ p. record p { p_state = p_zombie; p_exit_status = status }) in
    wake_waiter ended (proc ended ended.current).p_waiting

unfoldable pub wait_for : Kernel → Option ℕ → Kernel
wait_for k none = modify k k.current (set_eax (word_of (negsuc 0)))
wait_for k (some p) =
    if is_zombie (proc k p).p_state
    then (let got = modify k k.current (set_eax (proc k p).p_exit_status) in
        let freed = modify got p (set_state p_empty) in
        modify freed freed.current (set_state p_runnable))
    else (let blocked = modify k k.current (set_state p_blocked) in
        modify blocked p (set_waiting (pos (proc blocked blocked.current).p_pid)))

unfoldable pub sys_wait : Kernel → Kernel
unfolding wait_for pid_argument
sys_wait k = wait_for k (pid_argument k (signed32 (current_eax k)))

-- The descriptor of a new thread in the slot `p`.
abbrev pub thread_in : Kernel → ℕ → Process → Process
thread_in k p q =
    let regs = (proc k k.current).p_registers in
    record q {
      p_registers = record regs {
        reg_eax = 0;
        reg_eip = regs.reg_eax;
        reg_esp = (p * proc_stack_size + proc1_stack_addr) % u32_mod;
      };
      p_pid = p;
      p_state = p_runnable;
      p_waiting = negsuc 0;
    }

unfoldable pub sys_newthread : Kernel → Kernel
unfolding first_empty
sys_newthread k = elim (first_empty 15 1 k) [
  | none ↦ k
  | some p ↦ modify (modify k p (thread_in k p)) k.current (set_eax p)
]

-- `if (proc_array[p].p_waiting > 0)` in INT_SYS_KILL.
unfoldable pub kill_waiter : Kernel → ℕ → ℤ → Kernel
kill_waiter k p (negsuc n) = k
kill_waiter k p (pos zero) = k
kill_waiter k p (pos (suc n)) =
    modify (modify k (suc n) (set_state p_runnable)) p (set_waiting (negsuc 0))

unfoldable pub kill_process : Kernel → Option ℕ → Kernel
unfolding kill_waiter
kill_process k none = modify k k.current (set_eax (word_of (negsuc 0)))
kill_process k (some p) =
    let killed = modify (modify k p (set_state p_empty)) k.current (set_eax 0) in
    kill_waiter killed p (proc killed p).p_waiting

unfoldable pub sys_kill : Kernel → Kernel
unfolding kill_process pid_argument
sys_kill k = kill_process k (pid_argument k (signed32 (current_eax k)))

-- The system calls, by their interrupt numbers 48 to 54; any other number spins.
pub data Syscall : Type 0 where
  getpid fork yields exits waits newthread kills : Syscall

unfoldable pub decode : ℕ → Option Syscall
decode n =
    if n == 48
    then some getpid
    else if n == 49
    then some fork
    else if n == 50
    then some yields
    else if n == 51
    then some exits
    else if n == 52
    then some waits
    else if n == 53
    then some newthread
    else if n == 54
    then some kills
    else none

-- A case of the switch, once the registers are saved.
unfoldable pub syscall : Kernel → Syscall → Option Kernel
unfolding run
syscall k getpid = some (run (modify k k.current (set_eax (proc k k.current).p_pid)) k.current)
syscall k fork =
    let (pid, forked) = do_fork k k.current in
    some (run (modify forked forked.current (set_eax pid)) forked.current)
syscall k yields = schedule k
syscall k exits = schedule (sys_exit k)
syscall k waits = schedule (sys_wait k)
syscall k newthread = schedule (sys_newthread k)
syscall k kills = schedule (sys_kill k)

unfoldable pub dispatch : Kernel → Option Syscall → Option Kernel
dispatch k none = none
dispatch k (some c) = syscall k c

unfoldable pub interrupt : Kernel → Registers → Option Kernel
unfolding dispatch decode
interrupt k reg =
    let saved = modify k k.current (set_registers reg) in dispatch saved (decode reg.reg_intno)

-- What memset leaves in a slot.
abbrev pub zero_registers : Registers
zero_registers = record {
  reg_edi = 0;
  reg_esi = 0;
  reg_ebp = 0;
  reg_original_esp = 0;
  reg_ebx = 0;
  reg_edx = 0;
  reg_ecx = 0;
  reg_eax = 0;
  reg_es = 0;
  reg_ds = 0;
  reg_intno = 0;
  reg_err = 0;
  reg_eip = 0;
  reg_cs = 0;
  reg_eflags = 0;
  reg_esp = 0;
  reg_ss = 0;
}

abbrev pub empty_slot : ℕ → Process
empty_slot i = record {
  p_pid = i;
  p_registers = zero_registers;
  p_state = p_empty;
  p_exit_status = 0;
  p_waiting = pos 0;
}

-- special_registers_init of mpos-x86.c: the selectors 0x18 and 0x20 of the application's segments,
-- at privilege level 3.
abbrev pub special_registers_init : Registers
special_registers_init = record zero_registers {
  reg_cs = 0x1b;
  reg_ds = 0x23;
  reg_es = 0x23;
  reg_ss = 0x23;
}

-- `start`: `entry` is the entry point that program_loader finds in the program that the user picks.
unfoldable pub start : ℕ → (ℕ → ℕ) → Kernel
unfolding run
start entry memory =
    let first = record (empty_slot 1) {
      p_registers = record special_registers_init {
        reg_eip = entry;
        reg_esp = proc1_stack_addr + proc_stack_size;
      };
      p_state = p_runnable;
    } in
    run (record { proc_array = update empty_slot 1 first; current = 1; memory = memory }) 1
