-- ===== src/SchedOs.antt =====
-- WeensyOS2/schedos-kern.c and schedos-kern.h: the SchedOS kernel with its five scheduling
-- algorithms. An int is kept as its 32-bit pattern and compared as a signed number. `running` is the
-- kernel as the process that is run finds it, `spinning` a loop that has not ended when the fuel
-- has run out, `out_of_bounds` an access outside of proc_array.
pub mod Priority
pub mod Share
pub mod Draw
pub mod Wf
mod Tests
use Prim.Native.Nat.{bit_xor}
use cs111_ucla.Prelude.{
  ℕ, zero, suc, ◌+◌, ◌*◌, ◌/◌, ◌%◌, ◌^◌, ◌-◌, Bool, ◌&&◌, ◌||◌, Option, none, some, ltb, leb, ◌==◌,
  if◌then◌else◌, add32, u32_mod, update,
}
use cs111_ucla.Mpos.{
  Registers, ProcState, p_empty, p_runnable, p_zombie, is_runnable, zero_registers,
}

abbrev pub nprocs : ℕ
nprocs = 5

abbrev pub proc1_start : ℕ
proc1_start = 0x200000

abbrev pub proc_size : ℕ
proc_size = 0x100000

pub record Process : Type 0 where
  pub p_pid : ℕ
  pub p_registers : Registers
  pub p_state : ProcState
  pub p_exit_status : ℕ
  pub p_priority : ℕ
  pub p_share : ℕ
  pub p_counter : ℕ
  pub p_ticket : ℕ

-- `rand_x`, `rand_y` and `rand_z` are the static variables of getRandNum; `screen` holds the 16-bit
-- cells of the console by their address.
pub record Kernel : Type 0 where
  pub proc_array : ℕ → Process
  pub current : ℕ
  pub scheduling_algorithm : ℕ
  pub rand_x : ℕ
  pub rand_y : ℕ
  pub rand_z : ℕ
  pub cursorpos : ℕ
  pub screen : ℕ → ℕ

pub data Outcome : Type 0 where
  running : Kernel → Outcome
  spinning : Outcome
  out_of_bounds : Outcome

-- `a < b` for two ints.
abbrev pub signed_less : ℕ → ℕ → Bool
signed_less a b = ltb ((a + 2 ^ 31) % u32_mod) ((b + 2 ^ 31) % u32_mod)

abbrev pub proc : Kernel → ℕ → Process
proc k i = k.proc_array i

abbrev pub modify : Kernel → ℕ → (Process → Process) → Kernel
modify k i f = record k { proc_array = update k.proc_array i (f (k.proc_array i)) }

abbrev pub run : Kernel → ℕ → Kernel
run k i = record k { current = i }

-- The kernel after getRandNum, which returns `rand_z`.
unfoldable pub get_rand_num : Kernel → Kernel
get_rand_num k =
    let x1 = bit_xor k.rand_x (k.rand_x * 2 ^ 16 % u32_mod) in
    let x2 = bit_xor x1 (x1 / 2 ^ 5) in
    let t = bit_xor x2 (x2 * 2 % u32_mod) in
    record k {
      rand_x = k.rand_y;
      rand_y = k.rand_z;
      rand_z = bit_xor (bit_xor t k.rand_y) k.rand_z;
    }

-- Algorithm 0, round robin.
unfoldable pub schedule_round : ℕ → ℕ → Kernel → Outcome
schedule_round zero pid k = spinning
schedule_round (suc fuel) pid k =
    let pid' = (pid + 1) % nprocs in
    let rest = schedule_round fuel pid' k in
    if is_runnable (proc k pid').p_state then running (run k pid') else rest

-- The inner loop of algorithm 1: `n` processes are left, from `i` on.
unfoldable pub first_runnable : ℕ → ℕ → Kernel → Option ℕ
first_runnable zero i k = none
first_runnable (suc n) i k =
    let rest = first_runnable n (i + 1) k in if is_runnable (proc k i).p_state then some i else rest

-- Algorithm 1, strict priority by process number.
unfoldable pub schedule_strict : ℕ → Kernel → Outcome
schedule_strict zero k = spinning
schedule_strict (suc fuel) k =
    let rest = schedule_strict fuel k in
    elim (first_runnable (nprocs - 1) 1 k) [ some i ↦ running (run k i) | none ↦ rest ]

-- The loop of algorithm 2: `n` rounds are left, from `i` on; the result is `process`.
unfoldable pub best_priority : ℕ → ℕ → ℕ → ℕ → Kernel → ℕ
best_priority zero i process pri k = process
best_priority (suc n) i process pri k =
    let j = i % nprocs in
    let better = best_priority n (i + 1) j (proc k j).p_priority k in
    let rest = best_priority n (i + 1) process pri k in
    if is_runnable (proc k j).p_state && signed_less (proc k j).p_priority pri then better else rest

-- Algorithm 2, priorities that the processes set.
unfoldable pub schedule_priority : ℕ → Kernel → Outcome
schedule_priority pid k = running (run k (best_priority nprocs (pid + 1) pid 100 k))

abbrev pub set_counter : ℕ → Process → Process
set_counter c p = record p { p_counter = c }

-- Algorithm 3, proportional share.
unfoldable pub schedule_share : ℕ → ℕ → Kernel → Outcome
schedule_share zero process k = spinning
schedule_share (suc fuel) process k =
    let i = if process == 0 then 1 else process in
    let p = proc k i in
    let next = (i + 1) % nprocs in
    let reset = schedule_share fuel next (modify k i (set_counter 0)) in
    let rest = schedule_share fuel next k in
    if is_runnable p.p_state && signed_less p.p_counter p.p_share
    then running (run (modify k i (set_counter (add32 p.p_counter 1))) i)
    else if is_runnable p.p_state && p.p_counter == p.p_share
    then reset
    else rest

-- `getRandNum() % (NPROCS - 1) + 1` as an index of proc_array: the value of getRandNum is an int,
-- and the remainder has its sign. `none` is a negative index.
unfoldable pub draw : ℕ → Option ℕ
draw z =
    if ltb z (2 ^ 31)
    then some (z % (nprocs - 1) + 1)
    else if leb ((u32_mod - z) % (nprocs - 1)) 1
    then some (1 - (u32_mod - z) % (nprocs - 1))
    else none

-- Algorithm 4, a lottery.
unfoldable pub schedule_lottery : ℕ → Kernel → Outcome
unfolding get_rand_num draw
schedule_lottery zero k = spinning
schedule_lottery (suc fuel) k =
    let k' = get_rand_num k in
    let rest = schedule_lottery fuel k' in
    elim (draw k'.rand_z) [
      | none ↦ out_of_bounds
      | some i ↦
          if is_runnable (proc k' i).p_state && i == (proc k' i).p_ticket
          then running (run k' i)
          else rest
    ]

-- `schedule`, each of whose loops has the same fuel.
unfoldable pub schedule : ℕ → Kernel → Outcome
unfolding schedule_round schedule_strict schedule_priority schedule_share schedule_lottery
schedule fuel k =
    let pid = (proc k k.current).p_pid in
    if k.scheduling_algorithm == 0
    then schedule_round fuel pid k
    else if k.scheduling_algorithm == 1
    then schedule_strict fuel k
    else if k.scheduling_algorithm == 2
    then schedule_priority pid k
    else if k.scheduling_algorithm == 3
    then schedule_share fuel pid k
    else if k.scheduling_algorithm == 4
    then schedule_lottery fuel k
    else spinning

abbrev pub exit_process : ℕ → Process → Process
exit_process status p = record p { p_state = p_zombie; p_exit_status = status }

-- `*cursorpos++ = (uint16_t) cell`.
abbrev pub print_cell : ℕ → Kernel → Kernel
print_cell cell k = record k {
  screen = update k.screen k.cursorpos (cell % 2 ^ 16);
  cursorpos = add32 k.cursorpos 2;
}

-- The handler, after the registers of the current process are saved.
unfoldable pub dispatch : ℕ → Registers → Kernel → Outcome
unfolding schedule
dispatch fuel reg k =
    let intno = reg.reg_intno in
    let self = k.current in
    if intno == 48 || intno == 32
    then schedule fuel k
    else if intno == 49
    then schedule fuel (modify k self (exit_process reg.reg_eax))
    else if intno == 50 || intno == 51
    then running (run k self)
    else if intno == 52
    then running (run (modify k self (λ p. record p { p_priority = reg.reg_eax })) self)
    else if intno == 53
    then running (run (modify k self (λ p. record p { p_share = reg.reg_eax })) self)
    else if intno == 54
    then running (run (print_cell reg.reg_eax k) self)
    else spinning

unfoldable pub interrupt : ℕ → Registers → Kernel → Outcome
unfolding dispatch
interrupt fuel reg k = dispatch fuel reg (modify k k.current (λ p. record p { p_registers = reg }))

-- A slot of proc_array after the first loop of `start`.
abbrev pub empty_slot : ℕ → Process
empty_slot i = record {
  p_pid = i;
  p_registers = zero_registers;
  p_state = p_empty;
  p_exit_status = 0;
  p_priority = 0;
  p_share = 0;
  p_counter = 0;
  p_ticket = 0;
}

-- special_registers_init of schedos-x86.c.
abbrev pub special_registers_init : Registers
special_registers_init = record zero_registers {
  reg_cs = 0x1b;
  reg_ds = 0x23;
  reg_es = 0x23;
  reg_ss = 0x23;
  reg_eflags = 0x200;
}

-- A process that `start` has set up: its priority, its share and its ticket are its number.
abbrev pub first_process : (ℕ → ℕ) → ℕ → Process
first_process entry i = record (empty_slot i) {
  p_registers = record special_registers_init {
    reg_esp = (proc1_start + i * proc_size) % u32_mod;
    reg_eip = entry (i - 1);
  };
  p_state = p_runnable;
  p_priority = i;
  p_share = i;
  p_counter = (if i == 1 then 1 else 0);
  p_ticket = i;
}

-- `start`: `entry` is the entry point that program_loader finds in each program; the other arguments
-- are the screen and the random numbers as they are then.
unfoldable pub start : (ℕ → ℕ) → (ℕ → ℕ) → Kernel
start entry screen =
    run
      (record {
        proc_array = λ i. if leb 1 i && ltb i nprocs then first_process entry i else empty_slot i;
        current = 1;
        scheduling_algorithm = 0;
        rand_x = 123456;
        rand_y = 362092;
        rand_z = 895104;
        cursorpos = 0xB8000;
        screen = screen;
      })
      1
