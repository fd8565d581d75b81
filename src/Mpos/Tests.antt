-- ===== src/Mpos/Tests.antt =====
-- The MiniprocOS kernel on small tables, and its theorems at them.
use cs111_ucla.Prelude.{ℕ, ◌≡◌, refl, Option, none, some, arith, update}
use cs111_ucla.Mpos.{
  Kernel, Process, Registers, p_runnable, p_blocked, proc, run, schedule_from, schedule,
  first_empty, copy_stack, fork_into, do_fork, sys_exit, sys_wait, syscall, interrupt,
  zero_registers, empty_slot, start,
}
use cs111_ucla.Mpos.Memory.{memcpy}
use cs111_ucla.Mpos.Schedule.{around, Chooses, schedule_nearest}
use cs111_ucla.Mpos.Invariant.{IsWf, IsRunning}
use cs111_ucla.Mpos.Interrupt.{start-IsWf, interrupt-IsWf}
use cs111_ucla.Mpos.Child.{InStack, Answer, do_fork_answers}
use cs111_ucla.Mpos.Reap.{Reaped, traps, exit_then_wait, wait_then_exit}

abbrev booted : Kernel
booted = start 0x200000 (λ a. a)

booted-IsWf : IsWf booted × IsRunning booted
booted-IsWf = start-IsWf 0x200000 (λ a. a)

abbrev fork_call : Registers
fork_call = record zero_registers { reg_intno = 49; reg_esp = 0x2bffff }

abbrev or_else : Option Kernel → Kernel → Kernel
or_else none k = k
or_else (some k) _ = k

fork_call-InStack : InStack 1 fork_call.reg_esp
fork_call-InStack = record { low = omega arith; high = omega arith }

-- The first process forks.
abbrev forked : Kernel
forked = or_else (interrupt booted fork_call) booted

fork_makes_two :
    ((proc forked 2).p_state ≡ p_runnable)
    × ((proc forked 1).p_registers.reg_eax ≡ 2)
    × ((proc forked 2).p_registers.reg_esp ≡ 0x2fffff)
    × (forked.memory 0x2fffff ≡ 0x2bffff)
unfolding start interrupt do_fork first_empty fork_into copy_stack memcpy syscall
fork_makes_two = (refl, refl, refl, refl)

forked-IsWf : IsWf forked
unfolding start interrupt do_fork first_empty syscall
forked-IsWf =
    (interrupt-IsWf booted forked fork_call booted-IsWf.0 booted-IsWf.1 (λ e. fork_call-InStack)
      refl).0

interrupt-IsWf_example : IsWf forked × IsRunning forked
unfolding start interrupt do_fork first_empty syscall
interrupt-IsWf_example =
    interrupt-IsWf booted forked fork_call booted-IsWf.0 booted-IsWf.1 (λ e. fork_call-InStack) refl

-- Three processes, of which the second is current.
abbrev ready : ℕ → Process
ready i = record (empty_slot i) { p_state = p_runnable }

abbrev three : Kernel
three = record {
  proc_array = update (update (update empty_slot 1 (ready 1)) 2 (ready 2)) 5 (ready 5);
  current = 2;
  memory = λ a. 0;
}

three-IsWf : IsWf three
three-IsWf = record {
  slots = λ i l. record {
    pid = ground arith;
    waiter_in = λ n e. ground arith;
    waiter_other = λ n e. ground arith;
    awaited = λ n e. ground arith;
  };
  unused = refl;
  current_pos = omega arith;
  current_in = omega arith;
}

schedule_nearest_example :
    (d : ℕ) × Chooses three 2 d × (schedule three ≡ some (run three (around 2 d)))
schedule_nearest_example = schedule_nearest three 1 (omega arith) (omega arith) refl

schedule_runs_five : schedule three ≡ some (run three 5)
unfolding schedule schedule_from
schedule_runs_five = refl

abbrev idle : Kernel
idle = record three { proc_array = empty_slot }

do_fork_answers_example : Answer forked 1 (do_fork forked 1)
unfolding start interrupt do_fork first_empty fork_into copy_stack syscall
do_fork_answers_example =
    do_fork_answers forked 1 forked-IsWf (omega arith) (λ e. cc)
      (record { low = omega arith; high = omega arith })

abbrev with_eax : ℕ → Registers
with_eax v = record zero_registers { reg_eax = v }

exit_then_wait_example :
    Reaped (sys_wait (traps (sys_exit (traps three 5 (with_eax 77))) 1 (with_eax 5))) 1 5 77
exit_then_wait_example =
    exit_then_wait three 1 5 (with_eax 77) (with_eax 5) three-IsWf (omega arith) (omega arith)
      (omega arith) (omega arith) (omega arith) refl (λ n e. cc)

wait_then_exit_example :
    let blocked = sys_wait (traps three 1 (with_eax 5)) in
    ((proc blocked 1).p_state ≡ p_blocked)
    × Reaped (sys_exit (traps blocked 5 (with_eax 77))) 1 5 77
wait_then_exit_example =
    wait_then_exit three 1 5 (with_eax 77) (with_eax 5) three-IsWf (omega arith) (omega arith)
      (omega arith) (omega arith) (omega arith) refl (λ e. cc) (λ e. cc)

start-IsWf_example : IsWf (start 0x200000 (λ a. a)) × IsRunning (start 0x200000 (λ a. a))
start-IsWf_example = start-IsWf 0x200000 (λ a. a)
