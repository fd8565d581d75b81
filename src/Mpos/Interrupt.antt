-- ===== src/Mpos/Interrupt.antt =====
-- `interrupt` and `start` of WeensyOS1/mpos-kern.c against the invariant of the process table.
use cs111_ucla.Prelude.{ℕ, ◌≡◌, refl, ◌∙◌, Option, none, some, arith, some_inj}
use cs111_ucla.Mpos.{
  Kernel, set_registers, dispatch, Registers, proc, modify, run, set_eax, do_fork, sys_exit,
  sys_wait, sys_newthread, sys_kill, Syscall, getpid, fork, yields, exits, waits, newthread, kills,
  syscall, interrupt, start, decode,
}
use cs111_ucla.Mpos.Invariant.{IsWf, IsRunning, modify-IsWf, regs-SlotOk, quiet-SlotOk}
use cs111_ucla.Mpos.Calls.{
  state-set_eax, run-IsWf, eax-IsWf, schedule-IsWf, sys_exit-IsWf, sys_wait-IsWf,
  sys_newthread-IsWf, sys_kill-IsWf,
}
use cs111_ucla.Mpos.Child.{InStack}
use cs111_ucla.Mpos.Fork.{do_fork-IsWf, do_fork-IsRunning}

-- Every system call keeps the invariant of the table, and ends with a runnable current process.
syscall-IsWf :
    (k k' : Kernel) (c : Syscall)
    → IsWf k
    → IsRunning k
    → syscall k c ≡ some k'
    → IsWf k' × IsRunning k'
unfolding syscall
syscall-IsWf k k' getpid w r e =
    let after = run (modify k k.current (set_eax (proc k k.current).p_pid)) k.current in
    let same : after ≡ k' = some_inj e in
    rw (← same) (
      run-IsWf _ k.current (eax-IsWf k k.current _ w w.current_pos w.current_in) w.current_pos
          w.current_in,
      state-set_eax k k.current (proc k k.current).p_pid k.current ∙ r,
    )
syscall-IsWf k k' fork w r e =
    let (pid, forked) = do_fork k k.current in
    let w' = do_fork-IsWf k k.current w in
    let same : run (modify forked forked.current (set_eax pid)) forked.current ≡ k' = some_inj e in
    rw (← same) (
      run-IsWf _ forked.current (eax-IsWf forked forked.current pid w' w'.current_pos w'.current_in)
          w'.current_pos w'.current_in,
      state-set_eax forked forked.current pid forked.current ∙ do_fork-IsRunning k k.current r,
    )
syscall-IsWf k k' yields w r e = schedule-IsWf k k' w e
syscall-IsWf k k' exits w r e = schedule-IsWf (sys_exit k) k' (sys_exit-IsWf k w) e
syscall-IsWf k k' waits w r e = schedule-IsWf (sys_wait k) k' (sys_wait-IsWf k w) e
syscall-IsWf k k' newthread w r e = schedule-IsWf (sys_newthread k) k' (sys_newthread-IsWf k w) e
syscall-IsWf k k' kills w r e = schedule-IsWf (sys_kill k) k' (sys_kill-IsWf k w) e

dispatch-IsWf :
    (k k' : Kernel) (o : Option Syscall)
    → IsWf k
    → IsRunning k
    → dispatch k o ≡ some k'
    → IsWf k' × IsRunning k'
unfolding dispatch
dispatch-IsWf k k' none w r e = cc
dispatch-IsWf k k' (some c) w r e = syscall-IsWf k k' c w r e

-- If `interrupt` comes back to a process, for a call that is not a fork or a fork whose stack pointer
-- stands in the stack of the current process, then the invariant of the process table that
-- held before holds again, and the process that goes on is a runnable one of the table.
pub interrupt-IsWf :
    (k k' : Kernel) (reg : Registers)
    → IsWf k
    → IsRunning k
    → (decode reg.reg_intno ≡ some fork → InStack k.current reg.reg_esp)
    → interrupt k reg ≡ some k'
    → IsWf k' × IsRunning k'
unfolding interrupt
interrupt-IsWf k k' reg w r sp e =
    dispatch-IsWf (modify k k.current (set_registers reg)) k' (decode reg.reg_intno)
      (modify-IsWf k k.current (set_registers reg) w w.current_pos
        (regs-SlotOk k.current (proc k k.current) reg (w.slots k.current w.current_in)))
      (ground arith) e

-- The first process starts in a table that satisfies the invariant.
pub start-IsWf :
    (entry : ℕ) (memory : ℕ → ℕ) → IsWf (start entry memory) × IsRunning (start entry memory)
unfolding start
start-IsWf entry memory = (
  record {
    slots = λ i l. quiet-SlotOk i _ (ground arith) (λ n e. ground arith);
    unused = refl;
    current_pos = omega arith;
    current_in = omega arith;
  },
  refl,
)

-- A process blocks for ever in sys_exit and sys_wait only.
abbrev pub MayBlock : Syscall → Type 0
MayBlock exits = Unit
MayBlock waits = Unit
MayBlock _ = ⊥
