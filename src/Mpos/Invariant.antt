-- ===== src/Mpos/Invariant.antt =====
-- The invariant of the process table of WeensyOS1/mpos-kern.c, and that every system call keeps it.
use cs111_ucla.Prelude.{
  ℕ, zero, suc, ◌+◌, ◌≤◌, ◌<◌, ◌≡◌, ◌≢◌, inl, inr, sym, ◌∙◌, some, arith, Bool-cases, pos, ◌==◌,
}
use cs111_ucla.Mpos.{
  Kernel, Process, ProcState, Registers, p_empty, p_runnable, p_zombie, nprocs, is_empty, proc,
  modify, set_state, first_empty,
}

-- A slot of the table: it has its own index as its pid; a process that waits for it is another one
-- of the table; and nobody waits for a slot that is free or has ended.
pub record SlotOk (i : ℕ) (p : Process) : Type 0 where
  pub pid : p.p_pid ≡ i
  pub waiter_in : (n : ℕ) → p.p_waiting ≡ pos (suc n) → suc n < nprocs
  pub waiter_other : (n : ℕ) → p.p_waiting ≡ pos (suc n) → suc n ≢ i
  pub awaited : (n : ℕ) → p.p_waiting ≡ pos (suc n) → (p.p_state ≢ p_empty) × (p.p_state ≢ p_zombie)

pub record IsWf (k : Kernel) : Type 0 where
  pub slots : (i : ℕ) → i < nprocs → SlotOk i (proc k i)
  pub unused : (proc k 0).p_state ≡ p_empty
  pub current_pos : 0 < k.current
  pub current_in : k.current < nprocs

-- Between system calls the current process is a runnable one.
abbrev pub IsRunning : Kernel → Type 0
IsRunning k = (proc k k.current).p_state ≡ p_runnable

pub modify-IsWf :
    (k : Kernel) (i : ℕ) (f : Process → Process)
    → IsWf k
    → 0 < i
    → SlotOk i (f (proc k i))
    → IsWf (modify k i f)
modify-IsWf k i f w h s = record {
  slots = λ j l. elim (Bool-cases (i == j)) [
    | inl same ↦ rw same (let e : i ≡ j = ground arith in rw (← e) s)
    | inr other ↦ rw other (w.slots j l)
  ];
  unused = ground (arith, w.unused);
  current_pos = w.current_pos;
  current_in = w.current_in;
}

-- In the middle of a call one slot, `c`, may be in disorder.
pub record IsWfBut (c : ℕ) (k : Kernel) : Type 0 where
  pub slots : (i : ℕ) → i < nprocs → i ≢ c → SlotOk i (proc k i)
  pub unused : (proc k 0).p_state ≡ p_empty
  pub current_pos : 0 < k.current
  pub current_in : k.current < nprocs

pub IsWf-IsWfBut : (c : ℕ) (k : Kernel) → IsWf k → IsWfBut c k
IsWf-IsWfBut c k w = record {
  slots = λ i l n. w.slots i l;
  unused = w.unused;
  current_pos = w.current_pos;
  current_in = w.current_in;
}

pub modify-IsWfBut :
    (c : ℕ) (k : Kernel) (i : ℕ) (f : Process → Process)
    → IsWfBut c k
    → 0 < i
    → (i ≢ c → SlotOk i (f (proc k i)))
    → IsWfBut c (modify k i f)
modify-IsWfBut c k i f w h s = record {
  slots = λ j l n. elim (Bool-cases (i == j)) [
    | inl same ↦ rw same (let e : i ≡ j = ground arith in rw (← e) (s (λ d. n (sym e ∙ d))))
    | inr other ↦ rw other (w.slots j l n)
  ];
  unused = ground (arith, w.unused);
  current_pos = w.current_pos;
  current_in = w.current_in;
}

-- Setting that slot right again.
pub modify-restores :
    (c : ℕ) (k : Kernel) (f : Process → Process)
    → IsWfBut c k
    → 0 < c
    → SlotOk c (f (proc k c))
    → IsWf (modify k c f)
modify-restores c k f w h s = record {
  slots = λ j l. elim (Bool-cases (c == j)) [
    | inl same ↦ rw same (let e : c ≡ j = ground arith in rw (← e) s)
    | inr other ↦ rw other (w.slots j l (λ e. ground arith))
  ];
  unused = ground (arith, w.unused);
  current_pos = w.current_pos;
  current_in = w.current_in;
}

pub settled : (c : ℕ) (k : Kernel) → IsWfBut c k → SlotOk c (proc k c) → IsWf k
settled c k w s = record {
  slots = λ j l. elim (Bool-cases (c == j)) [
    | inl same ↦ (let e : c ≡ j = ground arith in rw (← e) s)
    | inr other ↦ w.slots j l (λ e. ground arith)
  ];
  unused = w.unused;
  current_pos = w.current_pos;
  current_in = w.current_in;
}

-- The registers of a slot are of no matter.
pub regs-SlotOk :
    (i : ℕ) (p : Process) (r : Registers) → SlotOk i p → SlotOk i (record p { p_registers = r })
regs-SlotOk i p r s = record {
  pid = s.pid;
  waiter_in = s.waiter_in;
  waiter_other = s.waiter_other;
  awaited = s.awaited;
}

-- So does making it runnable or blocked.
pub live-SlotOk :
    (i : ℕ) (p : Process) (s : ProcState)
    → s ≢ p_empty
    → s ≢ p_zombie
    → SlotOk i p
    → SlotOk i (set_state s p)
live-SlotOk i p s a b ok = record {
  pid = ok.pid;
  waiter_in = ok.waiter_in;
  waiter_other = ok.waiter_other;
  awaited = λ n e. (a, b);
}

-- A slot that nobody waits for may be in any state.
pub quiet-SlotOk :
    (i : ℕ) (p : Process) → p.p_pid ≡ i → ((n : ℕ) → p.p_waiting ≢ pos (suc n)) → SlotOk i p
quiet-SlotOk i p a b = record {
  pid = a;
  waiter_in = λ n e. absurd (b n e);
  waiter_other = λ n e. absurd (b n e);
  awaited = λ n e. absurd (b n e);
}

-- A free slot, and one that has ended, is quiet.
pub free-quiet :
    (i : ℕ) (p : Process) → SlotOk i p → p.p_state ≡ p_empty → (n : ℕ) → p.p_waiting ≢ pos (suc n)
free-quiet i p s e n w = (s.awaited n w).0 e

pub zombie-quiet :
    (i : ℕ) (p : Process) → SlotOk i p → p.p_state ≡ p_zombie → (n : ℕ) → p.p_waiting ≢ pos (suc n)
zombie-quiet i p s e n w = (s.awaited n w).1 e

-- The search for a free slot answers with one in range.
pub first_empty_inv :
    (n pid p : ℕ) (k : Kernel)
    → first_empty n pid k ≡ some p
    → (pid ≤ p) × (p < pid + n) × ((proc k p).p_state ≡ p_empty)
unfolding first_empty
first_empty_inv zero pid p k e = cc
first_empty_inv (suc n) pid p k e = elim (Bool-cases (is_empty (proc k pid).p_state)) [
  | inl free ↦ ground arith
  | inr used ↦
      let rest = first_empty_inv n (pid + 1) p k (rw used at e) in
      (omega arith, omega arith, rest.2)
]
