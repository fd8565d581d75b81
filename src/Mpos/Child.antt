-- ===== src/Mpos/Child.antt =====
-- What do_fork of WeensyOS1/mpos-kern.c makes: the child's registers and its stack.
use cs111_ucla.Prelude.{
  ℕ, zero, suc, ◌+◌, ◌*◌, ◌-◌, ◌≤◌, ◌<◌, ◌≡◌, ◌≢◌, ◌⊎◌, inl, inr, sym, ap, ◌∙◌, none, arith,
  Bool-cases, Option-cases, lt_or_gt, negsuc, word_of, sub32,
}
use cs111_ucla.Mpos.{
  Kernel, p_empty, p_runnable, nprocs, is_empty, proc, modify, set_registers, proc1_stack_addr,
  proc_stack_size, stack_top, first_empty, dest_stack_bottom, copy_stack, fork_into, do_fork,
}
use cs111_ucla.Mpos.Invariant.{IsWf, first_empty_inv}
use cs111_ucla.Mpos.Fork.{fork_into_other}
use cs111_ucla.Mpos.Memory.{memcpy, memcpy_outside, memcpy_inside}

-- The stack of the process `i` ends at `top i` and begins a stack size below.
abbrev pub top : ℕ → ℕ
top i = proc1_stack_addr + i * proc_stack_size

-- The stack pointer of a process stands in its own stack.
pub record InStack (i esp : ℕ) : Type 0 where
  pub low : top i ≤ esp + proc_stack_size
  pub high : esp ≤ top i

-- The child `p` of `c` in the kernel `k'` that do_fork leaves, against the kernel `k` before.
pub record Forked (k : Kernel) (c p : ℕ) (k' : Kernel) : Type 0 where
  pub registers : (proc k' p).p_registers ≡ record (proc k c).p_registers {
    reg_eax = 0;
    reg_esp = (proc k c).p_registers.reg_esp + top p - top c;
  }
  pub runnable : (proc k' p).p_state ≡ p_runnable
  pub others : (i : ℕ) → i ≢ p → proc k' i ≡ proc k i
  pub stack :
      (i : ℕ)
      → (proc k c).p_registers.reg_esp + i < top c
      → k'.memory ((proc k' p).p_registers.reg_esp + i)
        ≡ k.memory ((proc k c).p_registers.reg_esp + i)
  pub memory :
      (a : ℕ) → (a < (proc k' p).p_registers.reg_esp) ⊎ (top p ≤ a) → k'.memory a ≡ k.memory a

module _ (k : Kernel) (c p : ℕ) (w : IsWf k) (c_in : c < nprocs) (p_in : p < nprocs) (other : p ≢ c)
    (sp : InStack c (proc k c).p_registers.reg_esp) where
  abbrev esp : ℕ
  esp = (proc k c).p_registers.reg_esp

  abbrev child_esp : ℕ
  child_esp = esp + top p - top c

  copied_state : Kernel
  copied_state = modify k p (set_registers (proc k c).p_registers)

  child_bottom : dest_stack_bottom copied_state p c ≡ child_esp
  unfolding copied_state
  child_bottom = ground (arith, (w.slots c c_in).pid, (w.slots p p_in).pid, other)

  stack_length :
      sub32 (stack_top (proc copied_state c).p_pid) (proc copied_state c).p_registers.reg_esp
      ≡ top c - esp
  unfolding copied_state
  stack_length = ground (arith, (w.slots c c_in).pid, other)

  child_registers :
      (proc (fork_into k c p) p).p_registers
      ≡ record (proc k c).p_registers { reg_eax = 0; reg_esp = child_esp }
  unfolding fork_into copy_stack copied_state
  child_registers = ground (arith, child_bottom)

  child_memory : (fork_into k c p).memory ≡ memcpy (top c - esp) child_esp esp k.memory
  unfolding fork_into copy_stack copied_state
  child_memory =
      ap
        (λ n.
          memcpy n (dest_stack_bottom copied_state p c) (proc copied_state c).p_registers.reg_esp
            k.memory)
        stack_length
      ∙ ap (λ b. memcpy (top c - esp) b (proc copied_state c).p_registers.reg_esp k.memory)
          child_bottom
      ∙ ap (λ (b : ℕ). memcpy (top c - esp) child_esp b k.memory) (ground (arith, other))

  child_runs : (proc (fork_into k c p) p).p_state ≡ p_runnable
  unfolding fork_into
  child_runs = ground arith

  -- The two stacks do not meet.
  apart : (child_esp + (top c - esp) ≤ esp) ⊎ (esp + (top c - esp) ≤ child_esp)
  apart = elim (lt_or_gt p c other) [
    | inl below ↦ inl (omega (arith, sp))
    | inr above ↦ inr (omega (arith, sp))
  ]

  out :
      (a : ℕ)
      → (a < (proc (fork_into k c p) p).p_registers.reg_esp) ⊎ (top p ≤ a)
      → (a < child_esp) ⊎ (child_esp + (top c - esp) ≤ a)
  out a (inl h) = inl (rw child_registers at h)
  out a (inr h) = inr (omega (arith, sp))

  child_Forked : Forked k c p (fork_into k c p)
  child_Forked = record {
    registers = child_registers;
    runnable = child_runs;
    others = λ i ne. fork_into_other k c p i (λ e. ne (sym e));
    stack = λ i h.
        rw (child_registers, child_memory)
          (memcpy_inside (top c - esp) child_esp esp i k.memory apart (omega arith));
    memory =
        λ a h. rw child_memory (memcpy_outside (top c - esp) child_esp esp a k.memory (out a h));
  }

-- The search finds a free slot if there is one among those that it looks at.
first_empty_full :
    (n pid i : ℕ) (k : Kernel)
    → first_empty n pid k ≡ none
    → pid ≤ i
    → i < pid + n
    → (proc k i).p_state ≢ p_empty
unfolding first_empty
first_empty_full zero pid i k e lo hi free = absurd (omega arith)
first_empty_full (suc n) pid i k e lo hi free = elim (Bool-cases (is_empty (proc k pid).p_state)) [
  | inl yes' ↦ ground arith
  | inr used ↦ first_empty_full n (pid + 1) i k (rw used at e) (ground arith) (omega arith) free
]

-- What do_fork answers: the pid of a child, or -1 with nothing changed.
pub data Answer (k : Kernel) (c : ℕ) : ℕ × Kernel → Type 0 where
  child :
      (p : ℕ) (k' : Kernel)
      → 0 < p
      → p < nprocs
      → (proc k p).p_state ≡ p_empty
      → Forked k c p k'
      → Answer k c (p, k')
  full :
      ((i : ℕ) → 0 < i → i < nprocs → (proc k i).p_state ≢ p_empty)
      → Answer k c (word_of (negsuc 0), k)

-- In a table that satisfies the invariant, for a used process `c` whose stack pointer stands in its
-- own stack, do_fork either returns the pid of a slot that was free, which now holds a runnable
-- child: its registers are the parent's but for %eax (0) and the stack pointer, which stands as deep
-- in the child's stack as the parent's does in its own; the bytes from it to the stack's top are the
-- parent's; no other slot and no other byte has changed. Or no slot from 1 on was free, and it
-- returns -1 and changes nothing.
pub do_fork_answers :
    (k : Kernel) (c : ℕ)
    → IsWf k
    → c < nprocs
    → (proc k c).p_state ≢ p_empty
    → InStack c (proc k c).p_registers.reg_esp
    → Answer k c (do_fork k c)
unfolding do_fork
do_fork_answers k c w c_in used sp = elim (Option-cases (first_empty 15 1 k)) [
  | inl e ↦ rw (e, do_fork) (full λ i lo hi. first_empty_full 15 1 i k e lo hi)
  | inr (p, e) ↦
      let (lo, hi, free) = first_empty_inv 15 1 p k e in
      rw (e, do_fork)
        (child p (fork_into k c p) (omega arith) (omega arith) free
          (child_Forked k c p w c_in (omega arith) (λ same. used (ground arith)) sp))
]
