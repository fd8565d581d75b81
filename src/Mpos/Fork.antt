-- ===== src/Mpos/Fork.antt =====
-- do_fork and copy_stack of WeensyOS1/mpos-kern.c keep the invariant of the process table.
use cs111_ucla.Prelude.{ℕ, ◌<◌, ◌≡◌, ◌≢◌, inl, inr, refl, ◌∙◌, arith, Option-cases}
use cs111_ucla.Mpos.{
  Kernel, set_esp, set_registers, finish_child, p_empty, nprocs, proc, modify, first_empty,
  copy_stack, dest_stack_bottom, fork_into, do_fork,
}
use cs111_ucla.Mpos.Invariant.{
  IsWf, IsRunning, modify-IsWf, regs-SlotOk, quiet-SlotOk, free-quiet, first_empty_inv,
}

copy_stack-IsWf : (k : Kernel) (p c : ℕ) → IsWf k → 0 < p → p < nprocs → IsWf (copy_stack k p c)
unfolding copy_stack
copy_stack-IsWf k p c w lo hi =
    modify-IsWf (record k { memory = (copy_stack k p c).memory }) p
      (set_esp (dest_stack_bottom k p c))
      (record {
        slots = w.slots;
        unused = w.unused;
        current_pos = w.current_pos;
        current_in = w.current_in;
      })
      lo (regs-SlotOk p (proc k p) _ (w.slots p hi))

state-copy_stack : (k : Kernel) (p c : ℕ) → (proc (copy_stack k p c) p).p_state ≡ (proc k p).p_state
unfolding copy_stack
state-copy_stack k p c = ground arith

-- INT_SYS_FORK.
fork_into-IsWf :
    (k : Kernel) (c p : ℕ)
    → IsWf k
    → 0 < p
    → p < nprocs
    → (proc k p).p_state ≡ p_empty
    → IsWf (fork_into k c p)
unfolding fork_into
fork_into-IsWf k c p w lo hi free =
    let copied = modify k p (set_registers (proc k c).p_registers) in
    let w' =
      modify-IsWf k p (set_registers (proc k c).p_registers) w lo
        (regs-SlotOk p (proc k p) (proc k c).p_registers (w.slots p hi)) in
    let w'' = copy_stack-IsWf copied p c w' lo hi in
    modify-IsWf (copy_stack copied p c) p (finish_child p) w'' lo (
      quiet-SlotOk p (finish_child p (proc (copy_stack copied p c) p)) refl (
        free-quiet p (proc (copy_stack copied p c) p) (w''.slots p hi)
          (state-copy_stack copied p c ∙ ground arith)))

pub do_fork-IsWf : (k : Kernel) (c : ℕ) → IsWf k → IsWf (do_fork k c).1
unfolding do_fork
do_fork-IsWf k c w = elim (Option-cases (first_empty 15 1 k)) [
  | inl full ↦ rw (full, do_fork) w
  | inr (p, e) ↦
      let (lo, hi, free) = first_empty_inv 15 1 p k e in
      rw (e, do_fork) (fork_into-IsWf k c p w (omega arith) (omega arith) free)
]

-- Only the child's slot of the table changes.
pub fork_into_other : (k : Kernel) (c p i : ℕ) → p ≢ i → proc (fork_into k c p) i ≡ proc k i
unfolding fork_into copy_stack
fork_into_other k c p i h = ground arith

pub current-fork_into : (k : Kernel) (c p : ℕ) → (fork_into k c p).current ≡ k.current
unfolding fork_into copy_stack
current-fork_into k c p = refl

pub current-do_fork : (k : Kernel) (c : ℕ) → (do_fork k c).1.current ≡ k.current
unfolding do_fork
current-do_fork k c = elim (Option-cases (first_empty 15 1 k)) [
  | inl full ↦ rw (full, do_fork)
  | inr (p, e) ↦ rw (e, do_fork) (current-fork_into k c p)
]

pub do_fork-IsRunning : (k : Kernel) (c : ℕ) → IsRunning k → IsRunning (do_fork k c).1
unfolding do_fork
do_fork-IsRunning k c r = elim (Option-cases (first_empty 15 1 k)) [
  | inl full ↦ rw (full, do_fork) r
  | inr (p, e) ↦
      let free = (first_empty_inv 15 1 p k e).2 in
      let other : p ≢ k.current = λ same. cc in
      rw (e, do_fork) (rw (current-fork_into k c p, fork_into_other k c p k.current other) r)
]
