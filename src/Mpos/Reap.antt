-- ===== src/Mpos/Reap.antt =====
-- sys_exit and sys_wait of WeensyOS1/mpos-kern.c together: how an exit status gets to who waits.
use cs111_ucla.Prelude.{
  ℕ, zero, suc, ◌<◌, ◌≡◌, ◌≢◌, refl, ◌∙◌, some, arith, ℤ, pos, negsuc, signed32,
}
use cs111_ucla.Mpos.{
  Kernel, Registers, p_empty, p_runnable, p_blocked, p_zombie, nprocs, proc, modify, run,
  set_registers, pid_argument, current_eax, wake_waiter, sys_exit, sys_wait,
}
use cs111_ucla.Mpos.Invariant.{IsWf}

-- An argument that names another used slot of the table passes the test.
pid_argument_ok :
    (k : Kernel) (p : ℕ)
    → 0 < p
    → p < nprocs
    → p ≢ (proc k k.current).p_pid
    → (proc k p).p_state ≢ p_empty
    → pid_argument k (signed32 p) ≡ some p
unfolding pid_argument
pid_argument_ok k p lo hi other used = ground arith

sys_wait-zombie :
    (k : Kernel) (p : ℕ)
    → pid_argument k (signed32 (current_eax k)) ≡ some p
    → (proc k p).p_state ≡ p_zombie
    → p ≢ k.current
    → let k' = sys_wait k in
      ((proc k' k.current).p_registers.reg_eax ≡ (proc k p).p_exit_status)
      × ((proc k' k.current).p_state ≡ p_runnable)
      × ((proc k' p).p_state ≡ p_empty)
unfolding sys_wait
sys_wait-zombie k p e z n = rw (e, sys_wait) (ground arith)

sys_wait-live :
    (k : Kernel) (p : ℕ)
    → pid_argument k (signed32 (current_eax k)) ≡ some p
    → (proc k p).p_state ≢ p_zombie
    → p ≢ k.current
    → let k' = sys_wait k in
      ((proc k' k.current).p_state ≡ p_blocked)
      × ((proc k' p).p_waiting ≡ pos (proc k k.current).p_pid)
unfolding sys_wait
sys_wait-live k p e z n = rw (e, sys_wait) (ground arith)

-- The call passes nothing on to a waiter, and ends.
wake_waiter-nobody : (k : Kernel) (z : ℤ) → ((n : ℕ) → z ≢ pos (suc n)) → wake_waiter k z ≡ k
unfolding wake_waiter
wake_waiter-nobody k (negsuc n) h = refl
wake_waiter-nobody k (pos zero) h = refl
wake_waiter-nobody k (pos (suc n)) h = absurd (h n refl)

abbrev ended : Kernel → Kernel
ended k =
    let status = current_eax k in
    modify k k.current (λ p. record p { p_state = p_zombie; p_exit_status = status })

sys_exit-nobody :
    (k : Kernel) → ((n : ℕ) → (proc k k.current).p_waiting ≢ pos (suc n)) → sys_exit k ≡ ended k
unfolding sys_exit
sys_exit-nobody k h =
    wake_waiter-nobody (ended k) (proc (ended k) k.current).p_waiting (λ n e. h n (ground arith))

sys_exit-awaited :
    (k : Kernel) (c : ℕ)
    → 0 < c
    → (proc k k.current).p_waiting ≡ pos c
    → c ≢ k.current
    → let k' = sys_exit k in
      ((proc k' c).p_registers.reg_eax ≡ current_eax k)
      × ((proc k' c).p_state ≡ p_runnable)
      × ((proc k' k.current).p_state ≡ p_empty)
unfolding sys_exit wake_waiter
sys_exit-awaited k zero l e h = absurd (omega arith)
sys_exit-awaited k (suc n) l e h = ground arith

-- The process `i` runs and traps into the kernel with the registers `reg`.
abbrev pub traps : Kernel → ℕ → Registers → Kernel
traps k i reg = let k' = run k i in modify k' i (set_registers reg)

-- The process `c` has the status of `p` as the result of its sys_wait and is runnable again, and
-- the slot of `p` is free.
pub record Reaped (k : Kernel) (c p status : ℕ) : Type 0 where
  pub result : (proc k c).p_registers.reg_eax ≡ status
  pub resumed : (proc k c).p_state ≡ p_runnable
  pub freed : (proc k p).p_state ≡ p_empty

module _ (k : Kernel) (c p : ℕ) (exit_regs wait_regs : Registers) (w : IsWf k) (c_pos : 0 < c)
    (c_in : c < nprocs) (p_pos : 0 < p) (p_in : p < nprocs) (other : p ≢ c)
    (argument : wait_regs.reg_eax ≡ p) where
  -- `p` exits with the status in its %eax while nobody waits for it, and `c` calls sys_wait(p)
  -- next: it reaps that status.
  pub exit_then_wait :
      ((n : ℕ) → (proc k p).p_waiting ≢ pos (suc n))
      → Reaped (sys_wait (traps (sys_exit (traps k p exit_regs)) c wait_regs)) c p exit_regs.reg_eax
  unfolding run
  exit_then_wait nobody =
      let k' = traps (ended (traps k p exit_regs)) c wait_regs in
      let eax : current_eax k' ≡ p = ground (arith, argument) in
      let own = (w.slots c c_in).pid in
      let passes =
        pid_argument_ok k' p p_pos p_in (ground (arith, own, other)) (λ e. ground (arith, other)) in
      let (result, resumed, freed) =
        sys_wait-zombie k' p (rw eax passes) (ground (arith, other)) other in
      rw (sys_exit-nobody (traps k p exit_regs) (λ n e. nobody n (ground arith)))
        (record { result = result ∙ ground (arith, other); resumed = resumed; freed = freed })

  -- `c` calls sys_wait(p) while `p` has not ended: it blocks, and if the next call of any process is the exit
  -- of `p`, it reaps the status in the %eax of `p`.
  pub wait_then_exit :
      (proc k p).p_state ≢ p_empty
      → (proc k p).p_state ≢ p_zombie
      → let blocked = sys_wait (traps k c wait_regs) in
        ((proc blocked c).p_state ≡ p_blocked)
        × Reaped (sys_exit (traps blocked p exit_regs)) c p exit_regs.reg_eax
  unfolding run
  wait_then_exit used going =
      let k' = traps k c wait_regs in
      let eax : current_eax k' ≡ p = ground (arith, argument) in
      let own = (w.slots c c_in).pid in
      let passes =
        pid_argument_ok k' p p_pos p_in (ground (arith, own, other)) (λ e. ground (arith, other)) in
      let (blocked, awaited) =
        sys_wait-live k' p (rw eax passes) (λ e. ground (arith, other)) other in
      let waits : (proc (sys_wait k') p).p_waiting ≡ pos c = awaited ∙ ground (arith, own) in
      let (result, resumed, freed) =
        sys_exit-awaited (traps (sys_wait k') p exit_regs) c c_pos (ground (arith, waits))
          (λ e. ground (arith, other)) in
      (blocked, record { result = result ∙ ground arith; resumed = resumed; freed = freed })
