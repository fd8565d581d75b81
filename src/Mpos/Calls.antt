-- ===== src/Mpos/Calls.antt =====
-- Every system call of WeensyOS1/mpos-kern.c keeps the invariant of the process table.
use cs111_ucla.Prelude.{
  ℕ, zero, suc, ◌<◌, ◌≡◌, ◌≢◌, inl, inr, refl, ◌∙◌, Option, none, some, arith, Bool-cases,
  Option-cases, ℤ, pos, negsuc, update_self, update_ne, sym, signed32,
}
use cs111_ucla.Mpos.{
  Kernel, Process, ProcState, p_empty, p_runnable, p_blocked, p_zombie, nprocs, is_zombie, proc,
  modify, run, set_state, set_eax, set_waiting, schedule, first_empty, pid_argument, current_eax,
  wake_waiter, sys_exit, wait_for, sys_wait, sys_newthread, thread_in, kill_waiter, kill_process,
  sys_kill,
}
use cs111_ucla.Mpos.Schedule.{IsReady, schedule_from_inv, ready-runnable}
use cs111_ucla.Mpos.Invariant.{
  SlotOk, IsWf, IsRunning, IsWfBut, modify-IsWf, IsWf-IsWfBut, modify-IsWfBut, modify-restores,
  settled, regs-SlotOk, live-SlotOk, quiet-SlotOk, zombie-quiet, first_empty_inv,
}

pub run-IsWf : (k : Kernel) (i : ℕ) → IsWf k → 0 < i → i < nprocs → IsWf (run k i)
unfolding run
run-IsWf k i w h l = record { slots = w.slots; unused = w.unused; current_pos = h; current_in = l }

-- A register of a process of the table is set.
pub eax-IsWf : (k : Kernel) (i v : ℕ) → IsWf k → 0 < i → i < nprocs → IsWf (modify k i (set_eax v))
eax-IsWf k i v w h l = modify-IsWf k i (set_eax v) w h (regs-SlotOk i (proc k i) _ (w.slots i l))

-- Whom the scheduler runs is never the slot 0, which is free.
pub schedule-IsWf : (k k' : Kernel) → IsWf k → schedule k ≡ some k' → IsWf k' × IsRunning k'
unfolding schedule run
schedule-IsWf k k' w e =
    let (i, l, r, same) = schedule_from_inv 16 (proc k k.current).p_pid k k' e in
    rw same (run-IsWf k i w (positive i r) l, ready-runnable k i r)
  where
    positive : (i : ℕ) → IsReady k i → 0 < i
    positive zero r = ground (arith, w.unused)
    positive (suc i) r = omega arith

wake_waiter-IsWf :
    (k : Kernel) (w : ℤ)
    → IsWfBut k.current k
    → (proc k k.current).p_pid ≡ k.current
    → (proc k k.current).p_waiting ≡ w
    → ((n : ℕ) → w ≡ pos (suc n) → (suc n < nprocs) × (suc n ≢ k.current))
    → IsWf (wake_waiter k w)
unfolding wake_waiter
wake_waiter-IsWf k (negsuc n) b p e h =
    settled k.current k b (quiet-SlotOk k.current (proc k k.current) p λ m f. cc)
wake_waiter-IsWf k (pos zero) b p e h =
    settled k.current k b (quiet-SlotOk k.current (proc k k.current) p λ m f. cc)
wake_waiter-IsWf k (pos (suc n)) b p e h =
    let f : Process → Process =
      λ q. set_eax (proc k k.current).p_exit_status (set_state p_runnable q) in
    modify-restores k.current (modify k (suc n) f)
      (λ q. set_state p_empty (set_waiting (negsuc 0) q))
      (modify-IsWfBut k.current k (suc n) f b (omega arith) λ ne.
        regs-SlotOk (suc n) (set_state p_runnable (proc k (suc n))) _ (
          live-SlotOk (suc n) (proc k (suc n)) p_runnable (λ c. cc) (λ c. cc)
            (b.slots (suc n) (h n refl).0 ne)))
      b.current_pos
      (quiet-SlotOk k.current
        (set_state p_empty (set_waiting (negsuc 0) (proc (modify k (suc n) f) k.current)))
        (ground (arith, h n refl)) (λ m d. cc))

-- INT_SYS_EXIT.
pub sys_exit-IsWf : (k : Kernel) → IsWf k → IsWf (sys_exit k)
unfolding sys_exit
sys_exit-IsWf k w =
    let f : Process → Process =
      λ p. record p { p_state = p_zombie; p_exit_status = current_eax k } in
    let own = w.slots k.current w.current_in in
    let keeps = update_self k.proc_array k.current (f (proc k k.current)) in
    wake_waiter-IsWf (modify k k.current f) _
      (modify-IsWfBut k.current k k.current f (IsWf-IsWfBut k.current k w) w.current_pos
        (λ ne. absurd (ne refl)))
      (rw keeps own.pid) refl
      (λ n e. (own.waiter_in n (rw keeps at e), own.waiter_other n (rw keeps at e)))

-- What the argument test of INT_SYS_WAIT and INT_SYS_KILL lets through.
pub pid_argument_inv :
    (k : Kernel) (z : ℤ) (p : ℕ)
    → pid_argument k z ≡ some p
    → (0 < p) × (p < nprocs) × (p ≢ (proc k k.current).p_pid) × ((proc k p).p_state ≢ p_empty)
unfolding pid_argument
pid_argument_inv k (negsuc n) p e = cc
pid_argument_inv k (pos n) p e = ground arith

live-IsWf :
    (k : Kernel) (i : ℕ) (s : ProcState)
    → s ≢ p_empty
    → s ≢ p_zombie
    → IsWf k
    → 0 < i
    → i < nprocs
    → IsWf (modify k i (set_state s))
live-IsWf k i s a b w h l =
    modify-IsWf k i (set_state s) w h (live-SlotOk i (proc k i) s a b (w.slots i l))

free-IsWf :
    (k : Kernel) (i : ℕ)
    → (proc k i).p_state ≡ p_zombie
    → IsWf k
    → 0 < i
    → i < nprocs
    → IsWf (modify k i (set_state p_empty))
free-IsWf k i z w h l =
    let ok = w.slots i l in
    modify-IsWf k i (set_state p_empty) w h
      (quiet-SlotOk i (set_state p_empty (proc k i)) ok.pid (zombie-quiet i (proc k i) ok z))

pub state-set_eax :
    (k : Kernel) (c v p : ℕ) → (proc (modify k c (set_eax v)) p).p_state ≡ (proc k p).p_state
state-set_eax k c v p = ground arith

await-SlotOk :
    (i c : ℕ) (p : Process)
    → p.p_pid ≡ i
    → c < nprocs
    → c ≢ i
    → p.p_state ≢ p_empty
    → p.p_state ≢ p_zombie
    → SlotOk i (set_waiting (pos c) p)
await-SlotOk i c p e l n a b = record {
  pid = e;
  waiter_in = λ m d. ground arith;
  waiter_other = λ m d. ground arith;
  awaited = λ m d. (a, b);
}

wait_for-IsWf :
    (k : Kernel) (o : Option ℕ)
    → IsWf k
    → ((p : ℕ)
        → o ≡ some p
        → (0 < p) × (p < nprocs) × (p ≢ (proc k k.current).p_pid) × ((proc k p).p_state ≢ p_empty))
    → IsWf (wait_for k o)
unfolding wait_for
wait_for-IsWf k none w h = eax-IsWf k k.current _ w w.current_pos w.current_in
wait_for-IsWf k (some p) w h =
    let c = k.current in
    let (lo, hi, other, used) = h p refl in
    let own : (proc k c).p_pid ≡ c = (w.slots c w.current_in).pid in
    elim (Bool-cases (is_zombie (proc k p).p_state)) [
      | inl gone ↦
          let v = (proc k p).p_exit_status in
          let got = eax-IsWf k c v w w.current_pos w.current_in in
          let z : (proc k p).p_state ≡ p_zombie = ground arith in
          rw gone (
            live-IsWf (modify (modify k c (set_eax v)) p (set_state p_empty)) c p_runnable (λ d. cc)
              (λ d. cc) (free-IsWf (modify k c (set_eax v)) p (state-set_eax k c v p ∙ z) got lo hi)
              w.current_pos w.current_in)
      | inr live ↦
          let blocked = live-IsWf k c p_blocked (λ d. cc) (λ d. cc) w w.current_pos w.current_in in
          let k' = modify k c (set_state p_blocked) in
          rw live (
            modify-IsWf k' p (set_waiting (pos (proc k' c).p_pid)) blocked lo (
              await-SlotOk p (proc k' c).p_pid (proc k' p) (blocked.slots p hi).pid
                (ground (arith, w.current_in)) (ground arith) (λ d. ground arith)
                (λ d. ground arith)))
    ]

-- INT_SYS_WAIT.
pub sys_wait-IsWf : (k : Kernel) → IsWf k → IsWf (sys_wait k)
unfolding sys_wait
sys_wait-IsWf k w =
    wait_for-IsWf k (pid_argument k (signed32 (current_eax k))) w
      (λ p e. pid_argument_inv k (signed32 (current_eax k)) p e)

-- INT_SYS_NEWTHREAD.
pub sys_newthread-IsWf : (k : Kernel) → IsWf k → IsWf (sys_newthread k)
unfolding sys_newthread
sys_newthread-IsWf k w = elim (Option-cases (first_empty 15 1 k)) [
  | inl full ↦ rw (full, sys_newthread) w
  | inr (p, e) ↦
      let (lo, hi, free) = first_empty_inv 15 1 p k e in
      rw (e, sys_newthread)
        (eax-IsWf (modify k p (thread_in k p)) k.current p
          (modify-IsWf k p (thread_in k p) w (omega arith)
            (quiet-SlotOk p (thread_in k p (proc k p)) refl (λ n d. cc)))
          w.current_pos w.current_in)
]

kill_waiter-IsWf :
    (k : Kernel) (p : ℕ) (z : ℤ)
    → IsWfBut p k
    → 0 < p
    → (proc k p).p_pid ≡ p
    → (proc k p).p_waiting ≡ z
    → ((n : ℕ) → z ≡ pos (suc n) → (suc n < nprocs) × (suc n ≢ p))
    → IsWf (kill_waiter k p z)
unfolding kill_waiter
kill_waiter-IsWf k p (negsuc n) b lo own e h =
    settled p k b (quiet-SlotOk p (proc k p) own λ m f. cc)
kill_waiter-IsWf k p (pos zero) b lo own e h =
    settled p k b (quiet-SlotOk p (proc k p) own λ m f. cc)
kill_waiter-IsWf k p (pos (suc n)) b lo own e h =
    modify-restores p (modify k (suc n) (set_state p_runnable)) (set_waiting (negsuc 0))
      (modify-IsWfBut p k (suc n) (set_state p_runnable) b (omega arith) λ ne.
        live-SlotOk (suc n) (proc k (suc n)) p_runnable (λ c. cc) (λ c. cc)
          (b.slots (suc n) (h n refl).0 ne))
      lo
      (quiet-SlotOk p (set_waiting (negsuc 0) (proc (modify k (suc n) (set_state p_runnable)) p))
        (ground (arith, h n refl)) (λ m d. cc))

-- INT_SYS_KILL.
kill_process-IsWf :
    (k : Kernel) (o : Option ℕ)
    → IsWf k
    → ((p : ℕ)
        → o ≡ some p
        → (0 < p) × (p < nprocs) × (p ≢ (proc k k.current).p_pid) × ((proc k p).p_state ≢ p_empty))
    → IsWf (kill_process k o)
unfolding kill_process
kill_process-IsWf k none w h = eax-IsWf k k.current _ w w.current_pos w.current_in
kill_process-IsWf k (some p) w h =
    let (lo, hi, other, used) = h p refl in
    let c = k.current in
    let ok = w.slots p hi in
    let freed = modify k p (set_state p_empty) in
    let e : proc (modify freed c (set_eax 0)) p ≡ set_state p_empty (proc k p) =
      ground (arith, w.slots c w.current_in) in
    kill_waiter-IsWf (modify freed c (set_eax 0)) p _
      (modify-IsWfBut p freed c (set_eax 0)
        (modify-IsWfBut p k p (set_state p_empty) (IsWf-IsWfBut p k w) lo (λ ne. absurd (ne refl)))
        w.current_pos
        λ ne.
          rw (update_ne k.proc_array p c (set_state p_empty (proc k p)) (λ d. ne (sym d)))
            (regs-SlotOk c (proc k c) _ (w.slots c w.current_in)))
      lo (rw e ok.pid) refl (λ n d. (ok.waiter_in n (rw e at d), ok.waiter_other n (rw e at d)))

pub sys_kill-IsWf : (k : Kernel) → IsWf k → IsWf (sys_kill k)
unfolding sys_kill
sys_kill-IsWf k w =
    kill_process-IsWf k (pid_argument k (signed32 (current_eax k))) w
      (λ p e. pid_argument_inv k (signed32 (current_eax k)) p e)
