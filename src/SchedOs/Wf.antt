-- ===== src/SchedOs/Wf.antt =====
-- The invariant of the process table of WeensyOS2/schedos-kern.c, for `start` and every interrupt.
use cs111_ucla.Prelude.{
  ℕ, ◌≤◌, ◌<◌, ◌≡◌, refl, inl, inr, arith, Bool, true, false, ◌&&◌, ltb, leb, Bool-cases,
}
use cs111_ucla.Mpos.{is_runnable}
use cs111_ucla.SchedOs.{Kernel, Outcome, running, spinning, nprocs, proc, start}
use cs111_ucla.SchedOs.Priority.{IsReady}

-- Every slot has its own number as its pid, one of the processes 1 to 4 is the current one, and slot
-- 0 is never runnable.
pub record IsWf (k : Kernel) : Type 0 where
  pub current_in : (0 < k.current) × (k.current < nprocs)
  pub pids : (i : ℕ) → i < nprocs → (proc k i).p_pid ≡ i
  pub unused : is_runnable (proc k 0).p_state ≡ false

-- The kernel satisfies the invariant, and nothing behind the table is other than in the kernel `k0`.
pub record IsKept (k0 k : Kernel) : Type 0 where
  pub wf : IsWf k
  pub beyond : (i : ℕ) → nprocs ≤ i → proc k i ≡ proc k0 i

-- The kernel that a process finds satisfies the invariant, and no slot outside of the table is written; the
-- lottery has not read one either.
pub data IsSafe (k0 : Kernel) : Outcome → Type 0 where
  safe_running : (k : Kernel) → IsKept k0 k → IsSafe k0 (running k)
  safe_spinning : IsSafe k0 spinning

start_pids : (entry screen : ℕ → ℕ) (i : ℕ) → (proc (start entry screen) i).p_pid ≡ i
unfolding start
start_pids entry screen i = elim (Bool-cases (leb 1 i && ltb i 5)) [
  | inl used ↦ rw used refl
  | inr unused ↦ rw unused refl
]

start_ready : (entry screen : ℕ → ℕ) (i : ℕ) → 0 < i → i < nprocs → IsReady (start entry screen) i
unfolding start
start_ready entry screen i lo hi =
    let used : (leb 1 i && ltb i 5) ≡ true = ground arith in rw used refl

-- `start` runs process 1 in a table that satisfies the invariant, with the processes 1 to 4
-- runnable.
pub start-IsReady :
    (entry screen : ℕ → ℕ)
    → IsWf (start entry screen) × ((i : ℕ) → 0 < i → i < nprocs → IsReady (start entry screen) i)
unfolding start
start-IsReady entry screen = (
  record {
    current_in = (omega arith, omega arith);
    pids = λ i h. start_pids entry screen i;
    unused = refl;
  },
  start_ready entry screen,
)
