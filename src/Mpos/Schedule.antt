-- ===== src/Mpos/Schedule.antt =====
-- `schedule` of WeensyOS1/mpos-kern.c: whom it runs, and when it spins.
use cs111_ucla.Prelude.{
  ℕ, zero, suc, ◌+◌, ◌-◌, ◌%◌, ◌≤◌, ◌<◌, ◌≡◌, inl, inr, refl, true, false, none, some, arith,
  Bool-cases,
}
use cs111_ucla.Mpos.{Kernel, p_runnable, nprocs, is_runnable, proc, run, schedule_from, schedule}

abbrev pub IsReady : Kernel → ℕ → Type 0
IsReady k i = is_runnable (proc k i).p_state ≡ true

pub ready-runnable : (k : Kernel) (i : ℕ) → IsReady k i → (proc k i).p_state ≡ p_runnable
ready-runnable k i h = ground arith

-- The process `d` places round the table from `pid`.
abbrev pub around : ℕ → ℕ → ℕ
around pid d = (pid + d) % nprocs

-- What it means that the scheduler chose the `d`th process after `pid`.
pub record Chooses (k : Kernel) (pid d : ℕ) : Type 0 where
  pub ahead : 0 < d
  pub within : d ≤ nprocs
  pub ready : IsReady k (around pid d)
  pub nearest : (e : ℕ) → 0 < e → e < d → ¬ (IsReady k (around pid e))

around-step : (pid d : ℕ) → around (around pid 1) d ≡ around pid (suc d)
around-step pid d = omega arith

-- The loop has reached the `e`th process after `pid`, no later than the `d`th.
record Reached (fuel pid d : ℕ) (k : Kernel) (e : ℕ) : Type 0 where
  ahead : 0 < e
  within : e ≤ d
  runs : schedule_from fuel pid k ≡ some (run k (around pid e))
  ready : IsReady k (around pid e)
  nearest : (c : ℕ) → 0 < c → c < e → ¬ (IsReady k (around pid c))

Reached-now :
    (fuel pid d : ℕ) (k : Kernel) → 0 < d → IsReady k (around pid 1) → Reached (suc fuel) pid d k 1
unfolding schedule_from
Reached-now fuel pid d k h now = record {
  ahead = omega arith;
  within = omega arith;
  runs = rw now;
  ready = now;
  nearest = λ c p q. absurd (omega arith);
}

Reached-later :
    (fuel pid d e : ℕ) (k : Kernel)
    → is_runnable (proc k (around pid 1)).p_state ≡ false
    → Reached fuel (around pid 1) d k e
    → Reached (suc fuel) pid (suc d) k (suc e)
unfolding schedule_from
Reached-later fuel pid d e k skip r = record {
  ahead = omega arith;
  within = omega (arith, r.within);
  runs = rw skip (rw (← around-step pid e) r.runs);
  ready = rw (← around-step pid e) r.ready;
  nearest = near;
}
  where
    near : (c : ℕ) → 0 < c → c < suc e → ¬ (IsReady k (around pid c))
    near zero p q h = absurd (omega arith)
    near (suc zero) p q h = cc
    near (suc (suc c)) p q h =
        r.nearest (suc c) (omega arith) (omega arith) (rw (around-step pid (suc c)) h)

-- The loop reaches a runnable process that is `d` places ahead, with fuel for `d` rounds.
schedule_from-reaches :
    (fuel pid d : ℕ) (k : Kernel)
    → 0 < d
    → d ≤ fuel
    → IsReady k (around pid d)
    → (e : ℕ) × Reached fuel pid d k e
schedule_from-reaches zero pid d k h l r = absurd (omega arith)
schedule_from-reaches (suc fuel) pid zero k h l r = absurd (omega arith)
schedule_from-reaches (suc fuel) pid (suc zero) k h l r =
    (1, Reached-now fuel pid 1 k (omega arith) r)
schedule_from-reaches (suc fuel) pid (suc (suc d)) k h l r =
    elim (Bool-cases (is_runnable (proc k (around pid 1)).p_state)) [
      | inl now ↦ (1, Reached-now fuel pid (suc (suc d)) k (omega arith) now)
      | inr skip ↦
          let (e, found) =
            schedule_from-reaches fuel (around pid 1) (suc d) k (omega arith) (omega arith)
              (rw (around-step pid (suc d)) r) in
          (suc e, Reached-later fuel pid (suc d) e k skip found)
    ]

-- How far ahead of `pid` the process `i` is, going round the table; 16 if it is `pid` itself.
abbrev pub distance : ℕ → ℕ → ℕ
distance pid i = suc ((i + 15 - pid) % nprocs)

around-distance : (pid i : ℕ) → pid < nprocs → i < nprocs → around pid (distance pid i) ≡ i
around-distance pid i h l = omega arith

-- If a process of the table is runnable, `schedule` ends, and it runs the runnable process that is
-- nearest ahead of the current one, going round the table (the current one itself comes last).
pub schedule_nearest :
    (k : Kernel) (i : ℕ)
    → (proc k k.current).p_pid < nprocs
    → i < nprocs
    → IsReady k i
    → (d : ℕ) × Chooses k (proc k k.current).p_pid d
      × (schedule k ≡ some (run k (around (proc k k.current).p_pid d)))
unfolding schedule
schedule_nearest k i h l r =
    let pid = (proc k k.current).p_pid in
    let (e, found) =
      schedule_from-reaches 16 pid (distance pid i) k (omega arith) (omega arith)
        (rw (around-distance pid i h l) r) in
    (
      e,
      record {
        ahead = found.ahead;
        within = omega (arith, found.within);
        ready = found.ready;
        nearest = found.nearest;
      },
      found.runs,
    )

-- If no process of the table is runnable, the loop goes on for ever: no amount of fuel ends it.
pub schedule_spins :
    (fuel pid : ℕ) (k : Kernel)
    → ((i : ℕ) → i < nprocs → ¬ (IsReady k i))
    → schedule_from fuel pid k ≡ none
unfolding schedule_from
schedule_spins zero pid k h = refl
schedule_spins (suc fuel) pid k h =
    elim (Bool-cases (is_runnable (proc k (around pid 1)).p_state)) [
      | inl now ↦ absurd (h (around pid 1) (omega arith) now)
      | inr skip ↦ rw skip (schedule_spins fuel (around pid 1) k h)
    ]

-- What the loop returns is the kernel with a runnable process as the current one.
pub schedule_from_inv :
    (fuel pid : ℕ) (k k' : Kernel)
    → schedule_from fuel pid k ≡ some k'
    → (i : ℕ) × (i < nprocs) × IsReady k i × (k' ≡ run k i)
unfolding schedule_from
schedule_from_inv zero pid k k' e = cc
schedule_from_inv (suc fuel) pid k k' e =
    elim (Bool-cases (is_runnable (proc k (around pid 1)).p_state)) [
      | inl now ↦ (around pid 1, omega arith, now, ground arith)
      | inr skip ↦ schedule_from_inv fuel (around pid 1) k k' (rw skip at e)
    ]
