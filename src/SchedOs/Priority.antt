-- ===== src/SchedOs/Priority.antt =====
-- Scheduling algorithms 1 and 2 of WeensyOS2/schedos-kern.c: the priorities decide.
use cs111_ucla.Prelude.{
  ℕ, zero, suc, ◌+◌, ◌%◌, ◌^◌, ◌-◌, ◌≤◌, ◌<◌, ◌≡◌, ◌≢◌, refl, sym, ◌∙◌, ◌⊎◌, inl, inr, arith, true,
  false, ◌&&◌, ◌==◌, Bool-cases, lt_or_le, some,
}
use mathlib.Core.Bool.{false≢true}
use native.Mathlib.Nat.{add-zero}
use cs111_ucla.Mpos.{is_runnable}
use cs111_ucla.SchedOs.{
  Kernel, Outcome, running, nprocs, signed_less, proc, run, first_runnable, schedule_strict,
  best_priority, schedule_priority,
}

abbrev pub IsReady : Kernel → ℕ → Type 0
IsReady k i = is_runnable (proc k i).p_state ≡ true

-- The priority of a process as a number above that of any int.
abbrev pub urgency : Kernel → ℕ → ℕ
urgency k i = ((proc k i).p_priority + 2 ^ 31) % 2 ^ 32

-- A process that algorithm 2 may run.
abbrev pub IsCandidate : Kernel → ℕ → Type 0
IsCandidate k i = IsReady k i × (urgency k i < 100 + 2 ^ 31)

-- The `d`th process after `pid` is a candidate, and none is more urgent, none before it as urgent.
pub record Best (k : Kernel) (pid d : ℕ) : Type 0 where
  pub ahead : 0 < d
  pub within : d ≤ nprocs
  pub candidate : IsCandidate k ((pid + d) % nprocs)
  pub least :
      (e : ℕ)
      → 0 < e
      → e ≤ nprocs
      → IsReady k ((pid + e) % nprocs)
      → urgency k ((pid + d) % nprocs) ≤ urgency k ((pid + e) % nprocs)
  pub earliest :
      (e : ℕ)
      → 0 < e
      → e < d
      → IsReady k ((pid + e) % nprocs)
      → urgency k ((pid + d) % nprocs) < urgency k ((pid + e) % nprocs)

-- The loop of algorithm 2 has looked at `done` processes: `process` is the best of them.
data Found (k : Kernel) (pid done : ℕ) : ℕ → ℕ → Type 0 where
  none_yet :
      ((e : ℕ) → 0 < e → e ≤ done → ¬ (IsCandidate k ((pid + e) % nprocs)))
      → Found k pid done pid 100
  best_so_far :
      (d : ℕ)
      → 0 < d
      → d ≤ done
      → IsCandidate k ((pid + d) % nprocs)
      → ((e : ℕ)
          → 0 < e
          → e ≤ done
          → IsReady k ((pid + e) % nprocs)
          → urgency k ((pid + d) % nprocs) ≤ urgency k ((pid + e) % nprocs))
      → ((e : ℕ)
          → 0 < e
          → e < d
          → IsReady k ((pid + e) % nprocs)
          → urgency k ((pid + d) % nprocs) < urgency k ((pid + e) % nprocs))
      → Found k pid done ((pid + d) % nprocs) (proc k ((pid + d) % nprocs)).p_priority

-- The places up to `suc done` are those up to `done` and one more.
up_to_suc : (e done : ℕ) → e ≤ suc done → (e ≡ suc done) ⊎ (e ≤ done)
up_to_suc e done h = elim (Bool-cases (e == suc done)) [
  | inl same ↦ inl (ground arith)
  | inr other ↦ inr (ground arith)
]

Found-pri-low :
    (k : Kernel) (pid done process pri e : ℕ)
    → Found k pid done process pri
    → 0 < e
    → e ≤ done
    → IsReady k ((pid + e) % nprocs)
    → (pri + 2 ^ 31) % 2 ^ 32 ≤ urgency k ((pid + e) % nprocs)
Found-pri-low k pid done process pri e (none_yet nobody) lo hi r =
    elim (lt_or_le (urgency k ((pid + e) % nprocs)) (100 + 2 ^ 31)) [
      | inl lt ↦ absurd (nobody e lo hi (r, lt))
      | inr le ↦ omega arith
    ]
Found-pri-low k pid done process pri e (best_so_far d l h c least earliest) lo hi r =
    least e lo hi r

Found-pri-candidate :
    (k : Kernel) (pid done process pri : ℕ)
    → Found k pid done process pri
    → (pri + 2 ^ 31) % 2 ^ 32 ≤ 100 + 2 ^ 31
Found-pri-candidate k pid done process pri (none_yet nobody) = omega arith
Found-pri-candidate k pid done process pri (best_so_far d l h c least earliest) = omega (arith, c.1)

Found-better :
    (k : Kernel) (pid done process pri : ℕ)
    → Found k pid done process pri
    → IsReady k ((pid + suc done) % nprocs)
    → urgency k ((pid + suc done) % nprocs) < (pri + 2 ^ 31) % 2 ^ 32
    → Found k pid
        (suc done)
        ((pid + suc done) % nprocs)
        (proc k ((pid + suc done) % nprocs)).p_priority
Found-better k pid done process pri f r lt =
    best_so_far (suc done) (omega arith) (omega arith)
      (r, omega (arith, Found-pri-candidate k pid done process pri f))
      (λ e lo hi re. elim (up_to_suc e done hi) [
        | inl same ↦ rw same (omega arith)
        | inr old ↦ omega (arith, Found-pri-low k pid done process pri e f lo old re)
      ])
      (λ e lo hi re. omega (arith, Found-pri-low k pid done process pri e f lo (omega arith) re))

Found-same :
    (k : Kernel) (pid done process pri : ℕ)
    → Found k pid done process pri
    → ¬ (
        IsReady k ((pid + suc done) % nprocs)
        × (urgency k ((pid + suc done) % nprocs) < (pri + 2 ^ 31) % 2 ^ 32))
    → Found k pid (suc done) process pri
Found-same k pid done process pri (none_yet nobody) r = none_yet λ e lo hi c.
    elim (up_to_suc e done hi) [
      | inl same ↦ r (rw same at c.0, bound (rw same at c.1))
      | inr old ↦ nobody e lo old c
    ]
  where
    bound : {u : ℕ} → u < 100 + 2 ^ 31 → u < (100 + 2 ^ 31) % 2 ^ 32
    bound h = omega arith
Found-same k pid done process pri (best_so_far d lo hi c least earliest) r =
    best_so_far d lo (omega arith) c
      (λ e l h re. elim (up_to_suc e done h) [
        | inl same ↦
            elim (lt_or_le (urgency k ((pid + e) % nprocs)) (urgency k ((pid + d) % nprocs))) [
              | inl lt ↦ absurd (r (rw same at re, rw same at lt))
              | inr le ↦ le
            ]
        | inr old ↦ least e l old re
      ])
      earliest

Looked : ℕ → Kernel → ℕ → ℕ → ℕ → ℕ → Type 0
Looked n k pid done process pri =
    (p : ℕ) × Found k pid (done + n) (best_priority n (pid + suc done) process pri k) p

best_priority-better :
    (n : ℕ) (k : Kernel) (pid done process pri : ℕ)
    → IsReady k ((pid + suc done) % nprocs)
    → urgency k ((pid + suc done) % nprocs) < (pri + 2 ^ 31) % 2 ^ 32
    → Looked n k pid
        (suc done)
        ((pid + suc done) % nprocs)
        (proc k ((pid + suc done) % nprocs)).p_priority
    → Looked (suc n) k pid done process pri
unfolding Looked best_priority
best_priority-better n k pid done process pri r lt (p, f) =
    let j = (pid + suc done) % nprocs in
    let count : done + suc n ≡ suc done + n = omega arith in
    let next : pid + suc done + 1 ≡ pid + suc (suc done) = omega arith in
    let test : (is_runnable (proc k j).p_state && signed_less (proc k j).p_priority pri) ≡ true =
      ground arith in
    (p, rw (count, best_priority, next, test) f)

best_priority-same :
    (n : ℕ) (k : Kernel) (pid done process pri : ℕ)
    → ¬ (
        IsReady k ((pid + suc done) % nprocs)
        × (urgency k ((pid + suc done) % nprocs) < (pri + 2 ^ 31) % 2 ^ 32))
    → Looked n k pid (suc done) process pri
    → Looked (suc n) k pid done process pri
unfolding Looked best_priority
best_priority-same n k pid done process pri r (p, f) =
    let j = (pid + suc done) % nprocs in
    let count : done + suc n ≡ suc done + n = omega arith in
    let next : pid + suc done + 1 ≡ pid + suc (suc done) = omega arith in
    let test : (is_runnable (proc k j).p_state && signed_less (proc k j).p_priority pri) ≡ false =
      ground arith in
    (p, rw (count, best_priority, next, test) f)

best_priority-Found :
    (n : ℕ) (k : Kernel) (pid done process pri : ℕ)
    → Found k pid done process pri
    → Looked n k pid done process pri
unfolding Looked best_priority
best_priority-Found zero k pid done process pri f = (pri, rw (add-zero done) f)
best_priority-Found (suc n) k pid done process pri f =
    let j = (pid + suc done) % nprocs in
    elim (Bool-cases (is_runnable (proc k j).p_state && signed_less (proc k j).p_priority pri)) [
      | inl better ↦
          let r : IsReady k j = ground arith in
          let lt : urgency k j < (pri + 2 ^ 31) % 2 ^ 32 = ground arith in
          best_priority-better n k pid done process pri r lt (
            best_priority-Found n k pid (suc done) j (proc k j).p_priority
              (Found-better k pid done process pri f r lt))
      | inr worse ↦
          let not_better : ¬ (IsReady k j × (urgency k j < (pri + 2 ^ 31) % 2 ^ 32)) =
            ground arith in
          best_priority-same n k pid done process pri not_better (
            best_priority-Found n k pid (suc done) process pri
              (Found-same k pid done process pri f not_better))
    ]

-- What algorithm 2 does: it runs the best candidate, or, if there is none, the current process.
pub data Picked (k : Kernel) (pid : ℕ) : Outcome → Type 0 where
  most_urgent : (d : ℕ) → Best k pid d → Picked k pid (running (run k ((pid + d) % nprocs)))
  nobody : ((i : ℕ) → i < nprocs → ¬ (IsCandidate k i)) → Picked k pid (running (run k pid))

-- How far ahead of `pid` the process `i` is.
abbrev distance : ℕ → ℕ → ℕ
distance pid i = suc ((i + 4 - pid) % nprocs)

Found-Picked :
    (k : Kernel) (pid process pri : ℕ)
    → pid < nprocs
    → Found k pid nprocs process pri
    → Picked k pid (running (run k process))
Found-Picked k pid process pri h (none_yet none_of) = nobody λ i l c.
    let e : (pid + distance pid i) % nprocs ≡ i = omega arith in
    none_of (distance pid i) (omega arith) (omega arith) (rw e c)
Found-Picked k pid process pri h (best_so_far d lo hi c least earliest) =
    most_urgent d
      (record { ahead = lo; within = hi; candidate = c; least = least; earliest = earliest })

-- Algorithm 2 runs a process whose priority is the smallest of all runnable ones, and of those with
-- that priority the first one ahead of the current process, going round the table (the current one
-- itself comes last). If no runnable process has a priority below 100, it runs the current process,
-- whatever state that is in.
pub schedule_priority-Picked :
    (k : Kernel) (pid : ℕ) → pid < nprocs → Picked k pid (schedule_priority pid k)
unfolding schedule_priority Looked
schedule_priority-Picked k pid h =
    let (p, f) =
      best_priority-Found 5 k pid 0 pid 100 (none_yet (λ e lo hi c. absurd (omega arith))) in
    let next : pid + suc 0 ≡ pid + 1 = refl in
    Found-Picked k pid (best_priority 5 (pid + 1) pid 100 k) p h (rw (sym next) f)

first_runnable-least :
    (n i : ℕ) (k : Kernel) (j : ℕ)
    → i ≤ j
    → j < i + n
    → IsReady k j
    → (m : ℕ) × (first_runnable n i k ≡ some m)
      × (i ≤ m)
      × (m < i + n)
      × IsReady k m
      × ((c : ℕ) → i ≤ c → c < m → ¬ (IsReady k c))
unfolding first_runnable
first_runnable-least zero i k j lo hi r = absurd (omega arith)
first_runnable-least (suc n) i k j lo hi r = elim (Bool-cases (is_runnable (proc k i).p_state)) [
  | inl now ↦ (i, rw now refl, omega arith, omega arith, now, λ c a b. absurd (omega arith))
  | inr skip ↦
      let ne : i ≢ j = λ e. false≢true (sym skip ∙ rw e r) in
      let (m, e, l, h, rm, least) =
        first_runnable-least n (i + 1) k j (omega arith) (omega arith) r in
      (
        m,
        rw skip e,
        omega arith,
        omega arith,
        rm,
        λ c a b q. elim (Bool-cases (c == i)) [
          | inl same ↦ let here : c ≡ i = ground arith in false≢true (sym skip ∙ rw (sym here) q)
          | inr other ↦ least c (ground arith) b q
        ],
      )
]

pub first_runnable_inv :
    (n i : ℕ) (k : Kernel) (m : ℕ) → first_runnable n i k ≡ some m → (i ≤ m) × (m < i + n)
unfolding first_runnable
first_runnable_inv zero i k m e = cc
first_runnable_inv (suc n) i k m e = elim (Bool-cases (is_runnable (proc k i).p_state)) [
  | inl now ↦ let same : i ≡ m = ground arith in (omega arith, omega arith)
  | inr skip ↦
      let (lo, hi) = first_runnable_inv n (i + 1) k m (rw skip at e) in (omega arith, omega arith)
]

-- If one of the processes 1 to 4 is runnable, algorithm 1 ends in its first round and runs the
-- runnable one with the smallest number, whichever process is the current one.
pub schedule_strict-least :
    (fuel : ℕ) (k : Kernel) (j : ℕ)
    → 0 < j
    → j < nprocs
    → IsReady k j
    → (m : ℕ) × (schedule_strict (suc fuel) k ≡ running (run k m))
      × (0 < m)
      × (m < nprocs)
      × IsReady k m
      × ((c : ℕ) → 0 < c → c < m → ¬ (IsReady k c))
unfolding schedule_strict
schedule_strict-least fuel k j lo hi r =
    let (m, e, l, h, rm, least) = first_runnable-least 4 1 k j (omega arith) (omega arith) r in
    (m, rw (schedule_strict, e) refl, omega arith, omega arith, rm, least)
