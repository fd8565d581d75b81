-- ===== src/SchedOs/Share.antt =====
-- Scheduling algorithm 3 of WeensyOS2/schedos-kern.c, proportional share.
use mathlib.Core.Path.{subst}
use cs111_ucla.Prelude.{
  ℕ, zero, suc, ◌+◌, ◌%◌, ◌-◌, ◌≤◌, ◌<◌, ◌≡◌, ◌≢◌, refl, sym, ◌∙◌, ap, ◌⊎◌, inl, inr, arith, true,
  false, ◌&&◌, ◌==◌, if◌then◌else◌, Bool-cases, add32, update_ne, update_self,
}
use cs111_ucla.Mpos.{is_runnable}
use cs111_ucla.SchedOs.{
  Process, Kernel, Outcome, running, spinning, nprocs, signed_less, proc, run, modify, set_counter,
  schedule_share,
}
use cs111_ucla.SchedOs.Priority.{IsReady}

abbrev pub IsBelow : Kernel → ℕ → Type 0
IsBelow k i = signed_less (proc k i).p_counter (proc k i).p_share ≡ true

-- A process that algorithm 3 runs sooner or later: runnable, its share not used up, or used up but
-- not 0.
pub data IsHopeful (p : Process) : Type 0 where
  hopeful_below :
      is_runnable p.p_state ≡ true → signed_less p.p_counter p.p_share ≡ true → IsHopeful p
  hopeful_used :
      is_runnable p.p_state ≡ true
      → p.p_counter ≡ p.p_share
      → signed_less 0 p.p_share ≡ true
      → IsHopeful p

-- The counters of some processes that have used up their shares are 0 in the kernel `k1`.
abbrev pub WasReset : Kernel → Kernel → Type 0
WasReset k k1 =
    (c : ℕ)
    → (proc k1 c ≡ proc k c)
      ⊎ ((proc k1 c ≡ set_counter 0 (proc k c)) × ((proc k c).p_counter ≡ (proc k c).p_share))

-- A runnable process whose counter is below its share, perhaps since it was set to 0 on the way, is run, and the
-- round is counted.
pub data Served (k : Kernel) : Outcome → Type 0 where
  served :
      (k1 : Kernel) (m : ℕ)
      → WasReset k k1
      → 0 < m
      → m < nprocs
      → IsReady k m
      → IsBelow k1 m
      → Served k (running (run (modify k1 m (set_counter (add32 (proc k1 m).p_counter 1))) m))

-- The process that the loop looks at.
abbrev pub looked_at : ℕ → ℕ
looked_at process = if process == 0 then 1 else process

-- The rounds that the loop needs until it runs `i`, if it runs no other before.
abbrev rounds : Process → ℕ → ℕ → ℕ
rounds p i process = (if p.p_counter == p.p_share then 4 else 0) + (i + 4 - looked_at process) % 4

modify_other :
    (k : Kernel) (c x : ℕ) (f : Process → Process) → c ≢ x → proc (modify k c f) x ≡ proc k x
modify_other k c x f ne = update_ne k.proc_array c x (f (proc k c)) ne

modify_self : (k : Kernel) (c : ℕ) (f : Process → Process) → proc (modify k c f) c ≡ f (proc k c)
modify_self k c f = update_self k.proc_array c (f (proc k c))

module _ (fuel process : ℕ) (k : Kernel) where
  pub pick :
      IsReady k (looked_at process)
      → IsBelow k (looked_at process)
      → schedule_share (suc fuel) process k
        ≡ running (
            run
              (modify k
                (looked_at process)
                (set_counter (add32 (proc k (looked_at process)).p_counter 1)))
              (looked_at process))
  unfolding schedule_share
  pick r b = rw (schedule_share, r, b) refl

  pub reset :
      IsReady k (looked_at process)
      → signed_less (proc k (looked_at process)).p_counter (proc k (looked_at process)).p_share
        ≡ false
      → ((proc k (looked_at process)).p_counter == (proc k (looked_at process)).p_share) ≡ true
      → schedule_share (suc fuel) process k
        ≡ schedule_share fuel
            ((looked_at process + 1) % nprocs)
            (modify k (looked_at process) (set_counter 0))
  unfolding schedule_share
  reset r b e = rw (schedule_share, r, b, e) refl

  pub skip :
      (is_runnable (proc k (looked_at process)).p_state
          && signed_less
              (proc k (looked_at process)).p_counter
              (proc k (looked_at process)).p_share)
        ≡ false
      → (is_runnable (proc k (looked_at process)).p_state
          && (proc k (looked_at process)).p_counter == (proc k (looked_at process)).p_share)
        ≡ false
      → schedule_share (suc fuel) process k
        ≡ schedule_share fuel ((looked_at process + 1) % nprocs) k
  unfolding schedule_share
  skip a b = rw (schedule_share, a, b) refl

WasReset-first :
    (k k1 : Kernel) (c : ℕ)
    → (proc k c).p_counter ≡ (proc k c).p_share
    → WasReset (modify k c (set_counter 0)) k1
    → WasReset k k1
WasReset-first k k1 c used w x = elim (Bool-cases (c == x)) [
  | inl same ↦
      let e : c ≡ x = ground arith in
      rw (sym e) (
        inr (elim (w c) [
          | inl kept ↦ (kept ∙ modify_self k c (set_counter 0), used)
          | inr (zeroed, _) ↦ (zeroed ∙ ap (set_counter 0) (modify_self k c (set_counter 0)), used)
        ]))
  | inr other ↦
      let ne : c ≢ x = ground arith in
      subst (λ p. (proc k1 x ≡ p) ⊎ ((proc k1 x ≡ set_counter 0 p) × (p.p_counter ≡ p.p_share)))
        (modify_other k c x (set_counter 0) ne) (w x)
]

modify-IsReady : (k : Kernel) (c v m : ℕ) → IsReady (modify k c (set_counter v)) m → IsReady k m
modify-IsReady k c v m r = elim (Bool-cases (c == m)) [
  | inl same ↦
      let e : c ≡ m = ground arith in
      sym (ap (λ p. is_runnable p.p_state) (modify_self k m (set_counter v))) ∙ rw e at r
  | inr other ↦
      let ne : c ≢ m = ground arith in
      sym (ap (λ p. is_runnable p.p_state) (modify_other k c m (set_counter v) ne)) ∙ r
]

Served-reset :
    (k : Kernel) (c : ℕ) {o : Outcome}
    → (proc k c).p_counter ≡ (proc k c).p_share
    → Served (modify k c (set_counter 0)) o
    → Served k o
Served-reset k c used (served k1 m w lo hi r b) =
    served k1 m (WasReset-first k k1 c used w) lo hi (modify-IsReady k c 0 m r) b

-- One round later, the process `i` is a round nearer, unless the loop has just looked at it.
rounds_next :
    (p : Process) (i process : ℕ)
    → process < nprocs
    → 0 < i
    → i < nprocs
    → i ≢ looked_at process
    → rounds p i ((looked_at process + 1) % nprocs) + 1 ≡ rounds p i process
rounds_next p i process h lo hi ne = ground arith

-- The process whose share is used up has been reset.
rounds_reset :
    (p : Process) (i process : ℕ)
    → process < nprocs
    → i ≡ looked_at process
    → signed_less 0 p.p_share ≡ true
    → rounds (set_counter 0 p) i ((looked_at process + 1) % nprocs) ≡ 3
rounds_reset p i process h same s = ground arith

-- A process that is neither run nor reset is not hopeful.
hopeful-not_skipped :
    (p : Process)
    → IsHopeful p
    → (is_runnable p.p_state && signed_less p.p_counter p.p_share) ≡ false
    → (is_runnable p.p_state && p.p_counter == p.p_share) ≡ false
    → ⊥
hopeful-not_skipped p (hopeful_below r b) x y = ground arith
hopeful-not_skipped p (hopeful_used r e s) x y = ground arith

hopeful-share :
    (p : Process)
    → IsHopeful p
    → (is_runnable p.p_state && signed_less p.p_counter p.p_share) ≡ false
    → (is_runnable p.p_state ≡ true) × (signed_less 0 p.p_share ≡ true)
hopeful-share p (hopeful_below r b) x = ground arith
hopeful-share p (hopeful_used r e s) x = (r, s)

-- The process `i` is hopeful after a reset too, and nearer.
after_reset :
    (k : Kernel) (i process : ℕ)
    → process < nprocs
    → 0 < i
    → i < nprocs
    → IsHopeful (proc k i)
    → (is_runnable (proc k (looked_at process)).p_state
        && signed_less (proc k (looked_at process)).p_counter (proc k (looked_at process)).p_share)
      ≡ false
    → (proc k (looked_at process)).p_counter ≡ (proc k (looked_at process)).p_share
    → (p : Process) × (proc (modify k (looked_at process) (set_counter 0)) i ≡ p)
      × IsHopeful p
      × (rounds p i ((looked_at process + 1) % nprocs) < rounds (proc k i) i process)
after_reset k i process p lo hi h not_below used =
    let c = looked_at process in
    elim (Bool-cases (c == i)) [
      | inl same ↦
          let e : c ≡ i = ground arith in
          let hc : IsHopeful (proc k c) = subst (λ x. IsHopeful (proc k x)) (sym e) h in
          let (r, s) = hopeful-share (proc k c) hc not_below in
          let near = rounds_reset (proc k c) i process p (sym e) s in
          let used_up : ((proc k c).p_counter == (proc k c).p_share) ≡ true = ground arith in
          let far : ((proc k i).p_counter == (proc k i).p_share) ≡ true =
            subst (λ x. ((proc k x).p_counter == (proc k x).p_share) ≡ true) e used_up in
          (
            set_counter 0 (proc k c),
            subst (λ x. proc (modify k c (set_counter 0)) x ≡ set_counter 0 (proc k c)) e
                (modify_self k c (set_counter 0)),
            hopeful_below r s,
            rw (far, near) (omega arith),
          )
      | inr other ↦
          let ne : c ≢ i = ground arith in
          (
            proc k i,
            modify_other k c i (set_counter 0) ne,
            h,
            omega (arith, rounds_next (proc k i) i process p lo hi (λ e. ne (sym e))),
          )
    ]

share_ends :
    (fuel process : ℕ) (k : Kernel) (i : ℕ)
    → process < nprocs
    → 0 < i
    → i < nprocs
    → IsHopeful (proc k i)
    → rounds (proc k i) i process < fuel
    → Served k (schedule_share fuel process k)
share_ends zero process k i p lo hi h lt = absurd (omega arith)
share_ends (suc fuel) process k i p lo hi h lt =
    let c = looked_at process in
    let next : (c + 1) % nprocs < nprocs = omega arith in
    elim (Bool-cases
      (is_runnable (proc k c).p_state && signed_less (proc k c).p_counter (proc k c).p_share)) [
        | inl below ↦
            let r : IsReady k c = ground arith in
            let b : IsBelow k c = ground arith in
            rw (pick fuel process k r b)
              (served k c (λ x. inl refl) (ground arith) (ground arith) r b)
        | inr not_below ↦
            elim (Bool-cases
              (is_runnable (proc k c).p_state && (proc k c).p_counter == (proc k c).p_share)) [
                | inl used ↦
                    let counter : (proc k c).p_counter ≡ (proc k c).p_share = ground arith in
                    let r : IsReady k c = ground arith in
                    let b : signed_less (proc k c).p_counter (proc k c).p_share ≡ false =
                      ground arith in
                    let (q, e, hq, near) = after_reset k i process p lo hi h not_below counter in
                    rw (reset fuel process k r b (ground arith)) (
                      Served-reset k c counter (
                        share_ends fuel ((c + 1) % nprocs) (modify k c (set_counter 0)) i next lo hi
                          (rw e hq) (rw e (omega arith))))
                | inr not_used ↦
                    let ne : i ≢ c = λ e.
                      hopeful-not_skipped (proc k c) (subst (λ x. IsHopeful (proc k x)) e h)
                        not_below not_used in
                    rw (skip fuel process k not_below not_used) (
                      share_ends fuel ((c + 1) % nprocs) k i next lo hi h
                        (omega (arith, rounds_next (proc k i) i process p lo hi ne)))
              ]
      ]

-- If one of the processes 1 to 4 is runnable and its share is not used up, or is used up but
-- positive, then algorithm 3 ends within eight rounds. On the way it changes at most the counters of
-- processes that have used up their share, to 0; then it runs a runnable process whose counter is below
-- its share, and adds one to that counter.
pub schedule_share-Served :
    (fuel pid : ℕ) (k : Kernel) (i : ℕ)
    → pid < nprocs
    → 0 < i
    → i < nprocs
    → IsHopeful (proc k i)
    → 8 ≤ fuel
    → Served k (schedule_share fuel pid k)
schedule_share-Served fuel pid k i p lo hi h enough_fuel =
    share_ends fuel pid k i p lo hi h (ground arith)

-- A process that has used up more than its share, after INT_SHARE has lowered it, is never run
-- again by algorithm 3: if all processes are like that or not runnable, the loop goes on for ever.
pub schedule_share-starves :
    (fuel process : ℕ) (k : Kernel)
    → process < nprocs
    → ((i : ℕ)
        → 0 < i
        → i < nprocs
        → IsReady k i
        → signed_less (proc k i).p_share (proc k i).p_counter ≡ true)
    → schedule_share fuel process k ≡ spinning
unfolding schedule_share
schedule_share-starves zero process k h all = refl
schedule_share-starves (suc fuel) process k h all =
    let c = looked_at process in
    let rest = schedule_share-starves fuel ((c + 1) % nprocs) k (omega arith) all in
    elim (Bool-cases (is_runnable (proc k c).p_state)) [
      | inl ready ↦
          let over = all c (ground arith) (ground arith) ready in
          rw (skip fuel process k (ground arith) (ground arith)) rest
      | inr idle ↦ rw (skip fuel process k (ground arith) (ground arith)) rest
    ]
