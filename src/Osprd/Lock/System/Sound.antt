-- ===== src/Osprd/Lock/System/Sound.antt =====
-- The invariant of the tasks that use a ramdisk of Lab2/osprd.c.
use mathlib.Core.Path.{subst}
use cs111_ucla.Prelude.{
  ℕ, ◌^◌, ◌≤◌, ◌<◌, ◌≡◌, ◌≢◌, ◌==◌, sym, ◌∙◌, ◌⊎◌, inl, inr, true, Bool-cases, update, update_self,
  update_ne, arith,
}
use cs111_ucla.Osprd.Lock.Laws.{IsExclusive}
use cs111_ucla.Osprd.Lock.System.{Task, idle, ticketed, tested, waiting, going, System}
use cs111_ucla.Osprd.Lock.System.Count.{is_locked_writer, is_locked_reader, count}

-- The task holds the ticket `t`.
abbrev pub Holds : Task → ℕ → Type 0
Holds idle t = ⊥
Holds (ticketed f t') t = t' ≡ t
Holds (tested f t') t = t' ≡ t
Holds (waiting f t') t = t' ≡ t
Holds (going f t') t = t' ≡ t

-- The invariant: the tickets that are held are different and between tail and head; a task that goes
-- on has the ticket at the tail and finds the lock free; the locks that files hold are counted.
pub record IsSound (n : ℕ) (s : System) : Type 0 where
  pub exclusive : IsExclusive s.device
  pub order : s.device.ticket_tail ≤ s.device.ticket_head
  pub bounded : s.device.ticket_head < 2 ^ 32
  pub reads : s.device.read_locks < 2 ^ 32
  pub held :
      (pid t : ℕ) → Holds (s.task pid) t → (s.device.ticket_tail ≤ t) × (t < s.device.ticket_head)
  pub distinct : (p q t : ℕ) → Holds (s.task p) t → Holds (s.task q) t → p ≡ q
  pub go :
      (pid f t : ℕ)
      → s.task pid ≡ going f t
      → (t ≡ s.device.ticket_tail)
        × (s.device.write_locks ≡ 0)
        × ((s.files f).writable ≡ true → s.device.read_locks ≡ 0)
  pub writers : count is_locked_writer n s.files ≤ s.device.write_locks
  pub readers : count is_locked_reader n s.files ≤ s.device.read_locks

-- A task that goes on does so with its file and its ticket.
pub going_inj : (f t g u : ℕ) → going f t ≡ going g u → (f ≡ g) × (t ≡ u)
going_inj f t g u e = (cc, cc)

pub holder :
    (task : ℕ → Task) (pid : ℕ) (new : Task) (q t : ℕ)
    → Holds (update task pid new q) t
    → ((q ≡ pid) × Holds new t) ⊎ ((q ≢ pid) × Holds (task q) t)
holder task pid new q t h = elim (Bool-cases (pid == q)) [
  | inl same ↦
      let e : pid ≡ q = ground arith in
      inl (sym e, subst (λ x. Holds x t) (rw (sym e) (update_self task pid new)) h)
  | inr other ↦
      let ne : pid ≢ q = ground arith in
      inr ((λ e. ne (sym e)), subst (λ x. Holds x t) (update_ne task pid q new ne) h)
]

pub goer :
    (task : ℕ → Task) (pid : ℕ) (new : Task) (q f t : ℕ)
    → update task pid new q ≡ going f t
    → ((q ≡ pid) × (new ≡ going f t)) ⊎ ((q ≢ pid) × (task q ≡ going f t))
goer task pid new q f t h = elim (Bool-cases (pid == q)) [
  | inl same ↦
      let e : pid ≡ q = ground arith in inl (sym e, sym (rw (sym e) (update_self task pid new)) ∙ h)
  | inr other ↦
      let ne : pid ≢ q = ground arith in
      inr ((λ e. ne (sym e)), sym (update_ne task pid q new ne) ∙ h)
]
