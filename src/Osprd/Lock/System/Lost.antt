-- ===== src/Osprd/Lock/System/Lost.antt =====
-- A ticket of Lab2/osprd.c that no task holds any more when its turn has come.
use cs111_ucla.Prelude.{ℕ, ◌<◌, ◌≢◌}
use cs111_ucla.Osprd.Lock.System.{going, System}
use cs111_ucla.Osprd.Lock.System.Sound.{Holds}

-- The ticket at the tail is taken and no task holds it, and none goes on.
record IsLost (s : System) : Type 0 where
  pub taken : s.device.ticket_tail ≢ s.device.ticket_head
  pub order : s.device.ticket_tail < s.device.ticket_head
  pub lost : (pid : ℕ) → Holds (s.task pid) s.device.ticket_tail → ⊥
  pub none_going : (pid f t : ℕ) → s.task pid ≢ going f t
