-- ===== src/SchedOs/Tests.antt =====
-- The theorems about WeensyOS2/schedos-kern.c on the kernel that `start` sets up.
use cs111_ucla.Prelude.{ℕ, ◌<◌, ◌≡◌, refl, arith}
use cs111_ucla.Mpos.{p_runnable}
use cs111_ucla.SchedOs.{
  Kernel, running, spinning, out_of_bounds, nprocs, run, modify, get_rand_num, schedule_lottery,
  schedule_priority, schedule_strict, schedule_share, empty_slot, start, exit_process,
}
use cs111_ucla.SchedOs.Priority.{IsReady, Picked, schedule_priority-Picked, schedule_strict-least}
use cs111_ucla.SchedOs.Share.{hopeful_below, Served, schedule_share-Served, schedule_share-starves}
use cs111_ucla.SchedOs.Draw.{schedule_lottery_overruns}

abbrev blank : ℕ → ℕ
blank a = 0

-- Process 1 has exited.
abbrev after_exit : Kernel
unfolding start
after_exit = modify (start blank blank) 1 (exit_process 0)

schedule_priority-Picked_example : Picked after_exit 1 (schedule_priority 1 after_exit)
schedule_priority-Picked_example = schedule_priority-Picked after_exit 1 (omega arith)

schedule_strict-least_example :
    (m : ℕ) × (schedule_strict 1 after_exit ≡ running (run after_exit m))
    × (0 < m)
    × (m < nprocs)
    × IsReady after_exit m
    × ((c : ℕ) → 0 < c → c < m → ¬ (IsReady after_exit c))
unfolding start
schedule_strict-least_example =
    schedule_strict-least 0 after_exit 3 (omega arith) (omega arith) refl

schedule_share-Served_example : Served after_exit (schedule_share 8 1 after_exit)
unfolding start
schedule_share-Served_example =
    schedule_share-Served 8 1 after_exit 4 (omega arith) (omega arith) (omega arith)
      (hopeful_below refl refl) (omega arith)

-- The random numbers after five draws. The sixth is 4012951065, as an int -282016231.
abbrev fifth_draw : Kernel
unfolding start
fifth_draw = record (start blank blank) {
  rand_x = 1891153965;
  rand_y = 2153065760;
  rand_z = 1008129293;
}

sixth_draw_overruns : schedule_lottery 1 fifth_draw ≡ out_of_bounds
unfolding start get_rand_num
sixth_draw_overruns = schedule_lottery_overruns 0 fifth_draw (omega arith) (omega arith)

-- Every process has used up more than its share.
abbrev overdrawn : Kernel
unfolding start
overdrawn = record (start blank blank) {
  proc_array = λ i. record (empty_slot i) { p_state = p_runnable; p_counter = 3; p_share = 2 };
}

schedule_share-starves_example : schedule_share 100 1 overdrawn ≡ spinning
unfolding overdrawn
schedule_share-starves_example =
    schedule_share-starves 100 1 overdrawn (omega arith) (λ i lo hi r. refl)
