-- ===== src/SchedOs/Draw.antt =====
-- Scheduling algorithm 4 of WeensyOS2/schedos-kern.c, the lottery.
use cs111_ucla.Prelude.{
  ℕ, suc, ◌+◌, ◌%◌, ◌^◌, ◌-◌, ◌≤◌, ◌<◌, ◌≡◌, refl, arith, true, ◌==◌, none, some,
}
use cs111_ucla.SchedOs.{
  Kernel, running, out_of_bounds, proc, run, get_rand_num, draw, schedule_lottery,
}
use cs111_ucla.SchedOs.Priority.{IsReady}

-- Drawing a number changes no process.
get_rand_num-proc : (k : Kernel) (i : ℕ) → proc (get_rand_num k) i ≡ proc k i
unfolding get_rand_num
get_rand_num-proc k i = refl

draw-positive : (z : ℕ) → z < 2 ^ 31 → draw z ≡ some (z % 4 + 1)
unfolding draw
draw-positive z h = ground arith

draw-negative : (z : ℕ) → 2 ^ 31 ≤ z → 2 ≤ (2 ^ 32 - z) % 4 → draw z ≡ none
unfolding draw
draw-negative z h l = ground arith

-- If getRandNum returns a number that is not negative as an int, and the process that it draws is
-- runnable and has its own number on its ticket, then algorithm 4 runs that process, one of 1 to 4.
pub schedule_lottery_draws :
    (fuel : ℕ) (k : Kernel)
    → (get_rand_num k).rand_z < 2 ^ 31
    → IsReady k ((get_rand_num k).rand_z % 4 + 1)
    → (proc k ((get_rand_num k).rand_z % 4 + 1)).p_ticket ≡ (get_rand_num k).rand_z % 4 + 1
    → schedule_lottery (suc fuel) k
      ≡ running (run (get_rand_num k) ((get_rand_num k).rand_z % 4 + 1))
unfolding schedule_lottery
schedule_lottery_draws fuel k h r t =
    let z = (get_rand_num k).rand_z in
    let own : (z % 4 + 1 == (proc k (z % 4 + 1)).p_ticket) ≡ true = ground arith in
    rw (schedule_lottery, draw-positive z h, get_rand_num-proc k (z % 4 + 1), r, own) refl

-- Two of four negative results of getRandNum make algorithm 4 read proc_array[-1] or proc_array[-2].
pub schedule_lottery_overruns :
    (fuel : ℕ) (k : Kernel)
    → 2 ^ 31 ≤ (get_rand_num k).rand_z
    → 2 ≤ (2 ^ 32 - (get_rand_num k).rand_z) % 4
    → schedule_lottery (suc fuel) k ≡ out_of_bounds
unfolding schedule_lottery
schedule_lottery_overruns fuel k h l =
    rw (schedule_lottery, draw-negative (get_rand_num k).rand_z h l) refl
