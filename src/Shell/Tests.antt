-- ===== src/Shell/Tests.antt =====
-- Commands of Lab1/execute-command.c in a system with two programs: one, without a name, succeeds, and
-- those with a name have the exit status 1. The state counts the programs that have run.
use cs111_ucla.Prelude.{arith, ◌≡◌, refl, ℕ, ◌+◌, true, Option, none, some, List, [], ◌∷◌}
use cs111_ucla.Shell.{
  Name, Command, sequence_command, or_command, pipe_command, simple_command, subshell_command, null,
  Run, Ended, System, program_status, exited, execute_command, execute_simple_command, ran_program,
  waited, redirect_input, redirect_output,
}
use cs111_ucla.Shell.Status.{complete_simple, Succeeds, ProgramsExit, PipesEnd, subshell-Succeeds}
use cs111_ucla.Shell.Semantics.{
  plain_or, plain_simple, plain_right, Follows, execute_command-Yields,
}

abbrev run_program : List Name → ℕ → Option (Option ℕ × ℕ)
run_program [] s = some (none, s)
run_program ([] ∷ words) s = some (some 0, s + 1)
run_program ((x ∷ name) ∷ words) s = some (some 256, s + 1)

-- A pipe whose right child runs after the left one.
abbrev right_ends : ℕ → Run ℕ → Option (Ended ℕ)
right_ends l none = none
right_ends l (some (r, u)) = some (record { left = l; right = r; left_first = true; after = u })

abbrev left_ends : (ℕ → Run ℕ) → Run ℕ → Option (Ended ℕ)
left_ends g none = none
left_ends g (some (l, t)) = right_ends l (g t)

abbrev two_programs : System ℕ
two_programs = record {
  execvp = run_program;
  read_from = λ name s. s;
  write_to = λ name s. s;
  leave = λ before s. s;
  pipe = λ f g s. left_ends g (f s);
}

abbrev succeeding : Command
succeeding = simple_command none none ([] ∷ [])

abbrev failing : Command
failing = simple_command none none ((102 ∷ []) ∷ [])

exits : ProgramsExit two_programs
unfolding program_status exited
exits [] s = ((none, s), refl, (255, omega arith, omega arith))
exits ([] ∷ words) s = ((some 0, s + 1), refl, (0, omega arith, omega arith))
exits ((x ∷ name) ∷ words) s = ((some 256, s + 1), refl, (1, omega arith, omega arith))

ends : PipesEnd two_programs
ends f g hf hg s =
    let (l, t, left, x) = hf s in
    let (r, u, right, y) = hg t in
    rw (left, right)
      (
        record { left = l; right = r; left_first = true; after = u },
        refl,
        (s, t, left),
        (t, u, right),
      )

subshell-Succeeds_example :
    Succeeds (execute_command two_programs (subshell_command none none failing) 0)
    × Succeeds (execute_command two_programs (pipe_command failing failing) 0)
subshell-Succeeds_example =
    subshell-Succeeds two_programs none none failing failing exits ends complete_simple
      complete_simple 0

execute_command-Yields_example :
    Follows two_programs
      (or_command failing (sequence_command null succeeding))
      0
      (execute_command two_programs (or_command failing (sequence_command null succeeding)) 0)
execute_command-Yields_example =
    execute_command-Yields two_programs (or_command failing (sequence_command null succeeding))
      (plain_or plain_simple (plain_right plain_simple)) 0

-- The status of a failing program, and of a subshell around it.
failing_status : execute_command two_programs failing 0 ≡ some (256, 1)
unfolding execute_command execute_simple_command waited ran_program program_status redirect_input
    redirect_output
failing_status = refl
