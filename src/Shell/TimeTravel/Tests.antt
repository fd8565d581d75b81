-- ===== src/Shell/TimeTravel/Tests.antt =====
-- Two commands of the time travel mode that write to one file, and one that reads it.
use cs111_ucla.Prelude.{arith, ◌≡◌, ◌↔◌, refl, ℕ, true, ◌==◌, if◌then◌else◌, none, some, [], ◌∷◌}
use mathlib.Core.List.{Memᴰ}
use cs111_ucla.Shell.{Name, Command, simple_command}
use cs111_ucla.Shell.TimeTravel.{
  Constrains, Jobs, Answer, get_constrains, strcmp_is, check_inputs, check_constrain, fill_one,
  fill_row, fill_rows, start_one, start_from, retire_row, retire_rows, round, constrains_of,
  execute_timetravel_cmd,
}
use cs111_ucla.Shell.TimeTravel.Graph.{fill_rows-IsCounted, check_constrain_first}
use cs111_ucla.Shell.TimeTravel.Round.{Rounded, round-Rounded}
use cs111_ucla.Shell.TimeTravel.Deadlock.{no_answer, other_answer, same_output-deadlocks}

-- `echo > f`, twice, and `cat < f > g`.
abbrev file_f : Name
file_f = 102 ∷ []

abbrev file_g : Name
file_g = 103 ∷ []

abbrev echo : Command
echo = simple_command none (some file_f) ((101 ∷ []) ∷ [])

abbrev cat : Command
cat = simple_command (some file_f) (some file_g) ((99 ∷ []) ∷ [])

abbrev two_writers : ℕ → Command
two_writers i = echo

abbrev writer_and_reader : ℕ → Constrains
unfolding constrains_of
writer_and_reader = constrains_of (λ i. if i == 0 then echo else cat)

abbrev not_started : Jobs
not_started = record {
  running = λ i. 0;
  pid = λ i. 0;
  graph = λ r c. 0;
  waits = λ r. 0;
  status = 0;
}

abbrev first_answer : Answer
first_answer = record { forked = λ i. 7; ended = 7; reported = 0 }

same_output-deadlocks_example :
    execute_timetravel_cmd two_writers 2 (first_answer ∷ []) not_started ≡ none
unfolding constrains_of get_constrains
same_output-deadlocks_example =
    same_output-deadlocks two_writers 2 0 1 file_f [] [] (first_answer ∷ []) not_started
      (omega arith) (omega arith) (omega arith) refl refl refl refl
      (other_answer (omega arith) (omega arith) no_answer)

check_constrain_first_example :
    (check_constrain (file_f ∷ file_g ∷ []) (file_g ∷ []) ≡ true) ↔ Memᴰ file_f (file_g ∷ [])
check_constrain_first_example = check_constrain_first file_f (file_g ∷ []) (file_g ∷ [])

round-Rounded_example :
    Rounded
      (λ i. 7)
      2
      7
      (fill_rows writer_and_reader 2 2 0 not_started)
      (round (λ i. 7) 2 7 0 (fill_rows writer_and_reader 2 2 0 not_started))
round-Rounded_example =
    round-Rounded (λ i. 7) 2 7 0 (fill_rows writer_and_reader 2 2 0 not_started)
      (fill_rows-IsCounted writer_and_reader 2 not_started).0

-- The writer runs first, then the reader.
reader_waits : (fill_rows writer_and_reader 2 2 0 not_started).waits 1 ≡ 1
unfolding constrains_of get_constrains fill_rows fill_row fill_one check_constrain check_inputs
    strcmp_is
reader_waits = refl

reader_starts :
    (round
        (λ i. 8)
        2
        7
        0
        (round (λ i. 7) 2 7 0 (fill_rows writer_and_reader 2 2 0 not_started))).running
      1
    ≡ 1
unfolding constrains_of get_constrains fill_rows fill_row fill_one check_constrain check_inputs
    strcmp_is round start_from start_one retire_rows retire_row
reader_starts = refl
