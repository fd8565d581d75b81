-- ===== src/Shell.antt =====
-- The shell of Lab1: commands, of Lab1/command-internals.h, and their execution, of
-- Lab1/execute-command.c. The kernel, with the programs and the files, is a parameter.
pub mod Semantics
pub mod Status
pub mod TimeTravel
mod Tests
use cs111_ucla.Prelude.{
  ℕ, ◌*◌, ◌%◌, Bool, true, false, ◌==◌, if◌then◌else◌, Option, none, some, List,
}

-- A string, by its characters.
abbrev pub Name : Type 0
Name = List ℕ

-- struct command. A redirection is `none` for a null pointer, and `null` is a null pointer to a command.
-- The field `status` is a result of `execute_command` below.
pub data Command : Type 0 where
  and_command sequence_command or_command pipe_command : Command → Command → Command
  simple_command : Option Name → Option Name → List Name → Command
  subshell_command : Option Name → Option Name → Command → Command
  null : Command

-- What a process that runs a command has in the end: the status of the command, and the state of the
-- system. `none` is a run that never ends, or a read through a null pointer or of a status that nothing
-- has written, by any process.
abbrev pub Run : Type 0 → Type 0
Run S = Option (ℕ × S)

-- How the two children of a pipe end: the statuses that wait reports of them, whether the left one is
-- the first that it reports, and the state after both.
pub record Ended (S : Type 0) : Type 0 where
  pub left : ℕ
  pub right : ℕ
  pub left_first : Bool
  pub after : S

-- The system, with states of type S. `execvp` runs the program: the status that wait reports of it, where `none` is that
-- there is no such program; or `none` if it never ends. `read_from` and `write_to` open a file as file descriptor 0 or 1. `leave` is
-- what the parent sees after a child, from the states before the fork and after the child.
-- `pipe` makes a pipe, and runs the two children at its ends.
pub record System (S : Type 0) : Type 0 where
  pub execvp : List Name → S → Option (Option ℕ × S)
  pub read_from : Name → S → S
  pub write_to : Name → S → S
  pub leave : S → S → S
  pub pipe : (S → Run S) → (S → Run S) → S → Option (Ended S)

-- The status that wait reports of a process that calls exit(status): its low eight bits, in the second byte.
unfoldable pub exited : ℕ → ℕ
exited status = status % 256 * 256

-- A child that finds no program calls exit(-1), of which the low eight bits are 255.
unfoldable pub program_status : Option ℕ → ℕ
unfolding exited
program_status none = exited 255
program_status (some status) = status

module _ {S : Type 0} (w : System S) where
  -- The input and the output of a child.
  unfoldable pub redirect_input : Option Name → S → S
  redirect_input none s = s
  redirect_input (some name) s = w.read_from name s

  unfoldable pub redirect_output : Option Name → S → S
  redirect_output none s = s
  redirect_output (some name) s = w.write_to name s

  -- A child that runs a command and exits with its status.
  unfoldable pub child : Run S → Run S
  unfolding exited
  child none = none
  child (some (status, s)) = some (exited status, s)

  -- The parent after such a child.
  unfoldable pub waited : S → Run S → Run S
  waited before none = none
  waited before (some (status, s)) = some (status, w.leave before s)

  -- The parent after the two children of a pipe: the status is that of the child that it waits for last.
  unfoldable pub waited_both : Option (Ended S) → Run S
  waited_both none = none
  waited_both (some e) = some (if e.left_first then e.right else e.left, e.after)

  -- The second halves of execute_and_command, execute_or_command and execute_sequence_command: `right`
  -- executes the second command.
  unfoldable pub and_then : (S → Run S) → Run S → Run S
  and_then right none = none
  and_then right (some (status, s)) = if status == 0 then right s else some (status, s)

  unfoldable pub or_else : (S → Run S) → Run S → Run S
  or_else right none = none
  or_else right (some (status, s)) = if status == 0 then some (status, s) else right s

  unfoldable pub in_sequence : (S → Run S) → Run S → Run S
  in_sequence right none = none
  in_sequence right (some (status, s)) = right s

  abbrev pub is_null : Command → Bool
  is_null null = true
  is_null c = false

  -- A child that runs a program, and the parent after it.
  unfoldable pub ran_program : Option (Option ℕ × S) → Run S
  unfolding program_status
  ran_program none = none
  ran_program (some (status, s)) = some (program_status status, s)

  -- execute_simple_command, whose child opens the files and runs the program.
  unfoldable pub execute_simple_command : Option Name → Option Name → List Name → S → Run S
  unfolding redirect_input redirect_output waited ran_program
  execute_simple_command input output word s =
      waited s (ran_program (w.execvp word (redirect_output output (redirect_input input s))))

  -- execute_pipe_command, whose children execute the two commands.
  unfoldable pub execute_pipe_command : (S → Run S) → (S → Run S) → S → Run S
  unfolding child waited_both
  execute_pipe_command left right s =
      waited_both (w.pipe (λ t. child (left t)) (λ t. child (right t)) s)

  -- execute_subshell_command, whose child executes the command.
  unfoldable pub execute_subshell_command : Option Name → Option Name → (S → Run S) → S → Run S
  unfolding child waited redirect_input redirect_output
  execute_subshell_command input output command s =
      waited s (child (command (redirect_output output (redirect_input input s))))

  -- execute_command, with the functions it calls for the types of commands.
  unfoldable pub execute_command : Command → S → Run S
  unfolding and_then or_else in_sequence execute_simple_command execute_pipe_command
      execute_subshell_command
  execute_command (and_command a b) s = and_then (execute_command b) (execute_command a s)
  execute_command (or_command a b) s = or_else (execute_command b) (execute_command a s)
  execute_command (sequence_command a b) s =
      let left = execute_command a s in
      let right = execute_command b s in
      if is_null a then right else if is_null b then left else in_sequence (execute_command b) left
  execute_command (pipe_command a b) s =
      execute_pipe_command (execute_command a) (execute_command b) s
  execute_command (simple_command input output word) s = execute_simple_command input output word s
  execute_command (subshell_command input output c) s =
      execute_subshell_command input output (execute_command c) s
  execute_command null s = none
