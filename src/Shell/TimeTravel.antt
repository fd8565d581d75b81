-- ===== src/Shell/TimeTravel.antt =====
-- The time travel mode of Lab1/execute-command.c: what a command reads and writes, the graph of
-- the commands that wait for others, and the rounds in which they start and end.
pub mod Deadlock
pub mod Graph
pub mod Retire
mod Tests
pub mod Round
use cs111_ucla.Prelude.{
  ℕ, zero, suc, ◌+◌, ◌-◌, Bool, true, false, ◌==◌, ◌&&◌, ◌||◌, if◌then◌else◌, Option, none, some,
  List, [], ◌∷◌, ◌++◌, update,
}
use cs111_ucla.Shell.{
  Name, Command, and_command, sequence_command, or_command, pipe_command, simple_command,
  subshell_command, null,
}

-- output_constrain and input_constrain of struct cmd_stream_list, with their sizes. The
-- arrays have no bound here.
pub record Constrains : Type 0 where
  pub outputs : List Name
  pub inputs : List Name

abbrev pub one_name : Option Name → List Name
one_name none = []
one_name (some name) = name ∷ []

-- get_constrains: what it appends for each simple command.
unfoldable pub get_constrains : Command → Constrains → Constrains
get_constrains (and_command a b) r = get_constrains b (get_constrains a r)
get_constrains (or_command a b) r = get_constrains b (get_constrains a r)
get_constrains (sequence_command a b) r = get_constrains b (get_constrains a r)
get_constrains (pipe_command a b) r = get_constrains b (get_constrains a r)
get_constrains (simple_command input output word) r = record {
  outputs = r.outputs ++ one_name output;
  inputs = (r.inputs ++ one_name input) ++ word;
}
get_constrains (subshell_command input output c) r = get_constrains c r
get_constrains null r = r

-- strcmp(a, b) == 0.
unfoldable pub strcmp_is : Name → Name → Bool
strcmp_is [] [] = true
strcmp_is [] (y ∷ ys) = false
strcmp_is (x ∷ xs) [] = false
strcmp_is (x ∷ xs) (y ∷ ys) = let rest = strcmp_is xs ys in if x == y then rest else false

-- The inner loop of check_constrain, from j on.
unfoldable pub check_inputs : Name → List Name → Bool
unfolding strcmp_is
check_inputs o [] = false
check_inputs o (i ∷ is) = let rest = check_inputs o is in if strcmp_is o i then true else rest

-- check_constrain: the list of inputs is what j has not passed, and j is at the end after a round.
unfoldable pub check_constrain : List Name → List Name → Bool
unfolding check_inputs
check_constrain [] is = false
check_constrain (o ∷ os) is =
    let rest = check_constrain os [] in if check_inputs o is then true else rest

-- The list of commands by their positions, with the rows of constrain_graph and the counters W.
pub record Jobs : Type 0 where
  pub running : ℕ → ℕ
  pub pid : ℕ → ℕ
  pub graph : ℕ → ℕ → ℕ
  pub waits : ℕ → ℕ
  pub status : ℕ

-- The element of the graph at a column, and the counter of its row, as execute_timetravel_cmd sets them.
unfoldable pub fill_one : (ℕ → Constrains) → ℕ → ℕ → (ℕ → ℕ) × ℕ → (ℕ → ℕ) × ℕ
unfolding check_constrain
fill_one cs row col (g, w) =
    let writes = (cs col).outputs in
    if col == row
    then (update g col 0, w)
    else if check_constrain writes (cs row).inputs || check_constrain writes (cs row).outputs
    then (update g col 1, w + 1)
    else (update g col 0, w)

-- The columns from `col` on, and the rows from `row` on.
unfoldable pub fill_row : (ℕ → Constrains) → ℕ → ℕ → ℕ → (ℕ → ℕ) × ℕ → (ℕ → ℕ) × ℕ
unfolding fill_one
fill_row cs row zero col e = e
fill_row cs row (suc n) col e = fill_row cs row n (suc col) (fill_one cs row col e)

unfoldable pub fill_rows : (ℕ → Constrains) → ℕ → ℕ → ℕ → Jobs → Jobs
unfolding fill_row
fill_rows cs size zero row t = t
fill_rows cs size (suc n) row t =
    let (g, w) = fill_row cs row size 0 (t.graph row, 0) in
    fill_rows cs size n (suc row)
      (record t { graph = update t.graph row g; waits = update t.waits row w })

-- Whether the command at i starts in a round of execute_tcmd.
abbrev pub can_start : Jobs → ℕ → Bool
can_start t i = t.waits i == 0 && t.running i == 0

unfoldable pub start_one : (ℕ → ℕ) → ℕ → Jobs → Jobs
start_one fork ind t =
    if can_start t ind
    then record t { running = update t.running ind 1; pid = update t.pid ind (fork ind) }
    else t

-- The first half of the round: the commands from `ind` on, with the process that fork gives for each.
unfoldable pub start_from : (ℕ → ℕ) → ℕ → ℕ → Jobs → Jobs
unfolding start_one
start_from fork zero ind t = t
start_from fork (suc n) ind t = start_from fork n (suc ind) (start_one fork ind t)

-- The second half, in one row from the column `col` on, when the process p has ended.
unfoldable pub retire_row : (ℕ → ℕ) → ℕ → ℕ → ℕ → (ℕ → ℕ) × ℕ → (ℕ → ℕ) × ℕ
retire_row pid p zero col (g, w) = (g, w)
retire_row pid p (suc n) col (g, w) =
    retire_row pid p n (suc col)
      (if pid col == p && g col == 1 then (update g col 0, w - 1) else (g, w))

unfoldable pub retire_rows : ℕ → ℕ → ℕ → ℕ → Jobs → Jobs
unfolding retire_row
retire_rows p size zero row t = t
retire_rows p size (suc n) row t =
    let (g, w) = retire_row t.pid p size 0 (t.graph row, t.waits row) in
    retire_rows p size n (suc row)
      (record t { graph = update t.graph row g; waits = update t.waits row w })

-- A round of execute_tcmd in which wait reports the end of p with a status.
unfoldable pub round : (ℕ → ℕ) → ℕ → ℕ → ℕ → Jobs → Jobs
unfolding start_from retire_rows
round fork size p reported t =
    let s = start_from fork size 0 t in
    retire_rows p size size 0 (record s { status = if t.status == 0 then reported else t.status })

-- Whether all commands from `ind` on run.
unfoldable pub all_run : ℕ → ℕ → Jobs → Bool
all_run zero ind t = true
all_run (suc n) ind t =
    let rest = all_run n (suc ind) t in if t.running ind == 0 then false else rest

-- What the kernel answers in a round: the processes that fork makes, and what wait reports. A wait that
-- fails leaves the status as it is, and `ended` is the number of no process.
pub record Answer : Type 0 where
  pub forked : ℕ → ℕ
  pub ended : ℕ
  pub reported : ℕ

-- execute_tcmd, with the answers of its rounds; `none` if there are too few of them.
unfoldable pub execute_tcmd : ℕ → List Answer → Jobs → Option Jobs
unfolding round all_run
execute_tcmd size [] t = if all_run size 0 t then some t else none
execute_tcmd size (a ∷ answers) t =
    let rest = execute_tcmd size answers (round a.forked size a.ended a.reported t) in
    if all_run size 0 t then some t else rest

abbrev pub no_constrains : Constrains
no_constrains = record { outputs = []; inputs = [] }

unfoldable pub constrains_of : (ℕ → Command) → ℕ → Constrains
unfolding get_constrains
constrains_of commands i = get_constrains (commands i) no_constrains

abbrev status_of : Option Jobs → Option ℕ
status_of none = none
status_of (some t) = some t.status

-- execute_timetravel_cmd of a list of commands, by their positions; `t` has what its fields `running` and
-- `pid` and its new arrays are before. The result is the status, or `none` if the answers are too few.
unfoldable pub execute_timetravel_cmd : (ℕ → Command) → ℕ → List Answer → Jobs → Option ℕ
unfolding constrains_of fill_rows execute_tcmd
execute_timetravel_cmd commands size answers t = status_of (
    execute_tcmd size answers
      (fill_rows (constrains_of commands) size size 0 (record t { status = 0 })))
