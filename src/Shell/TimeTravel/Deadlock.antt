-- ===== src/Shell/TimeTravel/Deadlock.antt =====
-- Commands that wait for each other in execute_tcmd of Lab1/execute-command.c.
use cs111_ucla.Prelude.{
  arith, ◌≡◌, ◌≢◌, refl, sym, ap, ◌∙◌, ◌<◌, ℕ, zero, suc, ◌+◌, Bool, true, false, ◌==◌,
  if◌then◌else◌, ◌||◌, ne→==, none, List, [], ◌∷◌,
}
use mathlib.Core.List.Memᴰ.{head}
use cs111_ucla.Shell.{Name, Command}
use cs111_ucla.Shell.TimeTravel.{
  Constrains, Jobs, Answer, check_constrain, fill_rows, round, all_run, execute_tcmd, constrains_of,
  execute_timetravel_cmd,
}
use cs111_ucla.Shell.TimeTravel.Graph.{
  waits_for, fill_rows-RowsFilled, fill_rows-IsCounted, check_constrain_first,
}
use cs111_ucla.Shell.TimeTravel.Retire.{IsCounted}
use cs111_ucla.Shell.TimeTravel.Round.{round-Rounded}

-- Each answer of wait is another process than the two.
pub data Others (x y : ℕ) : List Answer → Type 0 where
  no_answer : Others x y []
  other_answer :
      {a : Answer} {answers : List Answer}
      → x ≢ a.ended
      → y ≢ a.ended
      → Others x y answers
      → Others x y (a ∷ answers)

-- Two commands that do not run and wait for each other.
pub record Stuck (size r c : ℕ) (t : Jobs) : Type 0 where
  pub counted : IsCounted size t
  pub r_in : r < size
  pub c_in : c < size
  pub forth : t.graph r c ≡ 1
  pub back : t.graph c r ≡ 1
  pub r_stops : t.running r ≡ 0
  pub c_stops : t.running c ≡ 0

false_either : (b : Bool) → (if b then false else false) ≡ false
false_either true = refl
false_either false = refl

all_run_not : (n ind i : ℕ) (t : Jobs) → i < n → t.running (ind + i) ≡ 0 → all_run n ind t ≡ false
unfolding all_run
all_run_not zero ind i t l z = absurd (omega arith)
all_run_not (suc n) ind zero t l z =
    let q : ind + 0 ≡ ind = omega arith in let e : t.running ind ≡ 0 = rw (← q) z in rw e refl
all_run_not (suc n) ind (suc i) t l z =
    let q : ind + suc i ≡ suc ind + i = omega arith in
    rw (all_run_not n (suc ind) i t (omega arith) (rw (← q) z)) (false_either (t.running ind == 0))

Stuck-all_run : (size r c : ℕ) (t : Jobs) → Stuck size r c t → all_run size 0 t ≡ false
Stuck-all_run size r c t k =
    let q : 0 + r ≡ r = omega arith in all_run_not size 0 r t k.r_in (rw q k.r_stops)

round-Stuck :
    (fork : ℕ → ℕ) (size p reported r c : ℕ) (t : Jobs)
    → Stuck size r c t
    → t.pid r ≢ p
    → t.pid c ≢ p
    → (let t' = round fork size p reported t in
        Stuck size r c t' × (t'.pid r ≡ t.pid r) × (t'.pid c ≡ t.pid c))
round-Stuck fork size p reported r c t k n m =
    let done = round-Rounded fork size p reported t k.counted in
    let (run, pid) = done.kept r c k.r_in k.c_in k.forth in
    let (run', pid') = done.kept c r k.c_in k.r_in k.back in
    (
      record {
        counted = done.counted;
        r_in = k.r_in;
        c_in = k.c_in;
        forth = (done.edges r c k.r_in k.c_in).1 (k.forth, λ e. m (sym pid' ∙ e));
        back = (done.edges c r k.c_in k.r_in).1 (k.back, λ e. n (sym pid ∙ e));
        r_stops = run ∙ k.r_stops;
        c_stops = run' ∙ k.c_stops;
      },
      pid,
      pid',
    )

execute_tcmd-deadlocks :
    (size r c : ℕ) (answers : List Answer) (t : Jobs)
    → Stuck size r c t
    → Others (t.pid r) (t.pid c) answers
    → execute_tcmd size answers t ≡ none
unfolding execute_tcmd
execute_tcmd-deadlocks size r c [] t k no_answer = rw (Stuck-all_run size r c t k) refl
execute_tcmd-deadlocks size r c (a ∷ answers) t k (other_answer n m others) =
    let (stuck, pid, pid') = round-Stuck a.forked size a.ended a.reported r c t k n m in
    rw (Stuck-all_run size r c t k) (
      execute_tcmd-deadlocks size r c answers (round a.forked size a.ended a.reported t) stuck
        (rw (pid, pid') others))

or_true : (a b : Bool) → b ≡ true → (a || b) ≡ true
or_true true b e = refl
or_true false b e = e

same_output_waits :
    (cs : ℕ → Constrains) (r c : ℕ) (o : Name) (os os' : List Name)
    → r ≢ c
    → (cs r).outputs ≡ o ∷ os
    → (cs c).outputs ≡ o ∷ os'
    → waits_for cs r c ≡ true
same_output_waits cs r c o os os' n e e' =
    let apart : (c == r) ≡ false = ne→== c r (λ q. n (sym q)) in
    let found : check_constrain (cs c).outputs (cs r).outputs ≡ true =
      rw (e, e') ((check_constrain_first o os' (o ∷ os)).1 (head refl)) in
    rw apart (or_true _ _ found)

-- Two different commands whose first output is the same file: execute_timetravel_cmd does not end,
-- whatever processes fork makes, if wait reports no process that is in the field `pid` of one of the two.
pub same_output-deadlocks :
    (commands : ℕ → Command) (size r c : ℕ) (o : Name) (os os' : List Name) (answers : List Answer)
    (t : Jobs)
    → r < size
    → c < size
    → r ≢ c
    → (constrains_of commands r).outputs ≡ o ∷ os
    → (constrains_of commands c).outputs ≡ o ∷ os'
    → t.running r ≡ 0
    → t.running c ≡ 0
    → Others (t.pid r) (t.pid c) answers
    → execute_timetravel_cmd commands size answers t ≡ none
unfolding execute_timetravel_cmd
same_output-deadlocks commands size r c o os os' answers t a b n e e' z z' others =
    let cs = constrains_of commands in
    let t0 = record t { status = 0 } in
    let (counted, edge) = fill_rows-IsCounted cs size t0 in
    let filled = fill_rows-RowsFilled cs size size 0 t0 in
    let stuck : Stuck size r c (fill_rows cs size size 0 t0) = record {
      counted = counted;
      r_in = a;
      c_in = b;
      forth = (edge r c a b).1 (same_output_waits cs r c o os os' n e e');
      back = (edge c r b a).1 (same_output_waits cs c r o os' os (λ q. n (sym q)) e' e);
      r_stops = ap (λ f. f r) filled.runs ∙ z;
      c_stops = ap (λ f. f c) filled.runs ∙ z';
    } in
    rw
      (execute_tcmd-deadlocks size r c answers (fill_rows cs size size 0 t0) stuck
        (rw filled.pids others))
      refl
