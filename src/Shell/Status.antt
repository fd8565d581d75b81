-- ===== src/Shell/Status.antt =====
-- The statuses that the functions of Lab1/execute-command.c leave in a command.
use cs111_ucla.Prelude.{
  arith, ◌≡◌, refl, sym, ap, ◌∙◌, ◌<◌, ℕ, ◌*◌, false, ◌==◌, Bool-cases, some_inj, inl, inr, Option,
  some, List,
}
use cs111_ucla.Shell.{
  Name, Command, and_command, sequence_command, or_command, pipe_command, simple_command,
  subshell_command, null, Run, Ended, System, exited, program_status, redirect_input,
  redirect_output, child, waited, waited_both, and_then, or_else, in_sequence, is_null, ran_program,
  execute_simple_command, execute_pipe_command, execute_subshell_command, execute_command,
}

-- A command that a parse can give: only a sequence may lack one of its commands.
pub data IsComplete : Command → Type 0 where
  complete_and : {a b : Command} → IsComplete a → IsComplete b → IsComplete (and_command a b)
  complete_or : {a b : Command} → IsComplete a → IsComplete b → IsComplete (or_command a b)
  complete_pipe : {a b : Command} → IsComplete a → IsComplete b → IsComplete (pipe_command a b)
  complete_sequence :
      {a b : Command} → IsComplete a → IsComplete b → IsComplete (sequence_command a b)
  complete_left : {a : Command} → IsComplete a → IsComplete (sequence_command a null)
  complete_right : {b : Command} → IsComplete b → IsComplete (sequence_command null b)
  complete_simple : {i o : Option Name} {word : List Name} → IsComplete (simple_command i o word)
  complete_subshell :
      {i o : Option Name} {c : Command} → IsComplete c → IsComplete (subshell_command i o c)

-- The status that wait reports of a process that has called exit, and not of one that a signal has ended.
abbrev pub IsExit : ℕ → Type 0
IsExit status = (code : ℕ) × (code < 256) × (status ≡ code * 256)

-- A run that ends, with such a status.
abbrev pub Exits : {S : Type 0} → Run S → Type 0
Exits {S} r = (status : ℕ) × (s : S) × (r ≡ some (status, s)) × IsExit status

-- Every program ends, and by exit.
abbrev pub ProgramsExit : {S : Type 0} → System S → Type 0
ProgramsExit {S} w =
    (word : List Name) (s : S)
    → (e : Option ℕ × S) × (w.execvp word s ≡ some e) × IsExit (program_status e.0)

-- The two children of a pipe end, if each one ends wherever it starts, and the statuses reported of them
-- are those of such runs.
abbrev pub PipesEnd : {S : Type 0} → System S → Type 0
PipesEnd {S} w =
    (f g : S → Run S)
    → ((s : S) → Exits (f s))
    → ((s : S) → Exits (g s))
    → (s : S)
    → (e : Ended S) × (w.pipe f g s ≡ some e)
      × ((t : S) × (u : S) × (f t ≡ some (e.left, u)))
      × ((t : S) × (u : S) × (g t ≡ some (e.right, u)))

-- The run ends with a status of zero.
abbrev pub Succeeds : {S : Type 0} → Run S → Type 0
Succeeds {S} r = (s : S) × (r ≡ some (0, s))

exited_zero : (status : ℕ) → IsExit status → exited status ≡ 0
unfolding exited
exited_zero status (code, small, e) = omega arith

zero-IsExit : IsExit 0
zero-IsExit = (0, omega arith, omega arith)

Succeeds-Exits : {S : Type 0} (r : Run S) → Succeeds r → Exits r
Succeeds-Exits r (s, e) = (0, s, e, zero-IsExit)

status_unique :
    {S : Type 0} {status : ℕ} {s : S} (r : Run S) → r ≡ some (status, s) → Succeeds r → status ≡ 0
status_unique r e (t, z) = ap (λ p. p.0) (some_inj (sym e ∙ z))

module _ {S : Type 0} (w : System S) where
  child-Succeeds : (r : Run S) → Exits r → Succeeds (child w r)
  unfolding child
  child-Succeeds r (status, s, e, x) = rw e (s, ap (λ n. some (n, s)) (exited_zero status x))

  waited-Succeeds : (before : S) (r : Run S) → Succeeds r → Succeeds (waited w before r)
  unfolding waited
  waited-Succeeds before r (s, e) = rw e (w.leave before s, refl)

  and_then-Exits :
      (right : S → Run S) (r : Run S)
      → Exits r
      → ((s : S) → Exits (right s))
      → Exits (and_then w right r)
  unfolding and_then
  and_then-Exits right r (status, s, e, x) h = rw e (elim (Bool-cases (status == 0)) [
    | inl success ↦ rw success (h s)
    | inr failure ↦ rw failure (status, s, refl, x)
  ])

  or_else-Exits :
      (right : S → Run S) (r : Run S)
      → Exits r
      → ((s : S) → Exits (right s))
      → Exits (or_else w right r)
  unfolding or_else
  or_else-Exits right r (status, s, e, x) h = rw e (elim (Bool-cases (status == 0)) [
    | inl success ↦ rw success (status, s, refl, x)
    | inr failure ↦ rw failure (h s)
  ])

  in_sequence-Exits :
      (right : S → Run S) (r : Run S)
      → Exits r
      → ((s : S) → Exits (right s))
      → Exits (in_sequence w right r)
  unfolding in_sequence
  in_sequence-Exits right r (status, s, e, x) h = rw e (h s)

  waited_both-Succeeds :
      (f g : S → Run S)
      → PipesEnd w
      → ((s : S) → Succeeds (f s))
      → ((s : S) → Succeeds (g s))
      → (s : S) → Succeeds (waited_both w (w.pipe f g s))
  unfolding waited_both
  waited_both-Succeeds f g pipes hf hg s =
      let (e, ends, (t, u, l), (t', u', r)) =
        pipes f g (λ t. Succeeds-Exits (f t) (hf t)) (λ t. Succeeds-Exits (g t) (hg t)) s in
      let left : e.left ≡ 0 = status_unique (f t) l (hf t) in
      let right : e.right ≡ 0 = status_unique (g t') r (hg t') in
      rw (ends, left, right)
        (elim (Bool-cases e.left_first) [
          | inl first ↦ rw first (e.after, refl)
          | inr second ↦ rw second (e.after, refl)
        ])

  child-Exits : (r : Run S) → Exits r → Exits (child w r)
  child-Exits r h = Succeeds-Exits (child w r) (child-Succeeds r h)

  complete-is_null : {c : Command} → IsComplete c → is_null w c ≡ false
  complete-is_null (complete_and a b) = refl
  complete-is_null (complete_or a b) = refl
  complete-is_null (complete_pipe a b) = refl
  complete-is_null (complete_sequence a b) = refl
  complete-is_null (complete_left a) = refl
  complete-is_null (complete_right b) = refl
  complete-is_null complete_simple = refl
  complete-is_null (complete_subshell c) = refl

  -- If every program ends by exit and the children of a pipe end, then a complete command ends wherever it
  -- starts, with the status of an exit.
  execute_command-Exits :
      (c : Command)
      → ProgramsExit w
      → PipesEnd w
      → IsComplete c
      → (s : S) → Exits (execute_command w c s)
  unfolding execute_command execute_simple_command execute_pipe_command execute_subshell_command
      ran_program waited
  execute_command-Exits (and_command a b) programs pipes (complete_and ha hb) s =
      and_then-Exits (execute_command w b) (execute_command w a s)
        (execute_command-Exits a programs pipes ha s) (execute_command-Exits b programs pipes hb)
  execute_command-Exits (or_command a b) programs pipes (complete_or ha hb) s =
      or_else-Exits (execute_command w b) (execute_command w a s)
        (execute_command-Exits a programs pipes ha s) (execute_command-Exits b programs pipes hb)
  execute_command-Exits (sequence_command a b) programs pipes (complete_sequence ha hb) s =
      rw (complete-is_null ha, complete-is_null hb)
        (in_sequence-Exits (execute_command w b) (execute_command w a s)
          (execute_command-Exits a programs pipes ha s) (execute_command-Exits b programs pipes hb))
  execute_command-Exits (sequence_command a null) programs pipes (complete_left ha) s =
      rw (complete-is_null ha) (execute_command-Exits a programs pipes ha s)
  execute_command-Exits (sequence_command null b) programs pipes (complete_right hb) s =
      execute_command-Exits b programs pipes hb s
  execute_command-Exits (pipe_command a b) programs pipes (complete_pipe ha hb) s =
      Succeeds-Exits _ (
        waited_both-Succeeds (λ t. child w (execute_command w a t))
          (λ t. child w (execute_command w b t)) pipes
          (λ t. child-Succeeds _ (execute_command-Exits a programs pipes ha t))
          (λ t. child-Succeeds _ (execute_command-Exits b programs pipes hb t)) s)
  execute_command-Exits (simple_command i o word) programs pipes complete_simple s =
      let ((status, u), ends, exits) = programs word (redirect_output w o (redirect_input w i s)) in
      rw ends (program_status status, w.leave s u, refl, exits)
  execute_command-Exits (subshell_command i o c) programs pipes (complete_subshell h) s =
      Succeeds-Exits _ (
        waited-Succeeds s _ (
          child-Succeeds _ (
            execute_command-Exits c programs pipes h (redirect_output w o (redirect_input w i s)))))
  execute_command-Exits null programs pipes h s = elim h [ ]

  -- If every program ends by exit and the children of a pipe end, then a subshell of a complete command
  -- has status zero, and so has a pipe of two complete commands, whatever the status of these commands.
  pub subshell-Succeeds :
      (i o : Option Name) (a b : Command)
      → ProgramsExit w
      → PipesEnd w
      → IsComplete a
      → IsComplete b
      → (s : S)
      → Succeeds (execute_command w (subshell_command i o a) s)
        × Succeeds (execute_command w (pipe_command a b) s)
  unfolding execute_command execute_pipe_command execute_subshell_command
  subshell-Succeeds i o a b programs pipes ha hb s = (
    waited-Succeeds s _ (
        child-Succeeds _
          (execute_command-Exits a programs pipes ha (redirect_output w o (redirect_input w i s)))),
    waited_both-Succeeds (λ t. child w (execute_command w a t))
        (λ t. child w (execute_command w b t)) pipes
        (λ t. child-Succeeds _ (execute_command-Exits a programs pipes ha t))
        (λ t. child-Succeeds _ (execute_command-Exits b programs pipes hb t)) s,
  )
