-- ===== src/Shell/Semantics.antt =====
-- The commands of a shell by what they do and whether they succeed, and the functions of
-- Lab1/execute-command.c against that.
use cs111_ucla.Prelude.{
  ◌≡◌, refl, ℕ, Bool, true, false, ◌==◌, Bool-cases, Option-cases, inl, inr, Option, none, some,
  List,
}
use cs111_ucla.Shell.{
  Name, Command, and_command, sequence_command, or_command, pipe_command, simple_command,
  subshell_command, null, Run, System, program_status, redirect_input, redirect_output, waited,
  and_then, or_else, in_sequence, is_null, ran_program, execute_simple_command, execute_command,
  exited,
}

-- A program succeeds if it is there and its exit status is zero.
abbrev pub success : Option ℕ → Bool
success none = false
success (some status) = status == 0

-- A command without pipes and subshells; only a sequence may lack one of its commands.
pub data IsPlain : Command → Type 0 where
  plain_and : {a b : Command} → IsPlain a → IsPlain b → IsPlain (and_command a b)
  plain_or : {a b : Command} → IsPlain a → IsPlain b → IsPlain (or_command a b)
  plain_sequence : {a b : Command} → IsPlain a → IsPlain b → IsPlain (sequence_command a b)
  plain_left : {a : Command} → IsPlain a → IsPlain (sequence_command a null)
  plain_right : {b : Command} → IsPlain b → IsPlain (sequence_command null b)
  plain_simple : {i o : Option Name} {word : List Name} → IsPlain (simple_command i o word)

module _ {S : Type 0} (w : System S) where
  -- A program with its redirections.
  abbrev pub ran : Option Name → Option Name → List Name → S → Option (Option ℕ × S)
  ran i o word s = w.execvp word (redirect_output w o (redirect_input w i s))

  -- Yields c s r t: the command c takes the state s to t, and succeeds if r is true.
  pub data Yields : Command → S → Bool → S → Type 0 where
    and_stops : {a b : Command} {s t : S} → Yields a s false t → Yields (and_command a b) s false t
    and_goes :
        {a b : Command} {s t u : S} {r : Bool}
        → Yields a s true t
        → Yields b t r u
        → Yields (and_command a b) s r u
    or_stops : {a b : Command} {s t : S} → Yields a s true t → Yields (or_command a b) s true t
    or_goes :
        {a b : Command} {s t u : S} {r : Bool}
        → Yields a s false t
        → Yields b t r u
        → Yields (or_command a b) s r u
    both :
        {a b : Command} {s t u : S} {q r : Bool}
        → Yields a s q t
        → Yields b t r u
        → Yields (sequence_command a b) s r u
    only_left :
        {a : Command} {s t : S} {r : Bool} → Yields a s r t → Yields (sequence_command a null) s r t
    only_right :
        {b : Command} {s t : S} {r : Bool} → Yields b s r t → Yields (sequence_command null b) s r t
    runs :
        (i o : Option Name) (word : List Name) (s : S) (e : Option ℕ × S)
        → ran i o word s ≡ some e
        → Yields (simple_command i o word) s (success e.0) (w.leave s e.1)

  -- Diverges c s: from the state s the command c comes to a program that never ends.
  pub data Diverges : Command → S → Type 0 where
    and_left : {a b : Command} {s : S} → Diverges a s → Diverges (and_command a b) s
    and_right :
        {a b : Command} {s t : S} → Yields a s true t → Diverges b t → Diverges (and_command a b) s
    or_left : {a b : Command} {s : S} → Diverges a s → Diverges (or_command a b) s
    or_right :
        {a b : Command} {s t : S} → Yields a s false t → Diverges b t → Diverges (or_command a b) s
    first : {a b : Command} {s : S} → Diverges a s → Diverges (sequence_command a b) s
    second :
        {a b : Command} {s t : S} {r : Bool}
        → Yields a s r t
        → Diverges b t
        → Diverges (sequence_command a b) s
    lone_right : {b : Command} {s : S} → Diverges b s → Diverges (sequence_command null b) s
    stays :
        (i o : Option Name) (word : List Name) (s : S)
        → ran i o word s ≡ none
        → Diverges (simple_command i o word) s

  plain-is_null : {c : Command} → IsPlain c → is_null w c ≡ false
  plain-is_null (plain_and a b) = refl
  plain-is_null (plain_or a b) = refl
  plain-is_null (plain_sequence a b) = refl
  plain-is_null (plain_left a) = refl
  plain-is_null (plain_right b) = refl
  plain-is_null plain_simple = refl

  -- A run that ends, with what the command yields, or that does not end, as the command diverges.
  abbrev pub Follows : Command → S → Run S → Type 0
  Follows c s none = Diverges c s
  Follows c s (some (status, t)) = Yields c s (status == 0) t

  Follows-map :
      (b c : Command) (s t : S)
      → ((r : Bool) (u : S) → Yields b t r u → Yields c s r u)
      → (Diverges b t → Diverges c s)
      → (e : Run S) → Follows b t e
      → Follows c s e
  Follows-map b c s t f g none h = g h
  Follows-map b c s t f g (some (status, u)) h = f (status == 0) u h

  and_then-Follows :
      (a b : Command) (s : S) (left : Run S)
      → Follows a s left
      → ((t : S) → Follows b t (execute_command w b t))
      → Follows (and_command a b) s (and_then w (execute_command w b) left)
  unfolding and_then
  and_then-Follows a b s none h k = and_left h
  and_then-Follows a b s (some (status, t)) h k = elim (Bool-cases (status == 0)) [
    | inl zeroed ↦ rw zeroed (
        Follows-map b (and_command a b) s t (λ r u. and_goes (rw (← zeroed) h))
          (and_right (rw (← zeroed) h)) (execute_command w b t) (k t))
    | inr failed ↦ rw (failed, failed) (and_stops (rw (← failed) h))
  ]

  or_else-Follows :
      (a b : Command) (s : S) (left : Run S)
      → Follows a s left
      → ((t : S) → Follows b t (execute_command w b t))
      → Follows (or_command a b) s (or_else w (execute_command w b) left)
  unfolding or_else
  or_else-Follows a b s none h k = or_left h
  or_else-Follows a b s (some (status, t)) h k = elim (Bool-cases (status == 0)) [
    | inl zeroed ↦ rw (zeroed, zeroed) (or_stops (rw (← zeroed) h))
    | inr failed ↦ rw failed (
        Follows-map b (or_command a b) s t (λ r u. or_goes (rw (← failed) h))
          (or_right (rw (← failed) h)) (execute_command w b t) (k t))
  ]

  in_sequence-Follows :
      (a b : Command) (s : S) (left : Run S)
      → Follows a s left
      → ((t : S) → Follows b t (execute_command w b t))
      → Follows (sequence_command a b) s (in_sequence w (execute_command w b) left)
  unfolding in_sequence
  in_sequence-Follows a b s none h k = first h
  in_sequence-Follows a b s (some (status, t)) h k =
      Follows-map b (sequence_command a b) s t (λ r u. both h) (second h) (execute_command w b t)
        (k t)

  program-success : (e : Option ℕ) → (program_status e == 0) ≡ success e
  unfolding program_status exited
  program-success none = refl
  program-success (some status) = refl

  -- A run of a command without pipes and subshells ends with a status, and the command takes the
  -- state before the run to the one after and succeeds if and only if that status is zero; or the run does not
  -- end, and then the command comes to a program that never ends.
  pub execute_command-Yields :
      (c : Command) → IsPlain c → (s : S) → Follows c s (execute_command w c s)
  unfolding execute_command execute_simple_command waited ran_program
  execute_command-Yields (and_command a b) (plain_and ha hb) s =
      and_then-Follows a b s (execute_command w a s) (execute_command-Yields a ha s)
        (execute_command-Yields b hb)
  execute_command-Yields (or_command a b) (plain_or ha hb) s =
      or_else-Follows a b s (execute_command w a s) (execute_command-Yields a ha s)
        (execute_command-Yields b hb)
  execute_command-Yields (sequence_command a b) (plain_sequence ha hb) s =
      rw (plain-is_null ha, plain-is_null hb)
        (in_sequence-Follows a b s (execute_command w a s) (execute_command-Yields a ha s)
          (execute_command-Yields b hb))
  execute_command-Yields (sequence_command a null) (plain_left ha) s = rw (plain-is_null ha) (
      Follows-map a (sequence_command a null) s s (λ r u. only_left) first (execute_command w a s)
        (execute_command-Yields a ha s))
  execute_command-Yields (sequence_command null b) (plain_right hb) s =
      Follows-map b (sequence_command null b) s s (λ r u. only_right) lone_right
        (execute_command w b s) (execute_command-Yields b hb s)
  execute_command-Yields (simple_command i o word) plain_simple s =
      elim (Option-cases (ran i o word s)) [
        | inl never ↦ rw never (stays i o word s never)
        | inr (e, ends) ↦ rw (ends, program-success e.0) (runs i o word s e ends)
      ]
  execute_command-Yields (pipe_command a b) h s = elim h [ ]
  execute_command-Yields (subshell_command i o c) h s = elim h [ ]
  execute_command-Yields null h s = elim h [ ]
