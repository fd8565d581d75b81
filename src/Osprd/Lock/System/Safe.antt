-- ===== src/Osprd/Lock/System/Safe.antt =====
-- The lock of Lab2/osprd.c in every sequence of steps: at most one writer, and then no reader.
use cs111_ucla.Prelude.{ℕ, ◌≡◌, refl, inl, false, arith}
use cs111_ucla.Osprd.Lock.{File, in_progress, setup}
use cs111_ucla.Osprd.Lock.Laws.{woken_free}
use cs111_ucla.Osprd.Lock.System.{
  idle, waiting, tested, System, Step, takes_ticket, clears, looks_at, refused, passes, queues,
  goes_on, wakes, is_interrupted, gets, tries, releases, closes,
}
use cs111_ucla.Osprd.Lock.System.Count.{unlocked_count, is_locked_writer, is_locked_reader}
use cs111_ucla.Osprd.Lock.System.Sound.{IsSound}
use cs111_ucla.Osprd.Lock.System.Ticket.{drawing, flagging, turning, going_on, leaving}
use cs111_ucla.Osprd.Lock.System.Take.{getting, trying}
use cs111_ucla.Osprd.Lock.System.Give.{unlocking, closing}

Step-IsSound : (n : ℕ) (s s' : System) → IsSound n s → Step n s s' → IsSound n s'
Step-IsSound n s s' w (takes_ticket pid f f_in i small) = drawing n s pid f w small
Step-IsSound n s s' w (clears pid f t e) = flagging n s 0 0 w
Step-IsSound n s s' w (looks_at pid f t filp e) =
    let d = in_progress filp s.device in flagging n s d.read_ids d.write_ids w
Step-IsSound n s s' w (refused pid f t e dead) =
    turning n s pid t idle w (rw e refl) (λ u x. absurd x) (λ g u y. absurd cc)
Step-IsSound n s s' w (passes pid f t e alive) =
    turning n s pid t (tested f t) w (rw e refl) (λ u x. x) (λ g u y. absurd cc)
Step-IsSound n s s' w (queues pid f t e wait) =
    turning n s pid t (waiting f t) w (rw e refl) (λ u x. x) (λ g u y. absurd cc)
Step-IsSound n s s' w (goes_on pid f t e free) = going_on n s pid f t w (rw e refl) free
Step-IsSound n s s' w (wakes pid f t e c) =
    going_on n s pid f t w (rw e refl) (woken_free t (s.files f).writable s.device c)
Step-IsSound n s s' w (is_interrupted pid f t e) = leaving n s pid t w (rw e refl)
Step-IsSound n s s' w (gets pid f t f_in e small) = getting n s pid f t w f_in e small
Step-IsSound n s s' w (tries pid f f_in small free) = trying n s pid f w f_in small free
Step-IsSound n s s' w (releases f f_in held) = unlocking n s f w f_in held
Step-IsSound n s s' w (closes f f_in own) = closing n s f w f_in own

-- A ramdisk that nobody has locked, with its open files.
unfoldable pub opened : (ℕ → File) → System
opened files = record { device = setup; files = files; task = λ pid. idle }

-- Any number of steps.
pub data Reaches (n : ℕ) (s : System) : System → Type 0 where
  here : Reaches n s s
  further : {t u : System} → Reaches n s t → Step n t u → Reaches n s u

pub opened-IsSound :
    (n : ℕ) (files : ℕ → File) → ((f : ℕ) → (files f).locked ≡ false) → IsSound n (opened files)
unfolding opened
opened-IsSound n files h = record {
  exclusive = inl refl;
  order = omega arith;
  bounded = omega arith;
  reads = omega arith;
  held = λ q t x. absurd x;
  distinct = λ p q t x. absurd x;
  go = λ q g u x. absurd cc;
  writers = omega (arith, unlocked_count is_locked_writer n files (λ f. rw (h f) refl));
  readers = omega (arith, unlocked_count is_locked_reader n files (λ f. rw (h f) refl));
}

pub Reaches-IsSound : (n : ℕ) (s s' : System) → IsSound n s → Reaches n s s' → IsSound n s'
Reaches-IsSound n s s' w here = w
Reaches-IsSound n s s' w (further {t = t} r step) =
    Step-IsSound n t s' (Reaches-IsSound n s t w r) step
