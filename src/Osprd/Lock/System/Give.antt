-- ===== src/Osprd/Lock/System/Give.antt =====
-- Steps of Lab2/osprd.c that give up the lock keep the invariant.
use mathlib.Core.Bool.{false≢true}
use cs111_ucla.Prelude.{
  ℕ, ◌^◌, ◌≤◌, ◌<◌, ◌≡◌, refl, sym, ◌∙◌, ◌⊎◌, inl, inr, true, false, ◌&&◌, ltb, Bool-cases, update,
  arith,
}
use cs111_ucla.Osprd.Lock.{File, Osprd, uncount_lock, mark, osprd_close_last}
use cs111_ucla.Osprd.Lock.Laws.{uncount_lock-IsExclusive}
use cs111_ucla.Osprd.Lock.System.{System, set_device, set_locked}
use cs111_ucla.Osprd.Lock.System.Count.{
  is_locked_writer, is_locked_reader, count, count-update, count-positive,
}
use cs111_ucla.Osprd.Lock.System.Sound.{IsSound}
use cs111_ucla.Osprd.Lock.System.Take.{writable_kept}

-- The lock that a file holds is counted, in the one way or in the other.
held_lock :
    (n : ℕ) (s : System) (f : ℕ)
    → IsSound n s
    → f < n
    → (s.files f).locked ≡ true
    → (((s.files f).writable ≡ true) × (s.device.write_locks ≡ 1))
      ⊎ (((s.files f).writable ≡ false) × (0 < s.device.read_locks) × (s.device.write_locks ≡ 0))
held_lock n s f w f_in held = elim (Bool-cases (s.files f).writable) [
  | inl writing ↦
      let some_writer : 0 < count is_locked_writer n s.files =
        count-positive is_locked_writer n f s.files f_in (rw (held, writing) refl) in
      inl (
        writing,
        elim w.exclusive [
          | inl none_writing ↦ absurd (omega (arith, w.writers))
          | inr (one, _) ↦ one
        ],
      )
  | inr reading ↦
      let some_reader : 0 < count is_locked_reader n s.files =
        count-positive is_locked_reader n f s.files f_in (rw (held, reading) refl) in
      inr (
        reading,
        omega (arith, w.readers),
        elim w.exclusive [
          | inl none_writing ↦ none_writing
          | inr (_, no_reader) ↦ absurd (omega (arith, w.readers))
        ],
      )
]

unlocking_counts :
    (n f : ℕ) (files : ℕ → File) (d : Osprd)
    → f < n
    → (files f).locked ≡ true
    → (((files f).writable ≡ true) × (d.write_locks ≡ 1))
      ⊎ (((files f).writable ≡ false) × (0 < d.read_locks) × (d.write_locks ≡ 0))
    → d.read_locks < 2 ^ 32
    → count is_locked_writer n files ≤ d.write_locks
    → count is_locked_reader n files ≤ d.read_locks
    → (count is_locked_writer n (update files f (mark false (files f)))
        ≤ (uncount_lock (files f).writable d).write_locks)
      × (count is_locked_reader n (update files f (mark false (files f)))
          ≤ (uncount_lock (files f).writable d).read_locks)
unlocking_counts n f files d f_in held c small writers readers =
    let w = count-update is_locked_writer n f files (mark false (files f)) f_in in
    let r = count-update is_locked_reader n f files (mark false (files f)) f_in in
    elim c [
      | inl (writing, one) ↦ (ground arith, ground arith)
      | inr (reading, some_reader, none_writing) ↦ (ground arith, ground arith)
    ]

pub unlocking :
    (n : ℕ) (s : System) (f : ℕ)
    → IsSound n s
    → f < n
    → (s.files f).locked ≡ true
    → IsSound n (set_locked f false (set_device (uncount_lock (s.files f).writable s.device) s))
unlocking n s f w f_in held =
    let c = held_lock n s f w f_in held in
    let (writers, readers) =
      unlocking_counts n f s.files s.device f_in held c w.reads w.writers w.readers in
    record {
      exclusive = uncount_lock-IsExclusive (s.files f) s.device held (λ _. c);
      order = w.order;
      bounded = w.bounded;
      reads = ground (arith, w.reads);
      held = w.held;
      distinct = w.distinct;
      go = λ q g u x.
          let (turn, no_writer, no_reader) = w.go q g u x in
          elim c [
            | inl (writing, one) ↦ absurd (omega arith)
            | inr (reading, some_reader, none_writing) ↦ (
              turn,
              rw reading none_writing,
              λ writing.
                  absurd
                    (omega (arith, no_reader (sym (writable_kept s.files f g false) ∙ writing))),
            )
          ];
      writers = writers;
      readers = readers;
    }

-- Closing a file that holds a lock releases it; closing another file changes nothing.
closing-held :
    (f : File) (d : Osprd)
    → f.locked ≡ true
    → ((f.writable ≡ true) × (d.write_locks ≡ 1))
      ⊎ ((f.writable ≡ false) × (0 < d.read_locks) × (d.write_locks ≡ 0))
    → (osprd_close_last f d).1 ≡ uncount_lock f.writable d
unfolding osprd_close_last
closing-held f d held (inl (writing, one)) = rw (osprd_close_last, writing, one) refl
closing-held f d held (inr (reading, some_reader, none_writing)) =
    let more : ltb 0 d.read_locks ≡ true = ground arith in
    rw (osprd_close_last, reading, more, held) refl

closing-other :
    (f : File) (d : Osprd) → f.locked ≡ false → f.writable ≡ false → (osprd_close_last f d).1 ≡ d
unfolding osprd_close_last
closing-other f d free reading =
    let no_lock : (ltb 0 d.read_locks && f.locked) ≡ false = ground arith in
    rw (osprd_close_last, reading, no_lock) refl

closing_free :
    (n : ℕ) (s : System) (f : ℕ)
    → IsSound n s
    → f < n
    → (s.files f).locked ≡ false
    → IsSound n (set_locked f false s)
closing_free n s f w f_in free =
    let wc = count-update is_locked_writer n f s.files (mark false (s.files f)) f_in in
    let rc = count-update is_locked_reader n f s.files (mark false (s.files f)) f_in in
    record {
      exclusive = w.exclusive;
      order = w.order;
      bounded = w.bounded;
      reads = w.reads;
      held = w.held;
      distinct = w.distinct;
      go = λ q g u x.
          let (turn, no_writer, no_reader) = w.go q g u x in
          (turn, no_writer, λ writing. no_reader (sym (writable_kept s.files f g false) ∙ writing));
      writers = ground (arith, w.writers);
      readers = ground (arith, w.readers);
    }

pub closing :
    (n : ℕ) (s : System) (f : ℕ)
    → IsSound n s
    → f < n
    → ((s.files f).locked ≡ true) ⊎ ((s.files f).writable ≡ false)
    → IsSound n (set_locked f false (set_device (osprd_close_last (s.files f) s.device).1 s))
closing n s f w f_in own = elim (Bool-cases (s.files f).locked) [
  | inl held ↦
      rw (closing-held (s.files f) s.device held (held_lock n s f w f_in held))
        (unlocking n s f w f_in held)
  | inr free ↦
      let reading : (s.files f).writable ≡ false = elim own [
        | inl held ↦ absurd (false≢true (sym free ∙ held))
        | inr r ↦ r
      ] in
      rw (closing-other (s.files f) s.device free reading) (closing_free n s f w f_in free)
]
