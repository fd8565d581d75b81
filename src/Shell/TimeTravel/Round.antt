-- ===== src/Shell/TimeTravel/Round.antt =====
-- The rounds of execute_tcmd in Lab1/execute-command.c.
use cs111_ucla.Prelude.{
  arith, ◌≡◌, ◌≢◌, refl, sym, ap, ◌∙◌, ◌<◌, ◌≤◌, ℕ, zero, suc, ◌+◌, true, false, ◌==◌, ◌&&◌,
  if◌then◌else◌, Bool-cases, inl, inr, ◌↔◌, update_self, update_ne,
}
use cs111_ucla.Shell.TimeTravel.{Jobs, can_start, start_one, start_from, retire_rows, round}
use cs111_ucla.Shell.TimeTravel.Retire.{
  ones, IsCounted, lt_or_eq, ones_zero, retire_rows-RowsRetired,
}

-- What start_from does to the n commands from `ind` on.
record Started (fork : ℕ → ℕ) (n ind : ℕ) (t t' : Jobs) : Type 0 where
  pub graph : t'.graph ≡ t.graph
  pub waits : t'.waits ≡ t.waits
  pub inside :
      (i : ℕ) → ind ≤ i → i < ind + n → t'.running i ≡ (if can_start t i then 1 else t.running i)
  pub before : (i : ℕ) → i < ind → t'.running i ≡ t.running i
  pub after : (i : ℕ) → ind + n ≤ i → t'.running i ≡ t.running i
  pub pid_inside :
      (i : ℕ) → ind ≤ i → i < ind + n → t'.pid i ≡ (if can_start t i then fork i else t.pid i)
  pub pid_before : (i : ℕ) → i < ind → t'.pid i ≡ t.pid i
  pub pid_after : (i : ℕ) → ind + n ≤ i → t'.pid i ≡ t.pid i
  pub kept : (i : ℕ) → t.waits i ≢ 0 → (t'.running i ≡ t.running i) × (t'.pid i ≡ t.pid i)

start_apart :
    (waits : ℕ → ℕ) (now ind i : ℕ) → (waits ind == 0 && now == 0) ≡ true → waits i ≢ 0 → ind ≢ i
start_apart waits now ind i e n q = let zeroed : waits ind ≡ 0 = ground arith in n (rw (← q) zeroed)

start_one-Started :
    (fork : ℕ → ℕ) (ind : ℕ) (t : Jobs) → Started fork 1 ind t (start_one fork ind t)
unfolding start_one
start_one-Started fork ind t = elim (Bool-cases (can_start t ind)) [
  | inl now ↦ rw now (record {
    graph = refl;
    waits = refl;
    inside =
        λ i a b. (let e : ind ≡ i = omega arith in rw (← e, now) (update_self t.running ind 1));
    before = λ i a. update_ne t.running ind i 1 (omega arith);
    after = λ i a. update_ne t.running ind i 1 (omega arith);
    pid_inside = λ i a b.
        (let e : ind ≡ i = omega arith in rw (← e, now) (update_self t.pid ind (fork ind)));
    pid_before = λ i a. update_ne t.pid ind i (fork ind) (omega arith);
    pid_after = λ i a. update_ne t.pid ind i (fork ind) (omega arith);
    kept = λ i n.
        (let apart = start_apart (t.waits) (t.running ind) ind i now n in
          (update_ne t.running ind i 1 apart, update_ne t.pid ind i (fork ind) apart));
  })
  | inr later ↦ rw later (record {
    graph = refl;
    waits = refl;
    inside = λ i a b. (let e : ind ≡ i = omega arith in rw (← e, later) refl);
    before = λ i a. refl;
    after = λ i a. refl;
    pid_inside = λ i a b. (let e : ind ≡ i = omega arith in rw (← e, later) refl);
    pid_before = λ i a. refl;
    pid_after = λ i a. refl;
    kept = λ i n. (refl, refl);
  })
]

start_from-Started :
    (fork : ℕ → ℕ) (n ind : ℕ) (t : Jobs) → Started fork n ind t (start_from fork n ind t)
unfolding start_from
start_from-Started fork zero ind t = record {
  graph = refl;
  waits = refl;
  inside = λ i a b. absurd (omega arith);
  before = λ i a. refl;
  after = λ i a. refl;
  pid_inside = λ i a b. absurd (omega arith);
  pid_before = λ i a. refl;
  pid_after = λ i a. refl;
  kept = λ i n. (refl, refl);
}
start_from-Started fork (suc n) ind t =
    let u = start_one fork ind t in
    let one = start_one-Started fork ind t in
    let rest = start_from-Started fork n (suc ind) u in
    record {
      graph = rest.graph ∙ one.graph;
      waits = rest.waits ∙ one.waits;
      inside = λ i a b. elim (lt_or_eq ind i a) [
        | inl later ↦
            let r = rest.inside i (omega arith) (omega arith) in
            let before = one.after i (omega arith) in
            let w = ap (λ f. f i) one.waits in r ∙ rw (before, w) refl
        | inr same ↦
            rw (← same) (rest.before ind (omega arith) ∙ one.inside ind (omega arith) (omega arith))
      ];
      before = λ i a. rest.before i (omega arith) ∙ one.before i a;
      kept = λ i n.
          (let (run, pid) = one.kept i n in
            let same = ap (λ f. f i) one.waits in
            let (run', pid') = rest.kept i (λ z. n (sym same ∙ z)) in (run' ∙ run, pid' ∙ pid));
      after = λ i a. rest.after i (omega arith) ∙ one.after i (omega arith);
      pid_inside = λ i a b. elim (lt_or_eq ind i a) [
        | inl later ↦
            let r = rest.pid_inside i (omega arith) (omega arith) in
            let before = one.after i (omega arith) in
            let pid = one.pid_after i (omega arith) in
            let w = ap (λ f. f i) one.waits in r ∙ rw (before, w, pid) refl
        | inr same ↦
            rw (← same)
              (rest.pid_before ind (omega arith) ∙ one.pid_inside ind (omega arith) (omega arith))
      ];
      pid_before = λ i a. rest.pid_before i (omega arith) ∙ one.pid_before i a;
      pid_after = λ i a. rest.pid_after i (omega arith) ∙ one.pid_after i (omega arith);
    }

-- What a round does in which wait reports that p has ended.
pub record Rounded (fork : ℕ → ℕ) (size p : ℕ) (t t' : Jobs) : Type 0 where
  pub counted : IsCounted size t'
  pub starts :
      (i : ℕ)
      → i < size
      → t.running i ≡ 0
      → (t'.running i ≡ 1) ↔ ((c : ℕ) → c < size → t.graph i c ≢ 1)
  pub forks :
      (i : ℕ)
      → i < size
      → t.running i ≡ 0
      → ((c : ℕ) → c < size → t.graph i c ≢ 1)
      → t'.pid i ≡ fork i
  pub runs :
      (i : ℕ) → i < size → t.running i ≢ 0 → (t'.running i ≡ t.running i) × (t'.pid i ≡ t.pid i)
  pub kept :
      (r c : ℕ)
      → r < size
      → c < size
      → t.graph r c ≡ 1
      → (t'.running r ≡ t.running r) × (t'.pid r ≡ t.pid r)
  pub edges :
      (r c : ℕ) → r < size → c < size → (t'.graph r c ≡ 1) ↔ ((t.graph r c ≡ 1) × (t'.pid c ≢ p))

start_iff :
    (waits now after : ℕ)
    → now ≡ 0
    → after ≡ (if waits == 0 && now == 0 then 1 else now)
    → (after ≡ 1) ↔ (waits ≡ 0)
start_iff waits now after z e = (λ h. ground arith, λ h. ground arith)

starts_now : (waits now : ℕ) → waits ≡ 0 → now ≡ 0 → (waits == 0 && now == 0) ≡ true
starts_now waits now w z = ground arith

starts_not : (waits now : ℕ) → now ≢ 0 → (waits == 0 && now == 0) ≡ false
starts_not waits now n = ground arith

edge_iff : (pid p g : ℕ) → ((if pid == p && g == 1 then 0 else g) ≡ 1) ↔ ((g ≡ 1) × (pid ≢ p))
edge_iff pid p g =
    (λ h. (ground arith, λ e. ground arith), λ h. (let (one, other) = h in ground arith))

-- If the counters are those of the graph, a round of execute_tcmd starts a command that is not running
-- if and only if there is none left that it waits for, and then its process is the one that fork gives; it
-- leaves `running` and the process of every other command as they were; and it takes from the graph
-- the edges to the process that has ended, and no others. The counters are again those of the graph.
pub round-Rounded :
    (fork : ℕ → ℕ) (size p reported : ℕ) (t : Jobs)
    → IsCounted size t
    → Rounded fork size p t (round fork size p reported t)
unfolding round
round-Rounded fork size p reported t k =
    let s = start_from fork size 0 t in
    let u = record s { status = if t.status == 0 then reported else t.status } in
    let started = start_from-Started fork size 0 t in
    let counted : (r : ℕ) → 0 ≤ r → r < 0 + size → u.waits r ≡ ones (u.graph r) size 0 =
      λ r a b. rw (started.waits, started.graph) (k.row r (omega arith)) in
    let done = retire_rows-RowsRetired p size size 0 u counted in
    let t' = retire_rows p size size 0 u in
    let running : (i : ℕ) → i < size → t'.running i ≡ (if can_start t i then 1 else t.running i) =
      λ i l. ap (λ f. f i) done.runs ∙ started.inside i (omega arith) (omega arith) in
    let pids : (i : ℕ) → i < size → t'.pid i ≡ (if can_start t i then fork i else t.pid i) =
      λ i l. ap (λ f. f i) done.pids ∙ started.pid_inside i (omega arith) (omega arith) in
    record {
      counted = record { row = λ r l. done.counted r (omega arith) (omega arith) };
      starts = λ i l z.
          (let own = k.row i l in
            let (there, back) = ones_zero (t.graph i) size 0 in
            let (zeroed, begins) =
              start_iff (t.waits i) (t.running i) (t'.running i) z (running i l) in
            (
              (λ e c l'. there (sym own ∙ zeroed e) c (omega arith) (omega arith)),
              λ h. begins (own ∙ back (λ c a b. h c (omega arith))),
            ));
      forks = λ i l z h.
          (let own = k.row i l in
            let idle = own ∙ (ones_zero (t.graph i) size 0).1 (λ c a b. h c (omega arith)) in
            let now : can_start t i ≡ true = starts_now (t.waits i) (t.running i) idle z in
            pids i l ∙ rw now refl);
      runs = λ i l n.
          (let later : can_start t i ≡ false = starts_not (t.waits i) (t.running i) n in
            (running i l ∙ rw later refl, pids i l ∙ rw later refl));
      kept = λ r c a b e.
          (let (there, back) = ones_zero (t.graph r) size 0 in
            let (run, pid) =
              started.kept r (λ z. there (sym (k.row r a) ∙ z) c (omega arith) (omega arith) e) in
            (ap (λ f. f r) done.runs ∙ run, ap (λ f. f r) done.pids ∙ pid));
      edges = λ r c a b.
          (let gone = done.inside r c (omega arith) (omega arith) b in
            let same : u.graph r c ≡ t.graph r c = ap (λ f. f r c) started.graph in
            let pids : t'.pid c ≡ u.pid c = ap (λ f. f c) done.pids in
            rw (pids, gone, same) (edge_iff (u.pid c) p (t.graph r c)));
    }
