-- ===== src/Shell/TimeTravel/Retire.antt =====
-- The half of execute_tcmd in Lab1/execute-command.c that takes a process that has ended out of the graph.
use cs111_ucla.Prelude.{
  arith, ◌≡◌, ◌≢◌, refl, sym, ◌∙◌, ◌<◌, ◌≤◌, ℕ, zero, suc, ◌+◌, ◌-◌, ◌==◌, ◌&&◌, if◌then◌else◌,
  Bool-cases, ◌⊎◌, inl, inr, ◌↔◌, update, update_self, update_ne,
}
use cs111_ucla.Shell.TimeTravel.{Jobs, retire_row, retire_rows}

pub lt_or_eq : (a b : ℕ) → a ≤ b → (a < b) ⊎ (a ≡ b)
lt_or_eq a b l = ground arith

-- The number of ones among the n elements from `col` on.
unfoldable pub ones : (ℕ → ℕ) → ℕ → ℕ → ℕ
ones g zero col = 0
ones g (suc n) col = (if g col == 1 then 1 else 0) + ones g n (suc col)

pub ones_same :
    (g h : ℕ → ℕ) (n col : ℕ) → ((c : ℕ) → col ≤ c → g c ≡ h c) → ones g n col ≡ ones h n col
unfolding ones
ones_same g h zero col e = refl
ones_same g h (suc n) col e =
    rw (e col (omega arith), ones_same g h n (suc col) (λ c l. e c (omega arith))) refl

-- A row without ones is one whose counter is zero.
pub ones_zero :
    (g : ℕ → ℕ) (n col : ℕ) → (ones g n col ≡ 0) ↔ ((c : ℕ) → col ≤ c → c < col + n → g c ≢ 1)
unfolding ones
ones_zero g zero col = (λ e c a b. absurd (omega arith), λ h. refl)
ones_zero g (suc n) col =
    let (there, back) = ones_zero g n (suc col) in
    (
      (λ e c a b.
          let e' : (if g col == 1 then 1 else 0) + ones g n (suc col) ≡ 0 = e in
          elim (lt_or_eq col c a) [
            | inl later ↦ there (ground arith) c (omega arith) (omega arith)
            | inr same ↦ rw (← same) (λ o. ground arith)
          ]),
      λ h.
          (let first = h col (omega arith) (omega arith) in
            let others = back (λ c a b. h c (omega arith) (omega arith)) in
            rw others (ground arith)),
    )

-- An element once the process p has ended.
abbrev pub retired : (ℕ → ℕ) → ℕ → (ℕ → ℕ) → ℕ → ℕ
retired pid p g col = if pid col == p && g col == 1 then 0 else g col

-- What retire_row does to the n elements from `col` on, and to the counter.
pub record Retired (pid : ℕ → ℕ) (p n col : ℕ) (g : ℕ → ℕ) (w : ℕ) (g' : ℕ → ℕ) (w' : ℕ)
    : Type 0 where
  pub inside : (c : ℕ) → col ≤ c → c < col + n → g' c ≡ retired pid p g c
  pub before : (c : ℕ) → c < col → g' c ≡ g c
  pub counted : w' + ones g n col ≡ w + ones g' n col

Retired-cons :
    (pid : ℕ → ℕ) (p n col : ℕ) (g g1 g' : ℕ → ℕ) (w w1 w' : ℕ)
    → ((c : ℕ) → c ≢ col → g1 c ≡ g c)
    → g1 col ≡ retired pid p g col
    → w1 + (if g col == 1 then 1 else 0) ≡ w + (if g1 col == 1 then 1 else 0)
    → Retired pid p n (suc col) g1 w1 g' w'
    → Retired pid p (suc n) col g w g' w'
unfolding ones
Retired-cons pid p n col g g1 g' w w1 w' same here step r = record {
  inside = λ c a b. elim (Bool-cases (c == col)) [
    | inl e ↦ let q : c ≡ col = ground arith in rw q (r.before col (omega arith) ∙ here)
    | inr e ↦
        let q : c ≢ col = ground arith in
        let k : g1 c ≡ g c = same c q in rw (← k) (r.inside c (omega (arith, q)) (omega arith))
  ];
  before = λ c a. r.before c (omega arith) ∙ same c (omega arith);
  counted =
      let rest : ones g1 n (suc col) ≡ ones g n (suc col) =
        ones_same g1 g n (suc col) (λ c l. same c (omega arith)) in
      let first : g' col ≡ g1 col = r.before col (omega arith) in
      let all = r.counted in rw first (omega arith);
}

retire_row-Retired :
    (pid : ℕ → ℕ) (p n col : ℕ) (g : ℕ → ℕ) (w : ℕ)
    → ones g n col ≤ w
    → (let e = retire_row pid p n col (g, w) in Retired pid p n col g w e.0 e.1)
unfolding retire_row ones
retire_row-Retired pid p zero col g w l = record {
  inside = λ c a b. absurd (omega arith);
  before = λ c a. refl;
  counted = refl;
}
retire_row-Retired pid p (suc n) col g w l = elim (Bool-cases (pid col == p && g col == 1)) [
  | inl gone ↦
      let l1 : (if g col == 1 then 1 else 0) + ones g n (suc col) ≤ w = l in
      let g1 = update g col 0 in
      let e = retire_row pid p n (suc col) (g1, w - 1) in
      let one : g col ≡ 1 = ground arith in
      let here : g1 col ≡ 0 = update_self g col 0 in
      let rest : ones g1 n (suc col) ≡ ones g n (suc col) =
        ones_same g1 g n (suc col) (λ c k. update_ne g col c 0 (omega arith)) in
      let r = retire_row-Retired pid p n (suc col) g1 (w - 1) (rw rest (ground arith)) in
      rw (retire_row, gone)
        (Retired-cons pid p n col g g1 e.0 w (w - 1) e.1
          (λ c k. update_ne g col c 0 (λ x. k (sym x))) (here ∙ sym (rw gone refl))
          (rw here (ground arith)) r)
  | inr stays ↦
      let l1 : (if g col == 1 then 1 else 0) + ones g n (suc col) ≤ w = l in
      let e = retire_row pid p n (suc col) (g, w) in
      let r = retire_row-Retired pid p n (suc col) g w (ground arith) in
      rw (retire_row, stays)
        (Retired-cons pid p n col g g e.0 w w e.1 (λ c k. refl) (rw stays refl) refl r)
]

-- The counter of each row is the number of its ones.
pub record IsCounted (size : ℕ) (t : Jobs) : Type 0 where
  pub row : (r : ℕ) → r < size → t.waits r ≡ ones (t.graph r) size 0

-- What retire_rows does to the n rows from `row` on.
pub record RowsRetired (p size n row : ℕ) (t t' : Jobs) : Type 0 where
  pub pids : t'.pid ≡ t.pid
  pub runs : t'.running ≡ t.running
  pub inside :
      (r c : ℕ) → row ≤ r → r < row + n → c < size → t'.graph r c ≡ retired t.pid p (t.graph r) c
  pub counted : (r : ℕ) → row ≤ r → r < row + n → t'.waits r ≡ ones (t'.graph r) size 0
  pub rows_before : (r : ℕ) → r < row → t'.graph r ≡ t.graph r
  pub waits_before : (r : ℕ) → r < row → t'.waits r ≡ t.waits r

pub retire_rows-RowsRetired :
    (p size n row : ℕ) (t : Jobs)
    → ((r : ℕ) → row ≤ r → r < row + n → t.waits r ≡ ones (t.graph r) size 0)
    → RowsRetired p size n row t (retire_rows p size n row t)
unfolding retire_rows
retire_rows-RowsRetired p size zero row t counted = record {
  pids = refl;
  runs = refl;
  inside = λ r c a b. absurd (omega arith);
  counted = λ r a b. absurd (omega arith);
  rows_before = λ r a. refl;
  waits_before = λ r a. refl;
}
retire_rows-RowsRetired p size (suc n) row t counted =
    let e = retire_row t.pid p size 0 (t.graph row, t.waits row) in
    let u = record t { graph = update t.graph row e.0; waits = update t.waits row e.1 } in
    let own = counted row (omega arith) (omega arith) in
    let done = retire_row-Retired t.pid p size 0 (t.graph row) (t.waits row) (omega (arith, own)) in
    let graph_ne : (r : ℕ) → row < r → u.graph r ≡ t.graph r =
      λ r a. update_ne t.graph row r e.0 (omega arith) in
    let waits_ne : (r : ℕ) → row < r → u.waits r ≡ t.waits r =
      λ r a. update_ne t.waits row r e.1 (omega arith) in
    let rest = retire_rows-RowsRetired p size n (suc row) u (λ r a b.
      rw (graph_ne r (omega arith), waits_ne r (omega arith))
        (counted r (omega arith) (omega arith))) in
    let graph_own : (retire_rows p size n (suc row) u).graph row ≡ e.0 =
      rest.rows_before row (omega arith) ∙ update_self t.graph row e.0 in
    let waits_own : (retire_rows p size n (suc row) u).waits row ≡ e.1 =
      rest.waits_before row (omega arith) ∙ update_self t.waits row e.1 in
    record {
      pids = rest.pids;
      runs = rest.runs;
      inside = λ r c a b l. elim (lt_or_eq row r a) [
        | inl later ↦ rw (← graph_ne r later) (rest.inside r c (omega arith) (omega arith) l)
        | inr same ↦ rw (← same, graph_own) (done.inside c (omega arith) (omega arith))
      ];
      counted = λ r a b. elim (lt_or_eq row r a) [
        | inl later ↦ rest.counted r (omega arith) (omega arith)
        | inr same ↦ rw (← same, graph_own, waits_own) (omega (arith, own, done.counted))
      ];
      rows_before =
          λ r a. rest.rows_before r (omega arith) ∙ update_ne t.graph row r e.0 (omega arith);
      waits_before =
          λ r a. rest.waits_before r (omega arith) ∙ update_ne t.waits row r e.1 (omega arith);
    }
