-- ===== src/Shell/TimeTravel/Graph.antt =====
-- The graph that execute_timetravel_cmd of Lab1/execute-command.c makes, and check_constrain.
use mathlib.Core.List.{Memᴰ}
use mathlib.Core.List.Memᴰ.{head, tail, cases_cons}
use cs111_ucla.Prelude.{
  arith, ◌≡◌, ◌≢◌, refl, sym, ap, ◌∙◌, ◌<◌, ◌≤◌, ℕ, zero, suc, ◌+◌, Bool, true, false, ◌==◌, ◌||◌,
  if◌then◌else◌, Bool-cases, inl, inr, ◌↔◌, update, update_self, update_ne, List, [], ◌∷◌,
}
use cs111_ucla.Shell.{Name}
use cs111_ucla.Shell.TimeTravel.{
  Constrains, Jobs, strcmp_is, check_inputs, check_constrain, fill_one, fill_row, fill_rows,
}
use cs111_ucla.Shell.TimeTravel.Retire.{ones, IsCounted, lt_or_eq}

abbrev bit : Bool → ℕ
bit true = 1
bit false = 0

-- Whether the command at `row` waits for the one at `col`.
abbrev pub waits_for : (ℕ → Constrains) → ℕ → ℕ → Bool
waits_for cs row col =
    if col == row
    then false
    else check_constrain (cs col).outputs (cs row).inputs
      || check_constrain (cs col).outputs (cs row).outputs

-- What fill_row does to the n elements from `col` on, and to the counter.
record Filled (cs : ℕ → Constrains) (row n col : ℕ) (g : ℕ → ℕ) (w : ℕ) (e : (ℕ → ℕ) × ℕ)
    : Type 0 where
  pub inside : (c : ℕ) → col ≤ c → c < col + n → (e.0 c ≡ 1) ↔ (waits_for cs row c ≡ true)
  pub before : (c : ℕ) → c < col → e.0 c ≡ g c
  pub counted : e.1 ≡ w + ones e.0 n col

fill_one-at :
    (cs : ℕ → Constrains) (row col : ℕ) (g : ℕ → ℕ) (w : ℕ)
    → (let v = bit (waits_for cs row col) in fill_one cs row col (g, w) ≡ (update g col v, w + v))
unfolding fill_one
fill_one-at cs row col g w = elim (Bool-cases (col == row)) [
  | inl own ↦ rw own (ap (λ v. (update g col 0, v)) (omega arith))
  | inr other ↦
      let b =
        check_constrain (cs col).outputs (cs row).inputs
        || check_constrain (cs col).outputs (cs row).outputs in
      elim (Bool-cases b) [
        | inl wait ↦ rw (other, wait) refl
        | inr free ↦ rw (other, free) (ap (λ v. (update g col 0, v)) (omega arith))
      ]
]

bit_iff : (b : Bool) → (bit b ≡ 1) ↔ (b ≡ true)
bit_iff true = (λ e. refl, λ e. refl)
bit_iff false = (λ e. absurd (omega arith), λ e. absurd cc)

bit_sum : (b : Bool) (w k : ℕ) → w + bit b + k ≡ w + ((if bit b == 1 then 1 else 0) + k)
bit_sum true w k = omega arith
bit_sum false w k = omega arith

fill_row-Filled :
    (cs : ℕ → Constrains) (row n col : ℕ) (g : ℕ → ℕ) (w : ℕ)
    → Filled cs row n col g w (fill_row cs row n col (g, w))
unfolding fill_row ones
fill_row-Filled cs row zero col g w = record {
  inside = λ c a b. absurd (omega arith);
  before = λ c a. refl;
  counted = omega arith;
}
fill_row-Filled cs row (suc n) col g w =
    let v = bit (waits_for cs row col) in
    let g1 = update g col v in
    let r = fill_row-Filled cs row n (suc col) g1 (w + v) in
    let own : (fill_row cs row n (suc col) (g1, w + v)).0 col ≡ v =
      r.before col (omega arith) ∙ update_self g col v in
    rw (fill_one-at cs row col g w) (record {
      inside = λ c a b. elim (lt_or_eq col c a) [
        | inl later ↦ r.inside c (omega arith) (omega arith)
        | inr same ↦ rw (← same, own) (bit_iff (waits_for cs row col))
      ];
      before = λ c a. r.before c (omega arith) ∙ update_ne g col c v (omega arith);
      counted = rw own (r.counted ∙ bit_sum (waits_for cs row col) w _);
    })

-- What fill_rows does to the n rows from `row` on.
pub record RowsFilled (cs : ℕ → Constrains) (size n row : ℕ) (t t' : Jobs) : Type 0 where
  pub runs : t'.running ≡ t.running
  pub pids : t'.pid ≡ t.pid
  pub inside :
      (r c : ℕ) → row ≤ r → r < row + n → c < size → (t'.graph r c ≡ 1) ↔ (waits_for cs r c ≡ true)
  pub counted : (r : ℕ) → row ≤ r → r < row + n → t'.waits r ≡ ones (t'.graph r) size 0
  pub rows_before : (r : ℕ) → r < row → t'.graph r ≡ t.graph r
  pub waits_before : (r : ℕ) → r < row → t'.waits r ≡ t.waits r

pub fill_rows-RowsFilled :
    (cs : ℕ → Constrains) (size n row : ℕ) (t : Jobs)
    → RowsFilled cs size n row t (fill_rows cs size n row t)
unfolding fill_rows
fill_rows-RowsFilled cs size zero row t = record {
  runs = refl;
  pids = refl;
  inside = λ r c a b. absurd (omega arith);
  counted = λ r a b. absurd (omega arith);
  rows_before = λ r a. refl;
  waits_before = λ r a. refl;
}
fill_rows-RowsFilled cs size (suc n) row t =
    let e = fill_row cs row size 0 (t.graph row, 0) in
    let u = record t { graph = update t.graph row e.0; waits = update t.waits row e.1 } in
    let filled = fill_row-Filled cs row size 0 (t.graph row) 0 in
    let rest = fill_rows-RowsFilled cs size n (suc row) u in
    let t' = fill_rows cs size n (suc row) u in
    let graph_own : t'.graph row ≡ e.0 =
      rest.rows_before row (omega arith) ∙ update_self t.graph row e.0 in
    let waits_own : t'.waits row ≡ e.1 =
      rest.waits_before row (omega arith) ∙ update_self t.waits row e.1 in
    record {
      runs = rest.runs;
      pids = rest.pids;
      inside = λ r c a b l. elim (lt_or_eq row r a) [
        | inl later ↦ rest.inside r c (omega arith) (omega arith) l
        | inr same ↦ rw (← same, graph_own) (filled.inside c (omega arith) (omega arith))
      ];
      counted = λ r a b. elim (lt_or_eq row r a) [
        | inl later ↦ rest.counted r (omega arith) (omega arith)
        | inr same ↦ rw (← same, graph_own, waits_own) (filled.counted ∙ omega arith)
      ];
      rows_before =
          λ r a. rest.rows_before r (omega arith) ∙ update_ne t.graph row r e.0 (omega arith);
      waits_before =
          λ r a. rest.waits_before r (omega arith) ∙ update_ne t.waits row r e.1 (omega arith);
    }

strcmp_iff : (a b : Name) → (strcmp_is a b ≡ true) ↔ (a ≡ b)
unfolding strcmp_is
strcmp_iff [] [] = (λ e. refl, λ e. refl)
strcmp_iff [] (y ∷ ys) = (λ e. absurd cc, λ e. absurd cc)
strcmp_iff (x ∷ xs) [] = (λ e. absurd cc, λ e. absurd cc)
strcmp_iff (x ∷ xs) (y ∷ ys) =
    let (there, back) = strcmp_iff xs ys in
    elim (Bool-cases (x == y)) [
      | inl same ↦
          let e : x ≡ y = ground arith in rw same ((λ h. (let t = there h in cc)), (λ h. back cc))
      | inr other ↦
          let n : x ≢ y = ground arith in rw other ((λ h. absurd cc), (λ h. absurd (n cc)))
    ]

false-true : false ≢ true
false-true e = cc

check_inputs_iff : (o : Name) (is : List Name) → (check_inputs o is ≡ true) ↔ Memᴰ o is
unfolding check_inputs
check_inputs_iff o [] = (λ e. absurd cc, λ m. elim m [ ])
check_inputs_iff o (i ∷ is) =
    let (there, back) = check_inputs_iff o is in
    let (equal, same) = strcmp_iff o i in
    elim (Bool-cases (strcmp_is o i)) [
      | inl e ↦ rw e (λ h. head (equal e), λ m. refl)
      | inr e ↦ rw e (
        λ h. tail (there h),
        λ m. elim (cases_cons m) [ inl q ↦ absurd (false-true (sym e ∙ same q)) | inr k ↦ back k ],
      )
    ]

no_inputs : (os : List Name) → check_constrain os [] ≡ false
unfolding check_constrain check_inputs
no_inputs [] = refl
no_inputs (o ∷ os) = no_inputs os

-- check_constrain answers that two lists of names have one in common if and only if the first of the outputs
-- is one of the inputs, whatever the outputs after it are.
pub check_constrain_first :
    (o : Name) (os is : List Name) → (check_constrain (o ∷ os) is ≡ true) ↔ Memᴰ o is
unfolding check_constrain
check_constrain_first o os is =
    let (there, back) = check_inputs_iff o is in
    elim (Bool-cases (check_inputs o is)) [
      | inl e ↦ rw e (λ h. there e, λ m. refl)
      | inr e ↦ rw (e, no_inputs os) (λ h. absurd cc, λ m. sym e ∙ back m)
    ]

-- The graph that execute_timetravel_cmd makes has an edge from each command to those that it waits for, and the
-- counter of each command is the number of these.
pub fill_rows-IsCounted :
    (cs : ℕ → Constrains) (size : ℕ) (t : Jobs)
    → IsCounted size (fill_rows cs size size 0 t)
      × ((r c : ℕ)
          → r < size
          → c < size
          → ((fill_rows cs size size 0 t).graph r c ≡ 1) ↔ (waits_for cs r c ≡ true))
fill_rows-IsCounted cs size t =
    let filled = fill_rows-RowsFilled cs size size 0 t in
    (
      record { row = λ r l. filled.counted r (omega arith) (omega arith) },
      λ r c a b. filled.inside r c (omega arith) (omega arith) b,
    )
