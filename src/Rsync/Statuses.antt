-- ===== src/Rsync/Statuses.antt =====
-- What `Status` of internal/rsync/manager.go says of a job, whatever calls, ticks, lines of output and
-- ends of runs come in whatever order.
use mathlib.Core.Option.{some-injective}
use kilasos.Common.{
  ℕ, ◌+◌, ◌-◌, ◌≤◌, ◌<◌, ◌≡◌, ◌≢◌, refl, sym, ap, ◌∙◌, subst, String, Bool, true, false, not,
  Option, none, some, List, [], ◌∷◌, ◌++◌, Dict, lookup, insert, lookup-insert_self,
  lookup-insert_ne, All, All-insert, All-lookup, All-imp, length, find, length-drop, ltb, ◌==◌,
  ==_iff, nat_eq, bytes_eq, Bool-cases, Option-cases, option_case, inl, inr, on_option, arith,
}
use kilasos.Auth.Crypto.{Bytes}
use kilasos.Rsync.{
  Job, JobStatus, Cell, Manager, RsyncError, Env, manager_of, job_not_found, new_cell, begin_run,
  with_line, last_500, ended, read_line, end_run, begin_all, tick, add, delete, set_enabled,
  run_now, status_of,
}

pub data Step : Manager → Manager → Type 0 where
  adding : (e : Env) (j : Job) (m : Manager) → Step m (add e j m).0
  deleting : (e : Env) (id : Bytes) (m : Manager) → Step m (delete e id m).0
  enabling :
      (e : Env) (id : Bytes) (enabled : Bool) (m : Manager) → Step m (set_enabled e id enabled m).0
  ticking : (now : ℕ) (m : Manager) → Step m (tick now m)
  starting : (now : ℕ) (id : Bytes) (m : Manager) → Step m (run_now now id m).0
  printing :
      (at : ℕ) (line : Bytes) (j : Job) (c : Cell) (m : Manager)
      → lookup at m.cells ≡ some c
      → c.worker ≡ some j
      → Step m (read_line at line c m)
  ending :
      (e : Env) (at : ℕ) (err : Option String) (j : Job) (c : Cell) (m : Manager)
      → lookup at m.cells ≡ some c
      → c.worker ≡ some j
      → Step m (end_run e at err j c m)

pub data Reach (start : Manager) : Manager → Type 0 where
  at_start : Reach start start
  then_step : {m m' : Manager} → Reach start m → Step m m' → Reach start m'

abbrev pub is_worked_on : Cell → Bool
is_worked_on c = on_option c.worker false (λ j. true)

-- The status says that it runs while a goroutine works on it, and that it is done from then on; it
-- has 500 lines at most.
pub record IsHonest (c : Cell) : Type 0 where
  pub runs : c.status.running ≡ is_worked_on c
  pub finished : c.status.is_done ≡ not (is_worked_on c)
  pub few_lines : length c.status.lines ≤ 500

-- A status that is found under an ID is one of that job.
pub record PointsTo (cells : Dict ℕ Cell) (id : Bytes) (at : ℕ) : Type 0 where
  pub cell : Cell
  pub found : lookup at cells ≡ some cell
  pub of_job : cell.status.job_id ≡ id

pub record IsSound (m : Manager) : Type 0 where
  pub honest : All (λ (x : ℕ × Cell). IsHonest x.1) m.cells
  pub used : All (λ (x : ℕ × Cell). x.0 < m.next_cell) m.cells
  pub pointers : All (λ (x : Bytes × ℕ). PointsTo m.cells x.0 x.1) m.statuses

abbrev SameCells : Manager → Manager → Type 0
SameCells m m' = (m'.cells ≡ m.cells) × (m'.statuses ≡ m.statuses) × (m'.next_cell ≡ m.next_cell)

IsSound-same : (m m' : Manager) → SameCells m m' → IsSound m → IsSound m'
IsSound-same m m' same h = record {
  honest = rw same.0 h.honest;
  used = rw (same.0, same.2) h.used;
  pointers = rw (same.0, same.1) h.pointers;
}

add-same : (e : Env) (j : Job) (m : Manager) → SameCells m (add e j m).0
unfolding add
add-same e j m = ground arith

delete-same : (e : Env) (id : Bytes) (m : Manager) → SameCells m (delete e id m).0
unfolding delete
delete-same e id m = ground arith

set_enabled-same :
    (e : Env) (id : Bytes) (enabled : Bool) (m : Manager)
    → SameCells m (set_enabled e id enabled m).0
unfolding set_enabled
set_enabled-same e id enabled m = ground arith

-- A write to a cell that keeps the job of its status keeps what points to it.
PointsTo-insert :
    (cells : Dict ℕ Cell) (at : ℕ) (new : Cell) (id : Bytes) (p : ℕ)
    → (p ≡ at → new.status.job_id ≡ id)
    → PointsTo cells id p
    → PointsTo (insert at new cells) id p
PointsTo-insert cells at new id p same h = elim (Bool-cases (at == p)) [
  | inl e ↦
      let e' = (==_iff at p).0 e in
      record {
        cell = new;
        found =
            subst (λ q. lookup q (insert at new cells) ≡ some new) e'
              (lookup-insert_self at new cells);
        of_job = same (sym e');
      }
  | inr e ↦ record {
    cell = h.cell;
    found = lookup-insert_ne at p new cells (ground (arith, ==_iff at p)) ∙ h.found;
    of_job = h.of_job;
  }
]

unused :
    (m : Manager) → IsSound m → (p : ℕ) (c : Cell) → lookup p m.cells ≡ some c → p ≢ m.next_cell
unused m h p c found same =
    let below = All-lookup (λ (x : ℕ × Cell). x.0 < m.next_cell) p c m.cells found h.used in
    omega arith

same_cell :
    (m : Manager) (p at : ℕ) (old c : Cell)
    → p ≡ at
    → lookup at m.cells ≡ some old
    → lookup p m.cells ≡ some c
    → old ≡ c
same_cell m p at old c e found found' =
    some-injective old c (sym found ∙ ap (λ q. lookup q m.cells) (sym e) ∙ found')

end_run-cells :
    (e : Env) (at : ℕ) (err : Option String) (j : Job) (c : Cell) (m : Manager)
    → ((end_run e at err j c m).cells ≡ insert at (ended err c) m.cells)
      × ((end_run e at err j c m).statuses ≡ m.statuses)
      × ((end_run e at err j c m).next_cell ≡ m.next_cell)
unfolding end_run
end_run-cells e at err j c m = ground arith

pub begin_run-IsSound : (now : ℕ) (j : Job) (m : Manager) → IsSound m → IsSound (begin_run now j m)
unfolding begin_run
begin_run-IsSound now j m h = record {
  honest =
      All-insert (λ (x : ℕ × Cell). IsHonest x.1) m.next_cell (new_cell now j) m.cells
        (record { runs = refl; finished = refl; few_lines = omega arith }) h.honest;
  used =
      All-insert (λ (x : ℕ × Cell). x.0 < m.next_cell + 1) m.next_cell (new_cell now j) m.cells
        (omega arith)
        (All-imp (λ (x : ℕ × Cell). x.0 < m.next_cell) (λ (x : ℕ × Cell). x.0 < m.next_cell + 1)
          m.cells (λ x lt. omega (arith, lt)) h.used);
  pointers =
      All-insert (λ (x : Bytes × ℕ). PointsTo (insert m.next_cell (new_cell now j) m.cells) x.0 x.1)
        j.id m.next_cell m.statuses
        (record {
          cell = new_cell now j;
          found = lookup-insert_self m.next_cell (new_cell now j) m.cells;
          of_job = refl;
        })
        (All-imp (λ (x : Bytes × ℕ). PointsTo m.cells x.0 x.1) _ m.statuses
          (λ x p.
            PointsTo-insert m.cells m.next_cell (new_cell now j) x.0 x.1
              (λ same. absurd (unused m h x.1 p.cell p.found same)) p)
          h.pointers);
}

begin_all-IsSound :
    (now : ℕ) (jobs : List Job) (m : Manager) → IsSound m → IsSound (begin_all now jobs m)
unfolding begin_all
begin_all-IsSound now [] m h = h
begin_all-IsSound now (j ∷ jobs) m h =
    begin_all-IsSound now jobs (begin_run now j m) (begin_run-IsSound now j m h)

run_now-IsSound : (now : ℕ) (id : Bytes) (m : Manager) → IsSound m → IsSound (run_now now id m).0
unfolding run_now
run_now-IsSound now id m h =
    option_case (λ (a : Manager × Option RsyncError). IsSound a.0) (find (λ j. j.id == id) m.jobs)
      (m, some job_not_found) (λ j. (begin_run now j m, none)) (λ _. h)
      (λ j _. begin_run-IsSound now j m h)

-- A cell is replaced by an honest one for the same job.
write-IsSound :
    (at : ℕ) (old new : Cell) (m m' : Manager)
    → IsSound m
    → lookup at m.cells ≡ some old
    → new.status.job_id ≡ old.status.job_id
    → IsHonest new
    → m'.cells ≡ insert at new m.cells
    → m'.statuses ≡ m.statuses
    → m'.next_cell ≡ m.next_cell
    → IsSound m'
write-IsSound at old new m m' h found same honest c s n = record {
  honest = rw c (All-insert (λ (x : ℕ × Cell). IsHonest x.1) at new m.cells honest h.honest);
  used =
      rw (c, n)
        (All-insert (λ (x : ℕ × Cell). x.0 < m.next_cell) at new m.cells
          (All-lookup (λ (x : ℕ × Cell). x.0 < m.next_cell) at old m.cells found h.used) h.used);
  pointers =
      rw (c, s)
        (All-imp (λ (x : Bytes × ℕ). PointsTo m.cells x.0 x.1)
          (λ (x : Bytes × ℕ). PointsTo (insert at new m.cells) x.0 x.1) m.statuses
          (λ x p.
            PointsTo-insert m.cells at new x.0 x.1
              (λ e.
                same
                ∙ ap (λ (d : Cell). d.status.job_id) (same_cell m x.1 at old p.cell e found p.found)
                ∙ p.of_job)
              p)
          h.pointers);
}

last_500_bound : (lines : List Bytes) → length (last_500 lines) ≤ 500
last_500_bound lines = elim (Bool-cases (ltb 500 (length lines))) [
  | inl e ↦ rw e (omega (arith, length-drop (length lines - 500) lines))
  | inr e ↦ rw e (ground (arith, e))
]

Step-IsSound : {m m' : Manager} → Step m m' → IsSound m → IsSound m'
Step-IsSound (adding e j m) h = IsSound-same m _ (add-same e j m) h
Step-IsSound (deleting e id m) h = IsSound-same m _ (delete-same e id m) h
Step-IsSound (enabling e id enabled m) h = IsSound-same m _ (set_enabled-same e id enabled m) h
Step-IsSound (ticking now m) h = unfold tick in begin_all-IsSound now _ m h
Step-IsSound (starting now id m) h = run_now-IsSound now id m h
Step-IsSound (printing at line j c m found works) h =
    let was = All-lookup (λ (x : ℕ × Cell). IsHonest x.1) at c m.cells found h.honest in
    unfold read_line in
    write-IsSound at c (with_line line c) m _ h found refl
      (record {
        runs = was.runs;
        finished = was.finished;
        few_lines = last_500_bound (c.status.lines ++ (line ∷ []));
      })
      refl refl refl
Step-IsSound (ending e at err j c m found works) h =
    let was = All-lookup (λ (x : ℕ × Cell). IsHonest x.1) at c m.cells found h.honest in
    let told = end_run-cells e at err j c m in
    write-IsSound at c (ended err c) m _ h found refl
      (record { runs = refl; finished = refl; few_lines = was.few_lines }) told.0 told.1 told.2

pub Reach-IsSound : {jobs : List Job} {m : Manager} → Reach (manager_of jobs) m → IsSound m
Reach-IsSound at_start = record { honest = tt; used = tt; pointers = tt }
Reach-IsSound (then_step r step) = Step-IsSound step (Reach-IsSound r)

-- What `Status` answers for a job.
pub record IsTrue (id : Bytes) (m : Manager) (st : JobStatus) : Type 0 where
  pub at : ℕ
  pub cell : Cell
  pub shown : st ≡ cell.status
  pub kept : lookup at m.cells ≡ some cell
  pub of_job : st.job_id ≡ id
  pub honest : IsHonest cell

-- After any calls, ticks, lines of output and ends of runs, in any order, from the daemon's start on: a status that is shown for
-- a job is one of that job; it says that it runs exactly while its goroutine is at work, and that it
-- is done from then on; and it has 500 lines at most.
pub status_of-Reach :
    (jobs : List Job) (m : Manager) (id : Bytes) (st : JobStatus)
    → Reach (manager_of jobs) m
    → status_of id m ≡ some st
    → IsTrue id m st
unfolding status_of
status_of-Reach jobs m id st r shown =
    let sound = Reach-IsSound r in
    elim (Option-cases (lookup id m.statuses)) [
      | inl absent ↦ absurd (ground (arith, absent, shown))
      | inr (at, pointer) ↦
          let p =
            All-lookup (λ (x : Bytes × ℕ). PointsTo m.cells x.0 x.1) id at m.statuses pointer
              sound.pointers in
          let is : st ≡ p.cell.status = ground (arith, pointer, p.found, shown) in
          record {
            at = at;
            cell = p.cell;
            shown = is;
            kept = p.found;
            of_job = ap (λ (s : JobStatus). s.job_id) is ∙ p.of_job;
            honest =
                All-lookup (λ (x : ℕ × Cell). IsHonest x.1) at p.cell m.cells p.found sound.honest;
          }
    ]
