-- ===== src/Rsync/Ticks.antt =====
-- What `tick` of internal/rsync/manager.go starts.
use kilasos.Common.{
  ℕ, ◌+◌, ◌<◌, ◌≡◌, Bool, false, List, [], ◌∷◌, Dict, insert, keep, All, ◌==◌, ==_iff, nat_eq,
  bytes_eq, Bool-cases, inl, inr, if◌then◌else◌, on_option, arith,
}
use kilasos.Auth.Crypto.{Bytes}
use kilasos.Rsync.{Job, Cell, Manager, manager_of, new_cell, begin_run, begin_all, is_due, tick}
use kilasos.Rsync.Statuses.{Reach, IsSound, Reach-IsSound, begin_run-IsSound}

abbrev pub works_for : Bytes → Cell → Bool
works_for id c = on_option c.worker false (λ j. j.id == id)

-- How many goroutines are at work on runs of a job.
unfoldable pub runs_in : Bytes → Dict ℕ Cell → ℕ
runs_in id [] = 0
runs_in id ((at, c) ∷ cells) = (if works_for id c then 1 else 0) + runs_in id cells

abbrev pub runs_of : Bytes → Manager → ℕ
runs_of id m = runs_in id m.cells

-- How many of the jobs have the ID.
pub count_id : Bytes → List Job → ℕ
count_id id [] = 0
count_id id (j ∷ jobs) = (if j.id == id then 1 else 0) + count_id id jobs

runs_in-insert :
    (id : Bytes) (at : ℕ) (c : Cell) (cells : Dict ℕ Cell)
    → All (λ (x : ℕ × Cell). x.0 < at) cells
    → runs_in id (insert at c cells) ≡ runs_in id cells + (if works_for id c then 1 else 0)
unfolding runs_in insert
runs_in-insert id at c [] fresh = omega arith
runs_in-insert id at c ((p, d) ∷ cells) fresh = elim (Bool-cases (p == at)) [
  | inl e ↦ absurd (ground (arith, ==_iff p at, e, fresh.0))
  | inr e ↦ rw e (omega (arith, runs_in-insert id at c cells fresh.1))
]

runs_of-begin_all :
    (id : Bytes) (now : ℕ) (jobs : List Job) (m : Manager)
    → IsSound m
    → runs_of id (begin_all now jobs m) ≡ runs_of id m + count_id id jobs
unfolding begin_all count_id
runs_of-begin_all id now [] m h = omega arith
runs_of-begin_all id now (j ∷ jobs) m h =
    let one : runs_of id (begin_run now j m) ≡ runs_of id m + (if j.id == id then 1 else 0) =
      unfold begin_run in runs_in-insert id m.next_cell (new_cell now j) m.cells h.used in
    omega
      (arith, one, runs_of-begin_all id now jobs (begin_run now j m) (begin_run-IsSound now j m h))

-- After any calls, ticks and ends of runs: a tick starts a run for every job that is enabled and past
-- its time, once for each, however many runs of the job are already at work.
pub runs_of-tick :
    (jobs : List Job) (m : Manager) (now : ℕ) (id : Bytes)
    → Reach (manager_of jobs) m
    → runs_of id (tick now m) ≡ runs_of id m + count_id id (keep (is_due now) m.jobs)
unfolding tick
runs_of-tick jobs m now id r = runs_of-begin_all id now _ m (Reach-IsSound r)
