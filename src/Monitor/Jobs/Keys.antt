-- ===== src/Monitor/Jobs/Keys.antt =====
-- The map of the states during a poll of internal/monitor/monitor.go, and the slice between polls.
use kilasos.Common.{
  ◌≡◌, ◌≢◌, refl, sym, ap, ◌∙◌, true, false, Option, none, some, List, [], ◌∷◌, map, All, String,
  lookup, insert, lookup-insert, subst, All-insert, ◌==◌, ==_iff, string_eq, Bool-cases, inl, inr,
  if◌then◌else◌, arith,
}
use kilasos.Monitor.{BackupJobAlertState}
use kilasos.Monitor.Jobs.{States, state_map}

-- Every state stands under its job's ID, and no ID comes twice.
abbrev pub IsKeyed : States → Type 0
IsKeyed [] = Unit
IsKeyed ((k, s) ∷ states) =
    (s.job_id ≡ k) × All (λ (x : String × BackupJobAlertState). x.0 ≢ k) states × IsKeyed states

pub insert-IsKeyed :
    (k : String) (s : BackupJobAlertState) (states : States)
    → s.job_id ≡ k
    → IsKeyed states
    → IsKeyed (insert k s states)
unfolding insert
insert-IsKeyed k s [] own h = (own, tt, tt)
insert-IsKeyed k s ((j, t) ∷ states) own h = elim (Bool-cases (j == k)) [
  | inl same ↦ rw same (
    own,
    subst (λ i. All (λ (x : String × BackupJobAlertState). x.0 ≢ i) states) ((==_iff j k).0 same)
        h.1,
    h.2,
  )
  | inr other ↦ rw other (
    h.0,
    All-insert (λ (x : String × BackupJobAlertState). x.0 ≢ j) k s states
        (λ (e : k ≡ j). absurd (ground (arith, ==_iff j k, e, other))) h.1,
    insert-IsKeyed k s states own h.2,
  )
]

pub state_map-IsKeyed :
    (more : List BackupJobAlertState) (states : States)
    → IsKeyed states
    → IsKeyed (state_map more states)
unfolding state_map
state_map-IsKeyed [] states h = h
state_map-IsKeyed (s ∷ more) states h =
    state_map-IsKeyed more (insert s.job_id s states) (insert-IsKeyed s.job_id s states refl h)

-- The last state of a job in a slice.
latest : String → List BackupJobAlertState → Option BackupJobAlertState → Option BackupJobAlertState
latest id [] found = found
latest id (s ∷ more) found = latest id more (if s.job_id == id then some s else found)

lookup-state_map :
    (id : String) (more : List BackupJobAlertState) (states : States)
    → lookup id (state_map more states) ≡ latest id more (lookup id states)
unfolding state_map latest
lookup-state_map id [] states = refl
lookup-state_map id (s ∷ more) states =
    lookup-state_map id more (insert s.job_id s states)
    ∙ ap (latest id more) (lookup-insert s.job_id id s states)

abbrev pub values : States → List BackupJobAlertState
values states = map (λ (x : String × BackupJobAlertState). x.1) states

latest_absent :
    (id : String) (states : States) (found : Option BackupJobAlertState)
    → IsKeyed states
    → All (λ (x : String × BackupJobAlertState). x.0 ≢ id) states
    → latest id (values states) found ≡ found
unfolding latest
latest_absent id [] found h apart = refl
latest_absent id ((k, s) ∷ states) found h apart =
    ap (latest id (values states)) (ground (arith, ==_iff s.job_id id, h.0, apart.0))
    ∙ latest_absent id states found h.2 apart.1

latest-lookup :
    (id : String) (states : States)
    → IsKeyed states
    → latest id (values states) none ≡ lookup id states
unfolding latest lookup
latest-lookup id [] h = refl
latest-lookup id ((k, s) ∷ states) h = elim (Bool-cases (k == id)) [
  | inl same ↦
      let own : (s.job_id == id) ≡ true = ap (λ (j : String). j == id) h.0 ∙ same in
      ap (λ b. latest id (values states) (if b then some s else none)) own
      ∙ latest_absent id states (some s) h.2 (
          subst (λ i. All (λ (x : String × BackupJobAlertState). x.0 ≢ i) states)
            ((==_iff k id).0 same) h.1)
      ∙ sym (ap (λ b. if b then some s else lookup id states) same)
  | inr other ↦
      let apart : (s.job_id == id) ≡ false = ap (λ (j : String). j == id) h.0 ∙ other in
      ap (λ b. latest id (values states) (if b then some s else none)) apart
      ∙ latest-lookup id states h.2
      ∙ sym (ap (λ b. if b then some s else lookup id states) other)
]

-- What a poll writes back, the next one reads.
pub lookup-written_back :
    (id : String) (states : States)
    → IsKeyed states
    → lookup id (state_map (values states) []) ≡ lookup id states
lookup-written_back id states h =
    lookup-state_map id (values states) [] ∙ (unfold lookup in latest-lookup id states h)
