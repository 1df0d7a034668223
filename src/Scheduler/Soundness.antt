-- ===== src/Scheduler/Soundness.antt =====
-- What every schedule of internal/scheduler/scheduler.go is like, after any calls.
use kilasos.Common.{
  ◌≡◌, ◌≢◌, ◌⊎◌, inl, inr, refl, String, Bool, true, false, not, ◌||◌, Option, some, [], ◌∷◌, arith,
  find, All, All-append, All-update_first, All-remove_first, ◌==◌, ==_iff, bytes_eq, string_eq,
  if_case, option_case,
}
use kilasos.Common.Int.{ℤ, pos, ltb_ℤ}
use kilasos.Auth.Crypto.{Bytes}
use kilasos.Scheduler.{
  Schedule, Scheduler, SchedulerError, write_failed, Env, save, known_freq, append, add_snapshot,
  add_replication, add_scrub, has_id, delete, set_enabled, switch, RunEnv, kind_of, reschedule, run,
}

-- A schedule has a pool and a known frequency; if it makes snapshots, as all do that are neither
-- replications nor scrubs, it keeps some.
pub record IsSound (sc : Schedule) : Type 0 where
  pub has_pool : sc.pool ≢ ""
  pub has_freq : known_freq sc.freq ≡ true
  pub keeps : (kind_of sc ≡ "replication") ⊎ (kind_of sc ≡ "scrub") ⊎ (ltb_ℤ (pos 0) sc.keep ≡ true)

-- The schedules that a call leaves, beside its answer.
pub record Sound {B : Type 0} (a : Scheduler × B) : Type 0 where
  pub all : All IsSound a.0.schedules

save-Sound : (e : Env) (s : Scheduler) → All IsSound s.schedules → Sound (save e s)
unfolding save
save-Sound e s h =
    if_case Sound e.writable _ (s, some write_failed) (λ _. record { all = h })
      (λ _. record { all = h })

append-Sound :
    (e : Env) (sc : Schedule) (s : Scheduler)
    → IsSound sc
    → All IsSound s.schedules
    → Sound (append e sc s)
unfolding append
append-Sound e sc s new h = save-Sound e _ (All-append IsSound s.schedules (sc ∷ []) h (new, tt))

module _ (e : Env) (s : Scheduler) (h : All IsSound s.schedules) where
  refuse : (err : SchedulerError) → Sound {B = Option SchedulerError} (s, some err)
  refuse err = record { all = h }

  add_snapshot-Sound : (pool freq : String) (count : ℤ) → Sound (add_snapshot e pool freq count s)
  unfolding add_snapshot
  add_snapshot-Sound pool freq count =
      if_case Sound (pool == "") _ _ (λ _. refuse _)
        λ p.
          if_case Sound (not (known_freq freq)) _ _ (λ _. refuse _)
            λ f.
              append-Sound e _ s
                (record {
                  has_pool = λ q. ground (arith, p, ==_iff pool "");
                  has_freq = ground (arith, f);
                  keeps = inr (inr (ground arith));
                })
                h

  add_replication-Sound :
      (pool remote_id remote_name freq : String)
      → Sound (add_replication e pool remote_id remote_name freq s)
  unfolding add_replication
  add_replication-Sound pool remote_id remote_name freq =
      if_case Sound (pool == "" || remote_id == "") _ _ (λ _. refuse _)
        λ p.
          if_case Sound (not (known_freq freq)) _ _ (λ _. refuse _)
            λ f.
              append-Sound e _ s
                (record {
                  has_pool = λ q. ground (arith, p, ==_iff pool "");
                  has_freq = ground (arith, f);
                  keeps = inl (ground (arith, p));
                })
                h

  add_scrub-Sound : (pool freq : String) → Sound (add_scrub e pool freq s)
  unfolding add_scrub
  add_scrub-Sound pool freq =
      if_case Sound (pool == "") _ _ (λ _. refuse _)
        λ p.
          if_case Sound (not (known_freq freq)) _ _ (λ _. refuse _)
            λ f.
              append-Sound e _ s
                (record {
                  has_pool = λ q. ground (arith, p, ==_iff pool "");
                  has_freq = ground (arith, f);
                  keeps = inr (inl refl);
                })
                h

  delete-Sound : (id : Bytes) → Sound (delete e id s)
  unfolding delete
  delete-Sound id =
      option_case Sound (find (has_id id) s.schedules) _ _ (λ _. refuse _)
        λ _ _. save-Sound e _ (All-remove_first IsSound (has_id id) s.schedules h)

  set_enabled-Sound : (id : Bytes) (enabled : Bool) → Sound (set_enabled e id enabled s)
  unfolding set_enabled
  set_enabled-Sound id enabled =
      option_case Sound (find (has_id id) s.schedules) _ _ (λ _. refuse _)
        λ _ _. save-Sound e _ (
          All-update_first IsSound (has_id id) (switch e enabled) s.schedules
            (λ sc sound. switched sc enabled sound) h)
    where
      switched : (sc : Schedule) (on : Bool) → IsSound sc → IsSound (switch e on sc)
      switched sc true sound = record {
        has_pool = sound.has_pool;
        has_freq = sound.has_freq;
        keeps = sound.keeps;
      }
      switched sc false sound = record {
        has_pool = sound.has_pool;
        has_freq = sound.has_freq;
        keeps = sound.keeps;
      }

reschedule-All :
    (e : RunEnv) (sc : Schedule) (s : Scheduler)
    → All IsSound s.schedules
    → All IsSound (reschedule e sc s).schedules
unfolding reschedule
reschedule-All e sc s h =
    (save-Sound _ _ (
      All-update_first IsSound (has_id sc.id) _ s.schedules
        (λ t sound. record {
          has_pool = sound.has_pool;
          has_freq = sound.has_freq;
          keeps = sound.keeps;
        })
        h)).all

run-Sound :
    (e : RunEnv) (sc : Schedule) (s : Scheduler) → All IsSound s.schedules → Sound (run e sc s)
unfolding run
run-Sound e sc s h =
    if_case Sound (kind_of sc == "replication") _ _ (λ _. record { all = reschedule-All e sc s h })
      λ _.
        if_case Sound (kind_of sc == "scrub") _ _ (λ _. record { all = reschedule-All e sc s h })
          λ _.
            if_case Sound (not e.created) _ _ (λ _. record { all = h })
              (λ _. record { all = reschedule-All e sc s h })

-- One call of a method that writes to the schedules.
pub data Step (s : Scheduler) : Scheduler → Type 0 where
  adds_snapshot :
      (e : Env) (pool freq : String) (count : ℤ) → Step s (add_snapshot e pool freq count s).0
  adds_replication :
      (e : Env) (pool remote_id remote_name freq : String)
      → Step s (add_replication e pool remote_id remote_name freq s).0
  adds_scrub : (e : Env) (pool freq : String) → Step s (add_scrub e pool freq s).0
  deletes : (e : Env) (id : Bytes) → Step s (delete e id s).0
  switches : (e : Env) (id : Bytes) (enabled : Bool) → Step s (set_enabled e id enabled s).0
  runs : (e : RunEnv) (sc : Schedule) → Step s (run e sc s).0

pub data Reach (s : Scheduler) : Scheduler → Type 0 where
  here : Reach s s
  next : {t u : Scheduler} → Reach s t → Step t u → Reach s u

Step-Sound : {s t : Scheduler} → Step s t → All IsSound s.schedules → All IsSound t.schedules
Step-Sound {s} (adds_snapshot e pool freq count) h = (add_snapshot-Sound e s h pool freq count).all
Step-Sound {s} (adds_replication e pool remote name freq) h =
    (add_replication-Sound e s h pool remote name freq).all
Step-Sound {s} (adds_scrub e pool freq) h = (add_scrub-Sound e s h pool freq).all
Step-Sound {s} (deletes e id) h = (delete-Sound e s h id).all
Step-Sound {s} (switches e id enabled) h = (set_enabled-Sound e s h id enabled).all
Step-Sound {s} (runs e sc) h = (run-Sound e sc s h).all

-- After any calls and runs in any order, from schedules that are so (none, say), each schedule has
-- a pool and a known frequency, and is a replication, a scrub, or one that keeps at least one
-- snapshot.
pub Reach-IsSound :
    (s t : Scheduler) → All IsSound s.schedules → Reach s t → All IsSound t.schedules
Reach-IsSound s t h here = h
Reach-IsSound s t h (next r st) = Step-Sound st (Reach-IsSound s _ h r)
