-- ===== src/Api/Backups/Archives.antt =====
-- The handlers of internal/api/backup_handlers.go for borg and restic.
use kilasos.Common.{
  ℕ, Bool, false, not, ◌&&◌, ◌||◌, Option, none, some, List, [], ◌∷◌, map, keep, length, leb, ◌==◌,
  nat_eq, bytes_eq, if◌then◌else◌, on_option,
}
use mathlib.Core.List.{reverse}
use kilasos.Auth.Crypto.{Bytes}
use kilasos.Audit.{Logger, plain_entry, log_enriched}
use kilasos.Files.Paths.{push_byte}
use kilasos.Api.Backups.{
  Call, borg_init, borg_create_backup, borg_list_archives, borg_delete_archive, borg_prune,
  borg_verify, borg_restore, restic_init, restic_create_backup, restic_list_snapshots,
  restic_delete_snapshot, restic_verify, restic_restore, Failure, status, panicked, World, Outcome,
  failed_status, refuse, ask, by_admin,
}

pub record BorgInit : Type 0 where
  pub name : Bytes
  pub passphrase : Bytes
  pub encryption : Bytes

pub record BorgCreate : Type 0 where
  pub repo_name : Bytes
  pub archive_name : Bytes
  pub paths : Bytes
  pub excludes : Bytes

pub record Restore : Type 0 where
  pub repo_name : Bytes
  pub archive : Bytes
  pub target_path : Bytes

pub record ResticInit : Type 0 where
  pub name : Bytes
  pub passphrase : Bytes
  pub backend : Bytes
  pub creds : List (Bytes × Bytes)

pub record ResticCreate : Type 0 where
  pub repo_name : Bytes
  pub paths : Bytes
  pub tags : List Bytes

-- `strings.Split(text, "\n")`
unfoldable pub split_lines : Bytes → List Bytes
split_lines [] = [] ∷ []
split_lines (c ∷ rest) =
    let lines = split_lines rest in if c == 10 then [] ∷ lines else push_byte c lines

abbrev pub is_space : ℕ → Bool
is_space c = c == 32 || (leb 9 c && leb c 13)

unfoldable pub trim_left : Bytes → Bytes
trim_left [] = []
trim_left (c ∷ rest) = let more = trim_left rest in if is_space c then more else c ∷ rest

-- `strings.TrimSpace`, of a text of ASCII characters
unfoldable pub trim_space : Bytes → Bytes
trim_space text = reverse (trim_left (reverse (trim_left text)))

unfoldable pub exclude_list : Bytes → List Bytes
exclude_list excludes =
    if not (excludes == [])
    then keep (λ line. not (line == [])) (map trim_space (split_lines excludes))
    else []

module _ (w : World) where
  unfoldable pub borg_init_handler : Option BorgInit → Option Logger → Outcome
  borg_init_handler body l = by_admin w l (
      on_option body (refuse 400 l) (λ req.
        if req.name == []
        then refuse 400 l
        else ask w (borg_init req.name req.passphrase req.encryption) 201 l))

  -- The failure is logged; `NewRouter` passes no log, and the method panics.
  abbrev pub note_failure : BorgCreate → ℕ → Failure → Option Logger → Call → Outcome
  note_failure req excluded err none call = record {
    calls = call ∷ [];
    answer = panicked;
    log = none;
  }
  note_failure req excluded err (some log) call = record {
    calls = call ∷ [];
    answer = failed_status err;
    log = some (
        log_enriched w.now
          (plain_entry w.username "borg_create" (w.detail req.repo_name excluded err) w.remote_addr
            false)
          log);
  }

  unfoldable pub borg_create_backup_handler : Option BorgCreate → Option Logger → Outcome
  borg_create_backup_handler body l = by_admin w l (
      on_option body (refuse 400 l) (λ req.
        if req.paths == []
        then refuse 400 l
        else let excluded = exclude_list req.excludes in
          let call = borg_create_backup req.repo_name req.archive_name req.paths excluded in
          on_option (w.failure call) (record { calls = call ∷ []; answer = status 201; log = l })
            (λ err. note_failure req (length excluded) err l call)))

  unfoldable pub borg_list_archives_handler : Bytes → Option Logger → Outcome
  borg_list_archives_handler repo l =
      if repo == [] then refuse 400 l else ask w (borg_list_archives repo) 200 l

  unfoldable pub borg_delete_archive_handler : Bytes → Bytes → Option Logger → Outcome
  borg_delete_archive_handler repo archive l =
      by_admin w l (ask w (borg_delete_archive repo archive) 200 l)

  unfoldable pub borg_prune_handler : Option (Bytes × Bytes) → Option Logger → Outcome
  borg_prune_handler body l =
      by_admin w l (on_option body (refuse 400 l) (λ req. ask w (borg_prune req.0 req.1) 200 l))

  unfoldable pub borg_restore_handler : Option Restore → Option Logger → Outcome
  borg_restore_handler body l = by_admin w l (
      on_option body (refuse 400 l) (λ req.
        if req.target_path == []
        then refuse 400 l
        else ask w (borg_restore req.repo_name req.archive req.target_path) 200 l))

  unfoldable pub borg_verify_handler : Option (Bytes × Bytes) → Option Logger → Outcome
  borg_verify_handler body l =
      on_option body (refuse 400 l) (λ req. ask w (borg_verify req.0 req.1) 200 l)

  unfoldable pub restic_init_handler : Option ResticInit → Option Logger → Outcome
  restic_init_handler body l = by_admin w l (
      on_option body (refuse 400 l) (λ req.
        if req.name == []
        then refuse 400 l
        else ask w (restic_init req.name req.passphrase req.backend req.creds) 201 l))

  unfoldable pub restic_create_backup_handler : Option ResticCreate → Option Logger → Outcome
  restic_create_backup_handler body l = by_admin w l (
      on_option body (refuse 400 l) (λ req.
        if req.paths == []
        then refuse 400 l
        else ask w (restic_create_backup req.repo_name req.paths req.tags) 201 l))

  unfoldable pub restic_list_snapshots_handler : Bytes → Option Logger → Outcome
  restic_list_snapshots_handler repo l =
      if repo == [] then refuse 400 l else ask w (restic_list_snapshots repo) 200 l

  unfoldable pub restic_delete_snapshot_handler : Bytes → Bytes → Option Logger → Outcome
  restic_delete_snapshot_handler repo snapshot l =
      by_admin w l (ask w (restic_delete_snapshot repo snapshot) 200 l)

  unfoldable pub restic_restore_handler : Option Restore → Option Logger → Outcome
  restic_restore_handler body l = by_admin w l (
      on_option body (refuse 400 l) (λ req.
        if req.target_path == []
        then refuse 400 l
        else ask w (restic_restore req.repo_name req.archive req.target_path) 200 l))

  unfoldable pub restic_verify_handler : Option (Bytes × Bytes) → Option Logger → Outcome
  restic_verify_handler body l =
      on_option body (refuse 400 l) (λ req. ask w (restic_verify req.0 req.1) 200 l)
