-- ===== src/Api/Backups/Remotes.antt =====
-- What rcloneSyncHandler of internal/api/backup_handlers.go finds under the name of a remote.
use kilasos.Common.{
  ◌≢◌, ◌++◌, ◌∷◌, some, List, ap, find, ==_iff, ◌≡◌, ◌⊎◌, Bool-cases, refl, none, [], All, ◌==◌,
  bytes_eq, inl, inr, arith,
}
use kilasos.Auth.Crypto.{Bytes}
use kilasos.Api.Backups.{RcloneRemote}
use kilasos.Api.Backups.Jobs.{paths_of}

-- No remote of the list has the name.
abbrev pub Unnamed : Bytes → List RcloneRemote → Type 0
Unnamed name = All (λ rem. rem.name ≢ name)

-- The remote is the first of the list with the name.
pub record IsFirst (name : Bytes) (rem : RcloneRemote) (remotes : List RcloneRemote) : Type 0 where
  pub before : List RcloneRemote
  pub after : List RcloneRemote
  pub in_order : remotes ≡ before ++ (rem ∷ after)
  pub has_name : rem.name ≡ name
  pub is_first : Unnamed name before

-- The paths and the bandwidth are those of the first remote with the name; where there is none,
-- they are empty texts.
abbrev pub Synced : Bytes → List RcloneRemote → Bytes × Bytes × Bytes → Type 0
Synced name remotes (source, dest, bandwidth) =
    ((rem : RcloneRemote) × IsFirst name rem remotes
      × (source ≡ rem.source_path)
      × (dest ≡ rem.dest_path)
      × (bandwidth ≡ rem.bandwidth))
    ⊎ (Unnamed name remotes × (source ≡ []) × (dest ≡ []) × (bandwidth ≡ []))

find_named :
    (name : Bytes) (remotes : List RcloneRemote)
    → (Unnamed name remotes × (find (λ rem. rem.name == name) remotes ≡ none))
      ⊎ ((rem : RcloneRemote) × IsFirst name rem remotes
          × (find (λ rem. rem.name == name) remotes ≡ some rem))
unfolding find
find_named name [] = inl (tt, refl)
find_named name (r ∷ remotes) = elim (Bool-cases (r.name == name)) [
  | inl e ↦ inr (
    r,
    record {
      before = [];
      after = remotes;
      in_order = refl;
      has_name = (==_iff r.name name).0 e;
      is_first = tt;
    },
    rw e refl,
  )
  | inr e ↦
      let other : r.name ≢ name = λ same. ground (arith, e, (==_iff r.name name).1 same) in
      elim (find_named name remotes) [
        | inl (all, nothing) ↦ inl ((other, all), rw e nothing)
        | inr (rem, first, found) ↦ inr (
          rem,
          record {
            before = r ∷ first.before;
            after = first.after;
            in_order = ap (λ (x : List RcloneRemote). r ∷ x) first.in_order;
            has_name = first.has_name;
            is_first = (other, first.is_first);
          },
          rw e found,
        )
      ]
]

pub paths_of-Synced :
    (name : Bytes) (remotes : List RcloneRemote) → Synced name remotes (paths_of name remotes)
paths_of-Synced name remotes = elim (find_named name remotes) [
  | inl (all, nothing) ↦ rw nothing (inr (all, refl, refl, refl))
  | inr (rem, first, found) ↦ rw found (inl (rem, first, refl, refl, refl))
]
