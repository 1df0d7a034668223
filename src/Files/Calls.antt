-- ===== src/Files/Calls.antt =====
-- What the handlers of internal/api/files.go share: what they ask of the storage provider and of
-- the operating system, how they log, and their outcome. A request body or a form comes decoded.
use Prim.Native.String.{◌++◌ as join}
use kilasos.Common.{
  ℕ, String, Bool, true, false, Option, List, [], ◌∷◌, ◌==◌, nat_eq, if◌then◌else◌, on_option,
}
use kilasos.Common.Int.{ℤ}
use kilasos.Auth.Crypto.{Bytes}
use kilasos.Audit.{Logger, log}

-- Calls of `storage.Provider`, and of package os (`create_file`, `remove_file`, `open_file`).
-- `zip_tree` is the walk over a directory that is sent as an archive.
pub data Call : Type 0 where
  file_list file_tree file_read file_preview : Bytes → Call
  create_file remove_file open_file zip_tree : Bytes → Call
  file_rename file_copy : Bytes → Bytes → Call
  file_delete trash_restore : Bytes → Call
  trash_list trash_empty list_share_links : Call
  file_chmod : Bytes → String → Call
  file_chown : Bytes → ℤ → ℤ → Call
  create_share_link : Bytes → ℤ → ℤ → Call
  revoke_share_link get_share_link : Bytes → Call
  bulk_delete : List Bytes → Call
  bulk_move : List (Bytes × Bytes) → Call

abbrev pub both_ends : List (Bytes × Bytes) → List Bytes
both_ends [] = []
both_ends ((src, dst) ∷ ops) = src ∷ dst ∷ both_ends ops

-- The paths that a call names.
abbrev pub paths_of : Call → List Bytes
paths_of (file_list p) = p ∷ []
paths_of (file_tree p) = p ∷ []
paths_of (file_read p) = p ∷ []
paths_of (file_preview p) = p ∷ []
paths_of (create_file p) = p ∷ []
paths_of (remove_file p) = p ∷ []
paths_of (open_file p) = p ∷ []
paths_of (zip_tree p) = p ∷ []
paths_of (file_rename p q) = p ∷ q ∷ []
paths_of (file_copy p q) = p ∷ q ∷ []
paths_of (file_delete p) = p ∷ []
paths_of (trash_restore p) = p ∷ []
paths_of trash_list = []
paths_of trash_empty = []
paths_of list_share_links = []
paths_of (file_chmod p mode) = p ∷ []
paths_of (file_chown p uid gid) = p ∷ []
paths_of (create_share_link p expires_in max_uses) = p ∷ []
paths_of (revoke_share_link id) = []
paths_of (get_share_link id) = []
paths_of (bulk_delete ps) = ps
paths_of (bulk_move ops) = both_ends ops

-- The request's method and address, the clock, the answers of the calls (the text of an error, if
-- there is one), and the texts that go to the log.
pub record World : Type 0 where
  pub method : String
  pub remote_addr : Bytes
  pub now : ℕ
  pub failure : Call → Option String
  pub eval_symlinks : Bytes → Option Bytes
  pub text : Bytes → String
  pub number : ℤ → String

-- `status` is that of the answer; `archive` has the names in an archive that is sent.
pub record Outcome : Type 0 where
  pub log : Logger
  pub calls : List Call
  pub status : ℕ
  pub archive : List Bytes

-- `ip`: the address up to its first colon.
unfoldable pub ip : Bytes → Bytes
ip [] = []
ip (c ∷ rest) = let more = ip rest in if c == b':' then [] else c ∷ more

module _ (w : World) where
  abbrev pub refuse : ℕ → Logger → Outcome
  refuse status l = record { log = l; calls = []; status = status; archive = [] }

  abbrev pub note : String → String → Bool → Logger → Logger
  note action detail ok l = log w.now "files" action detail (w.text (ip w.remote_addr)) ok l

  -- 403, with an entry in the log.
  abbrev pub block : String → String → Logger → Outcome
  block action detail l = refuse 403 (note action detail false l)

  abbrev pub blocked_path : Bytes → String
  blocked_path path = join "path traversal blocked: " (w.text path)

  abbrev pub ok_path : Bytes → String
  ok_path path = join "ok: " (w.text path)

  -- A call of the provider whose failure is answered and not logged.
  abbrev pub look : Call → String → String → Logger → Outcome
  look call action detail l =
      on_option (w.failure call)
        (record { log = note action detail true l; calls = call ∷ []; status = 200; archive = [] })
        (λ err. record { log = l; calls = call ∷ []; status = 500; archive = [] })

  -- A call of the provider that is logged either way.
  abbrev pub change : Call → String → String → Logger → Outcome
  change call action detail l =
      on_option (w.failure call)
        (record { log = note action detail true l; calls = call ∷ []; status = 200; archive = [] })
        (λ err. record {
          log = note action (join "fail: " err) false l;
          calls = call ∷ [];
          status = 500;
          archive = [];
        })
