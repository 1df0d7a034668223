-- ===== src/Files/Shares.antt =====
-- The links under which a file is given to anybody who has the token, in
-- internal/storage/linux.go: one JSON file, read and written by each call. Times are seconds since
-- 1970; an instant before that is read as its start.
pub mod Uses
use kilasos.Common.{
  ℕ, suc, ◌+◌, ◌-◌, ◌/◌, Bool, true, false, not, ◌&&◌, ◌||◌, Option, none, some, List, [], ◌∷◌,
  ◌++◌, find, update_first, keep, length, ltb, ◌==◌, bytes_eq, nat_eq, if◌then◌else◌, on_option,
}
use kilasos.Common.Int.{ℤ, pos, negsuc, ltb_ℤ, wrap64, times}
use kilasos.Common.Time.{second, add}
use kilasos.Auth.Crypto.{Bytes}
use kilasos.Auth.Password.{hex}
use kilasos.Files.Paths.{has_dots, clean}

pub record ShareLink : Type 0 where
  pub id : Bytes
  pub token : Bytes
  pub path : Bytes
  pub created_at : ℕ
  pub expires_at : ℤ
  pub max_uses : ℤ
  pub used : ℤ

-- The file with the links: it is not there, it cannot be read, or `json.Unmarshal` gives a list.
pub data ShareFile : Type 0 where
  missing unreadable : ShareFile
  holds : List ShareLink → ShareFile

pub data ShareError : Type 0 where
  invalid_path invalid_token cannot_read cannot_write : ShareError
  not_found expired used_up : ShareError

pub data Shared (A : Type 0) : Type 0 where
  ok : A → Shared A
  failed : ShareError → Shared A

-- The clock in nanoseconds since 1970, 32 random bytes, the text `shr_` with the clock, and whether
-- the file can be written.
pub record Env : Type 0 where
  pub nanos : ℕ
  pub token_bytes : Bytes
  pub fresh_id : Bytes
  pub writable : Bool

abbrev pub unix : Env → ℕ
unix e = e.nanos / second

unfoldable pub load_share_links : ShareFile → Shared (List ShareLink)
load_share_links missing = ok []
load_share_links unreadable = failed cannot_read
load_share_links (holds links) = ok links

-- `links, _ := p.loadShareLinks()`
abbrev pub links_or_none : Shared (List ShareLink) → List ShareLink
links_or_none (ok links) = links
links_or_none (failed err) = []

abbrev pub save_share_links : Env → List ShareLink → ShareFile → ShareFile
save_share_links e links s = if e.writable then holds links else s

abbrev pub new_link : Env → Bytes → ℤ → ℤ → ShareLink
new_link e path expires_in max_uses = record {
  id = e.fresh_id;
  token = hex e.token_bytes;
  path = clean path;
  created_at = unix e;
  expires_at =
      if ltb_ℤ (pos 0) expires_in
      then pos (add e.nanos (times expires_in second) / second)
      else pos 0;
  max_uses = max_uses;
  used = pos 0;
}

unfoldable pub create_share_link : Env → Bytes → ℤ → ℤ → ShareFile → ShareFile × Shared ShareLink
unfolding load_share_links
create_share_link e path expires_in max_uses s =
    let link = new_link e path expires_in max_uses in
    if has_dots (clean path)
    then (s, failed invalid_path)
    else (save_share_links e (links_or_none (load_share_links s) ++ (link ∷ [])) s, ok link)

unfoldable pub revoke_share_link : Env → Bytes → ShareFile → ShareFile × Option ShareError
unfolding load_share_links
revoke_share_link e id s =
    let links = links_or_none (load_share_links s) in
    on_option (find (λ l. l.id == id) links) (s, some not_found)
      (λ _.
        if e.writable
        then (holds (keep (λ l. not (l.id == id)) links), none)
        else (s, some cannot_write))

-- `l.ExpiresAt > 0 && time.Now().Unix() > l.ExpiresAt`
abbrev pub is_expired : ℕ → ShareLink → Bool
is_expired now l = ltb_ℤ (pos 0) l.expires_at && ltb_ℤ l.expires_at (pos now)

-- `l.MaxUses > 0 && l.Used >= l.MaxUses`
abbrev pub is_used_up : ShareLink → Bool
is_used_up l = ltb_ℤ (pos 0) l.max_uses && not (ltb_ℤ l.used l.max_uses)

unfoldable pub get_share_link : Env → Bytes → ShareFile → Shared ShareLink
unfolding load_share_links
get_share_link e id s =
    on_option (find (λ l. l.id == id) (links_or_none (load_share_links s))) (failed not_found) (λ l.
      if is_expired (unix e) l
      then failed expired
      else if is_used_up l
      then failed used_up
      else ok l)

unfoldable pub list_share_links : ShareFile → Shared (List ShareLink)
unfolding load_share_links
list_share_links s = load_share_links s

abbrev plus_one : ℤ → ℤ
plus_one (pos n) = pos (suc n)
plus_one (negsuc n) = if n == 0 then pos 0 else negsuc (n - 1)

-- `Used++` at `int`
unfoldable pub use_once : ShareLink → ShareLink
unfolding wrap64
use_once l = record l { used = wrap64 (plus_one l.used) }

unfoldable pub resolve_in : Env → Bytes → List ShareLink → ShareFile → ShareFile × Shared ShareLink
resolve_in e token links s =
    on_option (find (λ l. l.token == token) links) (s, failed not_found)
      (λ l.
        if is_expired (unix e) l
        then (s, failed expired)
        else if is_used_up l
        then (s, failed used_up)
        else (
          save_share_links e (update_first (λ l. l.token == token) use_once links) s,
          ok (use_once l),
        ))

unfoldable pub resolve_share_token : Env → Bytes → ShareFile → ShareFile × Shared ShareLink
unfolding load_share_links resolve_in
resolve_share_token e token s =
    if token == [] || ltb (length token) 16
    then (s, failed invalid_token)
    else elim (load_share_links s) [
      | ok links ↦ resolve_in e token links s
      | failed err ↦ (s, failed err)
    ]
