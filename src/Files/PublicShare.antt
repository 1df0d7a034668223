-- ===== src/Files/PublicShare.antt =====
-- publicShareHandler of internal/api/router.go: a shared file for whoever has the token. The
-- handler answers with the headers of a file only: nothing is copied from it.
pub mod Opened
use Prim.Native.String.{◌++◌ as join}
use kilasos.Common.{
  ℕ, suc, String, Bool, true, false, not, ◌&&◌, ◌||◌, Option, none, some, List, [], ◌∷◌, length,
  take, ltb, ◌==◌, nat_eq, if◌then◌else◌, on_option,
}
use kilasos.Auth.Crypto.{Bytes}
use kilasos.Audit.{Logger, log}
use kilasos.Api.Limiter.{LoginRateLimiter, allow}
use kilasos.Files.Paths.{mnt, has_prefix, has_dots, clean, base}
use kilasos.Files.Shares.{
  ShareLink, ShareFile, ShareError, Shared, ok, failed, Env, resolve_share_token,
}

-- What opening and asking about a path gives: an error, or whether it is a directory (`none` where
-- `f.Stat` fails).
pub data Found : Type 0 where
  cannot_open : String → Found
  opened : Option Bool → Found

-- The request, its time on the clock of the limiter and of the log, the answers of the operating
-- system, and the texts for the log.
pub record Visit : Type 0 where
  pub env : Env
  pub now : ℕ
  pub remote_addr : Bytes
  pub token : Bytes
  pub look_up : Bytes → Found
  pub text : Bytes → String
  pub error_text : ShareError → String

pub record Public : Type 0 where
  pub shares : ShareFile
  pub limiter : LoginRateLimiter
  pub audit_log : Logger

-- `path` is what was opened, if something was.
pub record Served : Type 0 where
  pub after : Public
  pub status : ℕ
  pub path : Option Bytes

-- Where the last colon stands.
unfoldable pub last_colon : Bytes → Option ℕ
last_colon [] = none
last_colon (c ∷ rest) =
    on_option (last_colon rest) (if c == b':' then some 0 else none) (λ i. some (suc i))

-- `if i := strings.LastIndex(clientIP, ":"); i > 0 { clientIP = clientIP[:i] }`
unfoldable pub client_ip : Bytes → Bytes
unfolding last_colon
client_ip addr = on_option (last_colon addr) addr (λ i. if ltb 0 i then take i addr else addr)

-- `strings.ContainsAny(token, "/.\\")`
unfoldable pub has_separator : Bytes → Bool
has_separator [] = false
has_separator (c ∷ rest) = (c == b'/' || c == b'.' || c == 92) || has_separator rest

module _ (v : Visit) where
  abbrev note : String → String → Bool → Public → Public
  note action detail fine p = record p {
    audit_log = log v.now "share-public" action detail (v.text v.remote_addr) fine p.audit_log;
  }

  abbrev of_link : ShareLink → String → String
  of_link link detail = join (v.text link.id) (join " " detail)

  abbrev end : Public → ℕ → Served
  end p status = record { after = p; status = status; path = none }

  -- The part after the link was found.
  unfoldable pub serve_link : ShareLink → Public → Served
  serve_link link p =
      let path = clean link.path in
      if has_dots path || not (has_prefix mnt path)
      then end (note "unsafe-path" (of_link link (v.text link.path)) false p) 403
      else elim (v.look_up path) [
        | cannot_open err ↦ end (note "open-failed" (of_link link err) false p) 404
        | opened none ↦ record (end (note "not-a-file" (v.text link.id) false p) 403) {
          path = some path;
        }
        | opened (some true) ↦ record (end (note "not-a-file" (v.text link.id) false p) 403) {
          path = some path;
        }
        | opened (some false) ↦
            record (end (note "served" (of_link link (v.text (base path))) true p) 200) {
              path = some path;
            }
      ]

  unfoldable pub serve_answer : Shared ShareLink → Public → Served
  serve_answer (failed err) p =
      end (note "denied" (join (v.text v.token) (join " " (v.error_text err))) false p) 404
  serve_answer (ok link) p = serve_link link p

  unfoldable pub serve_token : Public → Served
  serve_token p =
      let answer = resolve_share_token v.env v.token p.shares in
      serve_answer answer.1 (record p { shares = answer.0 })

  unfoldable pub public_share_handler : Public → Served
  public_share_handler p =
      let answer = allow v.now (v.text (client_ip v.remote_addr)) p.limiter in
      let p' = record p { limiter = answer.0 } in
      if not answer.1
      then end (note "rate-limited" (v.text (client_ip v.remote_addr)) false p') 429
      else if ltb (length v.token) 16 || has_separator v.token
      then end (note "malformed-token" (v.text v.token) false p') 404
      else serve_token p'
