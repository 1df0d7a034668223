-- ===== src/Files/Tests.antt =====
-- Files over HTTP, at concrete requests.
use kilasos.Common.{
  ◌*◌, ◌≡◌, refl, true, false, none, some, List, [], ◌∷◌, All, min, find, lookup, insert, inr,
  arith,
}
use kilasos.Common.Int.{pos}
use kilasos.Common.Time.{hour}
use kilasos.Auth.Crypto.{Bytes}
use kilasos.Auth.Password.{hex}
use kilasos.Api.Limiter as Limiter
use kilasos.Audit.{Logger}
use kilasos.Files.Paths.{has_dots, split, go_up, add_part, add_parts, join_parts, clean, safe_path}
use kilasos.Files.Paths.Containment.{IsUnderMnt}
use kilasos.Files.Calls.{World, paths_of}
use kilasos.Files.Routes.{delete, serve, serve_changing}
use kilasos.Files.Routes.Safety.{served-IsUnderMnt}
use kilasos.Files.Routes.Log.{Accounted, changes-Accounted}
use kilasos.Files.Shares.{
  ShareLink, missing, holds, ok, Env, new_link, load_share_links, use_once, create_share_link,
  resolve_share_token,
}
use kilasos.Files.Shares.Uses.{Call, asked, served, served-create_share_link}
use kilasos.Files.PublicShare.{
  opened, Visit, Public, client_ip, has_separator, serve_link, serve_answer, serve_token,
  public_share_handler,
}
use kilasos.Files.PublicShare.Opened.{IsAllowed, IsOpenedBy, public_share_opens}

-- "/mnt/a"
abbrev file_a : Bytes
file_a = b'/' ∷ b'm' ∷ b'n' ∷ b't' ∷ b'/' ∷ b'a' ∷ []

file_a_is_safe : safe_path file_a ≡ true
unfolding safe_path has_dots clean split add_parts add_part go_up join_parts
file_a_is_safe = refl

abbrev post : World
post = record {
  method = "POST";
  remote_addr = b'1' ∷ b':' ∷ b'2' ∷ [];
  now = 7;
  failure = λ call. none;
  eval_symlinks = λ path. some path;
  text = λ bytes. "text";
  number = λ n. "number";
}

abbrev no_log : Logger
no_log = record { entries = []; retention_days = pos 0; anonymize_ip = false }

served-IsUnderMnt_example :
    All
      (λ call. All IsUnderMnt (paths_of call))
      (serve post (inr (delete (some file_a))) no_log).calls
served-IsUnderMnt_example = served-IsUnderMnt post (inr (delete (some file_a))) no_log

changes-Accounted_example :
    Accounted post no_log (serve_changing post (delete (some file_a)) no_log)
changes-Accounted_example = changes-Accounted post (delete (some file_a)) no_log

abbrev env : Env
env = record {
  nanos = 5_000_000_000;
  token_bytes = 1 ∷ 2 ∷ 3 ∷ 4 ∷ 5 ∷ 6 ∷ 7 ∷ 8 ∷ [];
  fresh_id = b's' ∷ [];
  writable = true;
}

abbrev link : ShareLink
link = new_link env file_a (pos 0) (pos 2)

abbrev calls : List Call
calls = (env, link.token) ∷ (env, file_a) ∷ (env, link.token) ∷ (env, link.token) ∷ []

made : (create_share_link env file_a (pos 0) (pos 2) missing).1 ≡ ok link
unfolding create_share_link clean split add_parts add_part go_up join_parts has_dots
made = refl

served-create_share_link_example :
    served link.token calls (create_share_link env file_a (pos 0) (pos 2) missing).0
    ≡ min (asked link.token link.expires_at calls) 2
unfolding hex find load_share_links
served-create_share_link_example =
    served-create_share_link env file_a (pos 0) 2 missing calls link made refl (omega arith) refl
      (omega arith) (omega arith) (refl, (refl, (refl, (refl, tt))))

abbrev visit : Visit
visit = record {
  env = env;
  now = 9 * hour;
  remote_addr = b'1' ∷ b':' ∷ b'2' ∷ [];
  token = link.token;
  look_up = λ path. opened (some false);
  text = λ bytes. "text";
  error_text = λ err. "error";
}

abbrev shared : Public
shared = record { shares = holds (link ∷ []); limiter = []; audit_log = no_log }

opens_file_a : (public_share_handler visit shared).path ≡ some file_a
unfolding public_share_handler Limiter.allow lookup insert has_separator serve_token serve_answer
    serve_link resolve_share_token use_once hex find clean split add_parts add_part go_up join_parts
    has_dots client_ip
opens_file_a = refl

public_share_opens_example :
    IsAllowed visit shared
    × IsOpenedBy visit shared.shares (public_share_handler visit shared).after.shares file_a
public_share_opens_example = public_share_opens visit shared file_a opens_file_a
