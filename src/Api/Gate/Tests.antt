-- ===== src/Api/Gate/Tests.antt =====
-- A request with a session, at the gate of internal/api/router.go.
use kilasos.Common.{◌*◌, ◌≡◌, refl, true, none, [], lookup, insert, find, ◌++◌, update_first}
use kilasos.Common.Int.{pos}
use kilasos.Common.Time.{hour, add}
use kilasos.Auth.Password.{hex, gen_token}
use kilasos.Auth.Samples.{lib}
use kilasos.Auth.Users.State.{UserStore, save, save_sessions}
use kilasos.Auth.Users.Sessions.{start_session, validate_token}
use kilasos.Auth.Users.Samples.{at_noon, bob, with_bob}
use kilasos.Auth.Users.Consistency.Backing.{IsConsistent}
use kilasos.Api.Gate.{Daemon, Request, bearer, trim_prefix, presented, passed, auth_middleware}
use kilasos.Api.Gate.Entrance.{Entrance, passed_means}

abbrev bob_in : UserStore
bob_in = (start_session at_noon "bob" bob "local" with_bob).0

abbrev daemon : Daemon
daemon = record {
  static_token = [];
  users = bob_in;
  api_keys = none;
  audit_log = record { entries = []; retention_days = pos 0; anonymize_ip = true };
  limiter = [];
}

abbrev request : Request
request = record {
  authorization = bearer ++ gen_token at_noon.token_bytes;
  query_token = [];
  method = "POST";
  remote_addr = "10.0.0.7";
}

bob_backed : IsConsistent bob_in
unfolding start_session save save_sessions insert find update_first
bob_backed = record { backed = (refl, tt) }

bob_passes : (auth_middleware lib (13 * hour) true request daemon).1 ≡ passed "bob" "user"
unfolding auth_middleware presented trim_prefix start_session save save_sessions insert lookup
    gen_token hex validate_token add update_first
bob_passes = refl

passed_means_example : Entrance lib (13 * hour) true request daemon "bob" "user"
passed_means_example =
    passed_means lib (13 * hour) true request daemon "bob" "user" bob_backed bob_passes
