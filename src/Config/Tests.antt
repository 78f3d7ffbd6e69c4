-- ===== src/Config/Tests.antt =====
-- The known hosts and the gate on small inputs.
use letschat.Common.{◌≡◌, ◌↔◌, refl, true, false, none, some, List, [], ◌∷◌, String}
use letschat.Config.{
  ServerConfig, ServerConfigState, unknown, initial, set_config, clear_config, request_connect,
  resolve_pending_host, partialize, merge_persisted,
}
use letschat.Config.Hosts.{
  Action, sets, requests, resolves, clears, run, IsDistinct, run-IsDistinct,
}
use letschat.Config.Gate.{
  IsTrusted, Keeps, request_connect-eq-true_iff, request_connect-Keeps, request-resolve,
  session-set-clear, merge_persisted-partialize,
}

abbrev host : String → String → ServerConfig
host auth livekit = record {
  spacetimedb_uri = "ws";
  spacetimedb_database = "db";
  auth_service_url = auth;
  livekit_url = livekit;
  upload_part_size_bytes = none;
  upload_max_file_size_bytes = none;
  daily_upload_quota_bytes = none;
  user_storage_limit_bytes = none;
  instance_storage_limit_bytes = none;
}

abbrev signed_in : ServerConfigState
signed_in = record initial {
  config = some (host "a" "l");
  known_hosts = host "a" "l" ∷ [];
  session = some "token";
}

abbrev asked : ServerConfigState
asked = record signed_in {
  pending_host = some (record { config = host "b" "l"; changes = []; reason = unknown });
}

abbrev actions : List Action
actions = sets (host "a" "x") ∷ requests (host "b" "l") true ∷ resolves true ∷ clears ∷ []

run_hosts : (run initial actions).known_hosts ≡ host "b" "l" ∷ host "a" "x" ∷ []
unfolding set_config request_connect resolve_pending_host clear_config
run_hosts = refl

run-IsDistinct_example : IsDistinct (run initial actions).known_hosts
run-IsDistinct_example = run-IsDistinct actions initial tt

request_connect-eq-true_iff_example :
    ((request_connect (host "a" "x") false signed_in).1 ≡ true)
    ↔ IsTrusted (host "a" "x") false signed_in
request_connect-eq-true_iff_example = request_connect-eq-true_iff (host "a" "x") false signed_in

request_connect-Keeps_example :
    Keeps (host "b" "l") initial (request_connect (host "b" "l") true initial)
request_connect-Keeps_example = request_connect-Keeps (host "b" "l") true initial

request-resolve_example : (resolve_pending_host true asked).0.config ≡ some (host "b" "l")
request-resolve_example =
    (request-resolve true (record { config = host "b" "l"; changes = []; reason = unknown }) asked
      refl).0

session-set-clear_example :
    (set_config (host "b" "l") (clear_config signed_in)).session ≡ some "token"
session-set-clear_example = session-set-clear (host "b" "l") signed_in

merge_persisted-partialize_example :
    merge_persisted (some (partialize signed_in)) initial
    ≡ record initial { config = some (host "a" "l"); known_hosts = host "a" "l" ∷ [] }
merge_persisted-partialize_example = merge_persisted-partialize signed_in
