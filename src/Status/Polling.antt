-- ===== src/Status/Polling.antt =====
-- How one poll of useServerStatus.ts ends.
use remote_labs.Prelude.{List, Option, arith, false, if◌then◌else◌, none, some, ◌&&◌, ◌≡◌}
use remote_labs.Js.Value.{Value}
use remote_labs.Env.{api_get_server_status, get_env}
use remote_labs.Runtime.{Outcome, Reply, St, done, plain_request, thrown}
use remote_labs.Status.{Monitor, Percent, ServerStatus, fetch_server_status, is_json, record_all}

module _ {F : Type 0} (n : Percent F) (read : Value → Outcome (List (ServerStatus F))) where
  -- The servers of a usable answer: accepted, of the JSON type, and readable.
  abbrev pub usable : Outcome Reply → Option (List (ServerStatus F))
  usable (thrown t) = none
  usable (done r) =
      if r.is_ok && is_json r.content_type
      then elim r.json [
        | thrown t ↦ none
        | done v ↦ elim (read v) [ thrown t ↦ none | done servers ↦ some servers ]
      ]
      else none

  -- A poll always ends without an exception and with the loading over. A usable answer is shown, enters
  -- the history and clears the error; any other answer leaves the servers and the history as they were
  -- and sets the error.
  pub poll_lem :
      (s : St (Monitor F))
      → let r = fetch_server_status n read s in
        let answer =
          s.world.net s.world.log
            (plain_request "GET" (get_env s.world.api_url api_get_server_status)) in
        (r.0 ≡ done tt)
        × (r.1.local ≡ elim (usable answer) [
          | none ↦ record s.local {
            loading = false;
            error_text = some "Servers are currently unavailable for status monitoring";
          }
          | some servers ↦ record {
            server_status = servers;
            loading = false;
            error_text = none;
            history = record_all n servers s.local.history;
          }
        ])
  unfolding fetch_server_status
  poll_lem s = ground arith
