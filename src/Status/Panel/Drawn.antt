-- ===== src/Status/Panel/Drawn.antt =====
-- The page of the servers can be drawn at any time.
use remote_labs.Prelude.{
  All, List, Option, String, [], arith, eq_iff, eq_refl, false, is_some, none, refl, some, suc,
  true, zero, ℕ, ◌==◌, ◌||◌, ◌∷◌, ◌≡◌,
}
use remote_labs.Js.Value.{Value}
use remote_labs.Env.{api_get_server_status, get_env}
use remote_labs.Runtime.{Outcome, St, plain_request}
use remote_labs.Status.{
  Monitor, Percent, ServerHistory, ServerStatus, fetch_server_status, record_all, record_server,
}
use remote_labs.Status.Polling.{poll_lem, usable}
use remote_labs.Status.Panel.{cards, draw, history_at}

-- Every server of the list has a history.
abbrev pub AllKept : {F : Type 0} → List (String × ServerHistory F) → List (ServerStatus F) → Type 0
AllKept history servers =
    All (λ server. is_some (history_at server.server_ip history) ≡ true) servers

module _ {F : Type 0} (n : Percent F) where
  history_at-record_server :
      (ip : String) (server : ServerStatus F) (history : List (String × ServerHistory F))
      → is_some (history_at ip (record_server n server history))
        ≡ (is_some (history_at ip history) || server.server_ip == ip)
  unfolding record_server
  history_at-record_server ip server [] = ground arith
  history_at-record_server ip server (e ∷ rest) = ground (
    arith,
    eq_iff e.0 ip,
    eq_iff e.0 server.server_ip,
    eq_iff server.server_ip ip,
    history_at-record_server ip server rest,
  )

  history_at-record_all :
      (ip : String) (servers : List (ServerStatus F)) (history : List (String × ServerHistory F))
      → is_some (history_at ip history) ≡ true
      → is_some (history_at ip (record_all n servers history)) ≡ true
  unfolding record_all
  history_at-record_all ip [] history h = h
  history_at-record_all ip (server ∷ servers) history h =
      history_at-record_all ip servers (record_server n server history)
        (ground (arith, history_at-record_server ip server history))

  AllKept-record_all :
      (servers : List (ServerStatus F)) (history : List (String × ServerHistory F))
      → AllKept (record_all n servers history) servers
  unfolding record_all
  AllKept-record_all [] history = tt
  AllKept-record_all (server ∷ servers) history = (
    history_at-record_all server.server_ip servers (record_server n server history) (
        ground (
          arith,
          history_at-record_server server.server_ip server history,
          eq_refl server.server_ip,
        )),
    AllKept-record_all servers (record_server n server history),
  )

cards_kept :
    {F : Type 0} (history : List (String × ServerHistory F)) (servers : List (ServerStatus F))
    → AllKept history servers
    → is_some (cards history servers) ≡ true
cards_kept history [] h = refl
cards_kept history (server ∷ servers) h = ground (arith, h.0, cards_kept history servers h.1)

module _ {F : Type 0} (n : Percent F) (read : Value → Outcome (List (ServerStatus F))) where
  -- The polls of the interval.
  abbrev pub poll_all : ℕ → St (Monitor F) → St (Monitor F)
  poll_all zero s = s
  poll_all (suc k) s = poll_all k (fetch_server_status n read s).1

  poll-AllKept :
      (s : St (Monitor F))
      → AllKept s.local.history s.local.server_status
      → let l = (fetch_server_status n read s).1.local in AllKept l.history l.server_status
  poll-AllKept s h = rw (poll_lem n read s).1 (
      shown (
        usable n read (
          s.world.net s.world.log
            (plain_request "GET" (get_env s.world.api_url api_get_server_status)))))
    where
      shown :
          (answer : Option (List (ServerStatus F)))
          → let l : Monitor F = elim answer [
            | none ↦ record s.local {
              loading = false;
              error_text = some "Servers are currently unavailable for status monitoring";
            }
            | some servers ↦ record {
              server_status = servers;
              loading = false;
              error_text = none;
              history = record_all n servers s.local.history;
            }
          ] in
            AllKept l.history l.server_status
      shown none = h
      shown (some servers) = AllKept-record_all n servers s.local.history

  poll_all-AllKept :
      (k : ℕ) (s : St (Monitor F))
      → AllKept s.local.history s.local.server_status
      → let l = (poll_all k s).local in AllKept l.history l.server_status
  poll_all-AllKept zero s h = h
  poll_all-AllKept (suc k) s h =
      poll_all-AllKept k (fetch_server_status n read s).1 (poll-AllKept s h)

  -- After any number of polls, as long as each array that is answered is one of `ServerStatus`, the
  -- page can be drawn: every server that is shown has a history. At first no server is shown.
  pub poll_all-draw :
      (k : ℕ) (s : St (Monitor F))
      → s.local.server_status ≡ []
      → is_some (draw (poll_all k s).local) ≡ true
  unfolding draw
  poll_all-draw k s h =
      let l = (poll_all k s).local in
      cards_kept l.history l.server_status (poll_all-AllKept k s (rw h tt))
