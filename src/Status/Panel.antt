-- ===== src/Status/Panel.antt =====
-- What is drawn of the servers: web-server/frontend/src/components/controlplane/ServerStatus.tsx. A
-- server without a history would break the page.
pub mod Drawn
pub mod View
pub mod Polled
use remote_labs.Prelude.{
  Bool, List, Option, String, [], code, if◌then◌else◌, leb, nat_eq, none, not, some, true, ℕ, ◌&&◌,
  ◌==◌, ◌∷◌,
}
use remote_labs.Js.Value.{is_empty}
use remote_labs.Js.Text.{strip_prefix}
use remote_labs.Status.{Monitor, ServerHistory, ServerStatus}

-- `/^https?:\/\//` taken off
abbrev pub without_scheme : String → String
without_scheme ip = elim (strip_prefix "http://" ip) [
  | some rest ↦ rest
  | none ↦ elim (strip_prefix "https://" ip) [ some rest ↦ rest | none ↦ ip ]
]

-- One digit or more, and nothing behind them.
abbrev pub only_digits : String → Bool
only_digits String.[] = true
only_digits (String.◌∷◌ c s) = leb b'0' (code c) && leb (code c) b'9' && only_digits s

-- `/:\d+$/` taken off: the first colon behind which there are only digits.
unfoldable pub without_port : String → String
without_port String.[] = ""
without_port (String.◌∷◌ c s) =
    let rest = without_port s in
    if nat_eq (code c) b':' && not (is_empty s) && only_digits s then "" else String.◌∷◌ c rest

unfoldable pub clean_server_ip : String → String
unfolding strip_prefix without_port
clean_server_ip ip = without_port (without_scheme ip)

-- The columns of the grid.
abbrev pub grid_cols : ℕ → String
grid_cols servers =
    if leb servers 2 then "grid-cols-1" else if leb servers 4 then "grid-cols-2" else "grid-cols-3"

module _ {F : Type 0} where
  -- `history[server.serverIp]`, whose fields are read next: a missing one is an exception.
  abbrev pub history_at : String → List (String × ServerHistory F) → Option (ServerHistory F)
  history_at ip [] = none
  history_at ip (e ∷ rest) = if e.0 == ip then some e.1 else history_at ip rest

  -- A card's title, and its three charts.
  abbrev pub card :
      List (String × ServerHistory F) → ServerStatus F → Option (String × ServerHistory F)
  card history server = elim (history_at server.server_ip history) [
    | none ↦ none
    | some h ↦ some (clean_server_ip server.server_ip, h)
  ]

  abbrev pub add_card :
      Option (String × ServerHistory F)
      → Option (List (String × ServerHistory F))
      → Option (List (String × ServerHistory F))
  add_card none cs = none
  add_card (some c) none = none
  add_card (some c) (some cs) = some (c ∷ cs)

  -- The cards of all servers, if none of them throws.
  abbrev pub cards :
      List (String × ServerHistory F)
      → List (ServerStatus F)
      → Option (List (String × ServerHistory F))
  cards history [] = some []
  cards history (server ∷ servers) = add_card (card history server) (cards history servers)

  unfoldable pub draw : Monitor F → Option (List (String × ServerHistory F))
  draw l = cards l.history l.server_status
