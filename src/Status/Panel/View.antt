-- ===== src/Status/Panel/View.antt =====
-- The panel of the servers as it is drawn: web-server/frontend/src/components/controlplane/
-- ServerStatus.tsx. A chart is an element with its data; its colours and gradients are left out. Nothing can
-- be pressed.
use remote_labs.Prelude.{
  List, Option, String, [], concat, if◌then◌else◌, length, none, some, ℕ, ◌∷◌,
}
use remote_labs.Js.Value.{is_empty, num}
use remote_labs.Js.Text.{to_text}
use remote_labs.Markup.{Markup, all, attr, each, element, text}
use remote_labs.Status.{Monitor, ServerHistory, ServerStatus}
use remote_labs.Status.Panel.{clean_server_ip, grid_cols, history_at}

-- How the page writes numbers: `(x * 100).toFixed(1)`, `(x / 1024).toFixed(1)`,
-- `((x - y) / 1024).toFixed(1)`, and a chart's data.
pub record Figures (F : Type 0) : Type 0 where
  pub percent : F → String
  pub gigabytes : F → String
  pub used_gigabytes : F → F → String
  pub plotted : List F → String

module _ {F : Type 0} (n : Figures F) where
  abbrev pub titled : Markup ⊥ → Markup ⊥
  titled m = element "div" [] (all (element "h2" [] (text "Server Status") ∷ m ∷ []))

  abbrev pub chart : String → String → List F → Markup ⊥
  chart label shown values = all (
      element "div" [] (text label)
      ∷ element "div" [] (text shown)
      ∷ element "AreaChart" (attr "data" (n.plotted values) ∷ []) (element "Tooltip" [] (text ""))
      ∷ [])

  abbrev pub instances_of : List String → Markup ⊥
  instances_of [] = element "div" [] (text "No instances running")
  instances_of (i ∷ is) = each (λ instance'. element "span" [] (text instance')) (i ∷ is)

  abbrev pub server_card : ServerStatus F → ServerHistory F → Markup ⊥
  server_card server h = element "Card" [] (
      all (
        element "h3" [] (text (concat "Server: " (clean_server_ip server.server_ip)))
        ∷ chart "CPU Usage" (concat (n.percent server.cpu_load) "%") h.cpu
        ∷ chart "RAM Usage"
            (concat (n.used_gigabytes server.total_memory_mb server.free_memory_mb)
              (concat " / " (concat (n.gigabytes server.total_memory_mb) " GB")))
            h.ram
        ∷ chart "Disk Usage"
            (concat (n.used_gigabytes server.total_disk_mb server.free_disk_mb)
              (concat " / " (concat (n.gigabytes server.total_disk_mb) " GB")))
            h.disk
        ∷ element "div" [] (
            text (
              concat "Running Instances ("
                (concat (to_text (num (length server.running_instances))) ")")))
        ∷ instances_of server.running_instances
        ∷ []))

  abbrev pub next_card : Option (Markup ⊥) → Option (List (Markup ⊥)) → Option (List (Markup ⊥))
  next_card none ms = none
  next_card (some m) none = none
  next_card (some m) (some ms) = some (m ∷ ms)

  abbrev pub card_of : List (String × ServerHistory F) → ServerStatus F → Option (Markup ⊥)
  card_of history server = elim (history_at server.server_ip history) [
    | none ↦ none
    | some h ↦ some (server_card server h)
  ]

  -- `serverStatus.map(…)`, which throws at a server without a history
  abbrev pub server_cards :
      List (String × ServerHistory F) → List (ServerStatus F) → Option (List (Markup ⊥))
  server_cards history [] = some []
  server_cards history (server ∷ servers) =
      next_card (card_of history server) (server_cards history servers)

  abbrev pub grid : ℕ → Option (List (Markup ⊥)) → Option (Markup ⊥)
  grid servers none = none
  grid servers (some ms) =
      some (titled (element "div" (attr "className" (grid_cols servers) ∷ []) (all ms)))

  abbrev pub drawn_servers :
      List (String × ServerHistory F) → List (ServerStatus F) → Option (Markup ⊥)
  drawn_servers history [] = some (titled (text "No servers available"))
  drawn_servers history (server ∷ servers) =
      grid (length (server ∷ servers)) (server_cards history (server ∷ servers))

  abbrev pub unless_failed : Option String → Option (Markup ⊥) → Option (Markup ⊥)
  unless_failed none m = m
  unless_failed (some e) m = if is_empty e then m else some (titled (element "p" [] (text e)))

  -- `ServerStatus`: the page, or nothing if it throws
  unfoldable pub server_status : Monitor F → Option (Markup ⊥)
  server_status l =
      if l.loading
      then some (titled (text "Loading server status..."))
      else unless_failed l.error_text (drawn_servers l.history l.server_status)
