-- ===== src/Status/Panel/Polled.antt =====
-- The panel of ServerStatus.tsx over the polls of useServerStatus.ts.
use remote_labs.Prelude.{
  Bool, List, Option, String, [], arith, if◌then◌else◌, is_some, length, none, refl, some, true, ℕ,
  ◌∷◌, ◌≡◌,
}
use remote_labs.Js.Value.{Value}
use remote_labs.Runtime.{Outcome, St}
use remote_labs.Markup.{Markup, text}
use remote_labs.Status.{Monitor, Percent, ServerHistory, ServerStatus}
use remote_labs.Status.Panel.{card, cards, draw}
use remote_labs.Status.Panel.Drawn.{poll_all, poll_all-draw}
use remote_labs.Status.Panel.View.{
  Figures, card_of, drawn_servers, grid, server_cards, server_status, titled, unless_failed,
}

module _ {F : Type 0} (f : Figures F) where
  card_of-card :
      (history : List (String × ServerHistory F)) (server : ServerStatus F)
      → is_some (card history server) ≡ true
      → is_some (card_of f history server) ≡ true
  card_of-card history server h = ground (arith, h)

  server_cards-cards :
      (history : List (String × ServerHistory F)) (servers : List (ServerStatus F))
      → is_some (cards history servers) ≡ true
      → is_some (server_cards f history servers) ≡ true
  server_cards-cards history [] h = refl
  server_cards-cards history (server ∷ servers) h =
      ground (arith, card_of-card history server, server_cards-cards history servers)

  drawn_lem :
      (history : List (String × ServerHistory F)) (servers : List (ServerStatus F))
      → is_some (cards history servers) ≡ true
      → is_some (drawn_servers f history servers) ≡ true
  drawn_lem history [] h = refl
  drawn_lem history (server ∷ servers) h =
      gridded (length (server ∷ servers)) _ (server_cards-cards history (server ∷ servers) h)
    where
      gridded :
          (k : ℕ) (ms : Option (List (Markup ⊥))) → is_some ms ≡ true → is_some (grid f k ms) ≡ true
      gridded k none e = absurd (cc e)
      gridded k (some ms) e = refl

  framed :
      (loading : Bool) (error_text : Option String) (m : Option (Markup ⊥))
      → is_some m ≡ true
      → is_some (
          if loading
          then some (titled f (text "Loading server status..."))
          else unless_failed f error_text m)
        ≡ true
  framed loading error_text m h = ground (arith, h)

  server_status-draw :
      (l : Monitor F) → is_some (draw l) ≡ true → is_some (server_status f l) ≡ true
  unfolding draw server_status
  server_status-draw l h =
      framed l.loading l.error_text (drawn_servers f l.history l.server_status)
        (drawn_lem l.history l.server_status h)

  -- If no server is shown at first, then after any number of polls, of which each may fail, be refused
  -- or give an array of `ServerStatus` or a body that is no array, the panel is drawn and does not
  -- throw: every server that is shown has a history.
  pub poll_all-server_status :
      (n : Percent F) (read : Value → Outcome (List (ServerStatus F))) (k : ℕ) (s : St (Monitor F))
      → s.local.server_status ≡ []
      → is_some (server_status f (poll_all n read k s).local) ≡ true
  poll_all-server_status n read k s h =
      server_status-draw (poll_all n read k s).local (poll_all-draw n read k s h)
