-- ===== src/Markup/Visit.antt =====
-- A visit of a page: a sequence of events, each of which the page offers when it is set off, and whose
-- handler has ended before the next.
use remote_labs.Prelude.{◌≡◌}
use remote_labs.Runtime.{Action, St}
use remote_labs.Markup.{Markup, Offers}

module _ {E L : Type 0} (view : L → Markup E) (respond : E → L → Action L (Unit {0})) where
  pub data Visit (s : St L) : St L → Type 0 where
    opened : Visit s s
    after :
        {t u : St L}
        → Visit s t
        → (e : E) → Offers (view t.local) e
        → (respond e t.local t).1 ≡ u
        → Visit s u
