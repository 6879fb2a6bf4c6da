-- ===== src/Trial/Handler.antt =====
-- What the schemas and the handlers of the trial forms share, in web-server/frontend/src/hooks/forms.
use remote_labs.Prelude.{Bool, String, leb, length, not, ℕ}
use remote_labs.Js.Text.{units}
use remote_labs.Runtime.{Action, Reply, error, settle, skip, throw, try_catch, when, ◌>>=◌}

-- `z.string().min(n)`, or `nonempty` where it is 1
abbrev pub has_min : ℕ → String → Bool
has_min n s = leb n (length (units s))

module _ {L : Type 0} where
  -- The block of each handler: `console.error` is all that an exception leads to.
  abbrev pub logged : Action L (Unit {0}) → Action L (Unit {0})
  logged m = try_catch m (λ _. skip)

  abbrev pub expect_ok : Reply → Action L (Unit {0})
  expect_ok response = when (not response.is_ok) (throw (error "Network response was not ok"))

  -- `response.json()` of a value that is only logged
  abbrev pub read_json : Reply → Action L (Unit {0})
  read_json response = do data' ← settle response.json; skip
