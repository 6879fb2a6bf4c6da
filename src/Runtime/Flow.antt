-- ===== src/Runtime/Flow.antt =====
-- An `async` handler: it ends with a value or an exception, and what it wrote before stays.
use remote_labs.Prelude.{Bool, false, true}
use remote_labs.Runtime.Setting.{Outcome, St, Thrown, done, thrown}

abbrev pub Action : Type 0 → Type 0 → Type 0
Action L A = St L → Outcome A × St L

abbrev pub ending : {A : Type 0} → Outcome (Unit {0}) → Outcome A → Outcome A
ending (done _) r = r
ending (thrown t) r = thrown t

module _ {L A : Type 0} where
  abbrev pub pure : A → Action L A
  pure a s = (done a, s)

  abbrev pub throw : Thrown → Action L A
  throw t s = (thrown t, s)

  -- awaits a value that may be an exception
  abbrev pub settle : Outcome A → Action L A
  settle r s = (r, s)

  abbrev pub caught : Outcome A → (Thrown → Action L A) → Action L A
  caught (done a) h s = (done a, s)
  caught (thrown t) h s = h t s

  -- `try { m } catch (t) { h(t) }`
  abbrev pub try_catch : Action L A → (Thrown → Action L A) → Action L A
  try_catch m h s = caught (m s).0 h (m s).1

  -- `try { m } finally { k }`
  abbrev pub finally : Action L A → Action L (Unit {0}) → Action L A
  finally m k s = (ending (k (m s).1).0 (m s).0, (k (m s).1).1)

module _ {L A B : Type 0} where
  abbrev pub and_then : Outcome A → (A → Action L B) → Action L B
  and_then (done a) f s = f a s
  and_then (thrown t) f s = (thrown t, s)

  infixl 5 ◌>>=◌
  abbrev pub ◌>>=◌ : Action L A → (A → Action L B) → Action L B
  ◌>>=◌ m f s = and_then (m s).0 f (m s).1

module _ {L B : Type 0} where
  infixl 5 ◌>>◌
  abbrev pub ◌>>◌ : Action L (Unit {0}) → Action L B → Action L B
  ◌>>◌ m k s = and_then (m s).0 (λ _. k) (m s).1

module _ {L : Type 0} where
  -- the setters of `useState`
  abbrev pub modify : (L → L) → Action L (Unit {0})
  modify f s = (done tt, record s { local = f s.local })

  abbrev pub skip : Action L (Unit {0})
  skip s = (done tt, s)

  abbrev pub when : Bool → Action L (Unit {0}) → Action L (Unit {0})
  when true m = m
  when false m = skip

-- An action of a hook that another one uses, whose state is a part of the other's.
abbrev pub zoom : {K L A : Type 0} → (L → K) → (K → L → L) → Action K A → Action L A
zoom get put m s =
    let r = m (record { local = get s.local; world = s.world }) in
    (r.0, record { local = put r.1.local s.local; world = r.1.world })
