-- ===== src/Runtime/Invariants.antt =====
-- Invariants of a hook's own state: one rule for each way to build a handler.
use remote_labs.Prelude.{Bool, String, false, if◌then◌else◌, true, ℕ}
use remote_labs.Js.Value.{Value, arr, null, str, undefined}
use remote_labs.Env.{Endpoint}
use remote_labs.Runtime.Setting.{Event, Outcome, Request, St, Thrown, done, thrown}
use remote_labs.Runtime.Flow.{
  Action, caught, finally, modify, pure, settle, skip, throw, try_catch, when, ◌>>=◌, ◌>>◌,
}
use remote_labs.Runtime.Effects.{api, as_list, emit, fetch, get_prop, gets, scaled}
use remote_labs.Runtime.Rules.{and_then-keeps}

-- `m` keeps `P`, whether it ends with a value or with an exception.
pub record Keeps {L A : Type 0} (P : L → Type 0) (m : Action L A) : Type 0 where
  pub at : (s : St L) → P s.local → P (m s).1.local

module _ {L : Type 0} {P : L → Type 0} where
  pub Keeps-emit : (e : Event) → Keeps P (emit e)
  Keeps-emit e = record { at = λ s h. h }

  pub Keeps-fetch : (q : Request) → Keeps P (fetch q)
  Keeps-fetch q = record { at = λ s h. h }

  pub Keeps-api : (e : Endpoint) → Keeps P (api e)
  Keeps-api e = record { at = λ s h. h }

  pub Keeps-gets : {A : Type 0} (f : St L → A) → Keeps P (gets f)
  Keeps-gets f = record { at = λ s h. h }

  pub Keeps-scaled : (text : String) (k : ℕ) → Keeps P (scaled text k)
  Keeps-scaled text k = record { at = λ s h. h }

  pub Keeps-get_prop : (k : String) (v : Value) → Keeps P (get_prop k v)
  Keeps-get_prop k undefined = record { at = λ s h. h }
  Keeps-get_prop k null = record { at = λ s h. h }
  Keeps-get_prop k _ = record { at = λ s h. h }

  pub Keeps-skip : Keeps P skip
  Keeps-skip = record { at = λ s h. h }

  pub Keeps-modify : (f : L → L) → ((l : L) → P l → P (f l)) → Keeps P (modify f)
  Keeps-modify f k = record { at = λ s h. k s.local h }

  pub Keeps-as_list : (k : String) (v : Value) → Keeps P (as_list k v)
  Keeps-as_list k (arr vs) = record { at = λ s h. h }
  Keeps-as_list k (str x) = record { at = λ s h. h }
  Keeps-as_list k _ = record { at = λ s h. h }

  pub Keeps-check : (b : Bool) (t : Thrown) → Keeps P (when b (throw t))
  Keeps-check true t = record { at = λ s h. h }
  Keeps-check false t = record { at = λ s h. h }

module _ {L A : Type 0} {P : L → Type 0} where
  pub Keeps-settle : (r : Outcome A) → Keeps P (settle {L = L} r)
  Keeps-settle r = record { at = λ s h. h }

  pub Keeps-pure : (a : A) → Keeps P (pure {L = L} a)
  Keeps-pure a = record { at = λ s h. h }

  pub Keeps-throw : (t : Thrown) → Keeps P (throw {L = L} {A = A} t)
  Keeps-throw t = record { at = λ s h. h }

  pub Keeps-if :
      (b : Bool) (m n : Action L A) → Keeps P m → Keeps P n → Keeps P (if b then m else n)
  Keeps-if true m n k k' = k
  Keeps-if false m n k k' = k'

  pub Keeps-try_catch :
      (m : Action L A) (h : Thrown → Action L A)
      → Keeps P m
      → ((t : Thrown) → Keeps P (h t))
      → Keeps P (try_catch m h)
  Keeps-try_catch m h k c = record { at = λ s p. after (m s).0 (m s).1 (k.at s p) }
    where
      after : (r : Outcome A) (s : St L) → P s.local → P (caught r h s).1.local
      after (done a) s p = p
      after (thrown t) s p = (c t).at s p

  pub Keeps-finally :
      (m : Action L A) (e : Action L (Unit {0})) → Keeps P m → Keeps P e → Keeps P (finally m e)
  Keeps-finally m e k k' = record { at = λ s p. k'.at (m s).1 (k.at s p) }

module _ {L A B : Type 0} {P : L → Type 0} where
  pub Keeps-bind :
      (m : Action L A) (f : A → Action L B)
      → Keeps P m
      → ((a : A) → Keeps P (f a))
      → Keeps P (m >>= f)
  Keeps-bind m f k c = record {
    at = λ s p.
        and_then-keeps (λ t. P t.local) (m s).0 f (m s).1 (k.at s p)
          (λ a e. (c a).at (m s).1 (k.at s p));
  }

module _ {L B : Type 0} {P : L → Type 0} where
  pub Keeps-seq :
      (m : Action L (Unit {0})) (n : Action L B) → Keeps P m → Keeps P n → Keeps P (m >> n)
  Keeps-seq m n k k' = record {
    at = λ s p.
        and_then-keeps (λ t. P t.local) (m s).0 (λ _. n) (m s).1 (k.at s p)
          (λ a e. k'.at (m s).1 (k.at s p));
  }

pub ruleset keeps_rules = (
  Keeps-emit, Keeps-fetch, Keeps-api, Keeps-as_list, Keeps-check, Keeps-settle, Keeps-if,
  Keeps-try_catch, Keeps-finally, Keeps-bind, Keeps-seq, Keeps-gets, Keeps-scaled, Keeps-get_prop,
  Keeps-skip, Keeps-pure, Keeps-throw,
)
