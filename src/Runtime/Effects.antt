-- ===== src/Runtime/Effects.antt =====
-- The effects of the handlers: `fetch`, toasts, alerts, navigation, cookies and contexts.
use remote_labs.Prelude.{
  Bool, List, Option, String, [], false, if◌then◌else◌, none, not, some, true, ℕ, ◌==◌, ◌∷◌,
}
use remote_labs.Js.Value.{
  Fields, Value, arr, end, field, list_of, nil, obj, prop, str, truthy, undefined,
}
use remote_labs.Env.{Endpoint, get_env}
use remote_labs.Runtime.Setting.{
  Auth, Event, Outcome, Reply, Request, St, Thrown, Toast, User, World, alerted, cookie_removed,
  cookie_set, done, error, navigated, other, reloaded, requested, thrown, toasted, warned,
}
use remote_labs.Runtime.Flow.{Action, pure, ◌>>=◌}

-- `err instanceof Error ? err.message : text`
abbrev pub message_or : String → Thrown → String
message_or text (error m) = m
message_or text (other v) = text

abbrev pub json_headers : List (String × String)
json_headers = ("Content-Type", "application/json") ∷ []

abbrev pub note : Event → World → World
note e w = record w { log = e ∷ w.log }

-- A request with the JSON content type, and with a JSON body or none.
abbrev pub json_request : String → String → Option Value → Request
json_request method url body = record {
  method = method;
  url = url;
  headers = json_headers;
  body = body;
}

-- `fetch(url, { method })`, and `fetch(url)` where the method is GET
abbrev pub plain_request : String → String → Request
plain_request method url = record { method = method; url = url; headers = []; body = none }

abbrev pub is_thrown {ℓ} : {A : Type ℓ} → Outcome A → Bool
is_thrown (done a) = false
is_thrown (thrown t) = true

-- `JSON.stringify` takes an object of these fields.
abbrev pub fields : List (String × Value) → Fields
fields [] = end
fields ((k, v) ∷ kvs) = field k v (fields kvs)

-- The fields that `{ ...v }` copies; what is spread is an object.
abbrev pub spread : Value → Fields
spread (obj fs) = fs
spread v = end

-- `v === text`
abbrev pub is_text : String → Value → Bool
is_text text (str s) = s == text
is_text text v = false

-- `user?.id`
abbrev pub id_of : Option User → Value
id_of none = undefined
id_of (some u) = u.id

abbrev pub mail_of : Option User → Value
mail_of none = undefined
mail_of (some u) = u.mail

abbrev pub keys_of : Option User → Value
keys_of none = undefined
keys_of (some u) = u.public_ssh_keys

-- `!user?.publicSshKeys || user.publicSshKeys.length === 0`
abbrev pub lacks_keys : Option User → Bool
lacks_keys user = elim (keys_of user) [ arr nil ↦ true | v ↦ not (truthy v) ]

-- The result `{ ok: true }`, or `{ ok: false, error: text }`.
pub data Result : Type 0 where
  succeeded : Result
  failed : String → Result

-- The server accepted a request.
abbrev pub accepted : Outcome Reply → Bool
accepted (done r) = r.is_ok
accepted (thrown t) = false

-- The requests of a log.
abbrev pub requests : List Event → List Request
requests [] = []
requests (requested q ∷ es) = q ∷ requests es
requests (_ ∷ es) = requests es

module _ {L : Type 0} where
  abbrev pub emit : Event → Action L (Unit {0})
  emit e s = (done tt, record s { world = note e s.world })

  abbrev pub fetch : Request → Action L Reply
  fetch q s = (s.world.net s.world.log q, record s { world = note (requested q) s.world })

  -- a `fetch` whose answer is awaited later
  abbrev pub send : Request → Action L (Outcome Reply)
  send q s = (done (s.world.net s.world.log q), record s { world = note (requested q) s.world })

  -- `parseInt(text) * k`
  abbrev pub scaled : String → ℕ → Action L Value
  scaled text k s = (done (s.world.scaled_int text k), s)

  abbrev pub toast : Toast → Action L (Unit {0})
  toast t = emit (toasted t)

  abbrev pub show_alert : String → String → Action L (Unit {0})
  show_alert title description = emit (alerted title description)

  -- `alert(text)`
  abbrev pub warn : String → Action L (Unit {0})
  warn text = emit (warned text)

  -- `window.location.reload()`
  abbrev pub reload : Action L (Unit {0})
  reload = emit reloaded

  abbrev pub navigate : String → Action L (Unit {0})
  navigate route = emit (navigated route)

  -- `Cookies.set('userId', v)`
  abbrev pub set_cookie : String → Action L (Unit {0})
  set_cookie v s = (
    done tt,
    record s {
      world = record (note (cookie_set v) s.world) { jar = s.world.jar_set s.world.jar v };
    },
  )

  -- `Cookies.remove('userId')`
  abbrev pub remove_cookie : Action L (Unit {0})
  remove_cookie s = (
    done tt,
    record s {
      world = record (note cookie_removed s.world) { jar = s.world.jar_remove s.world.jar };
    },
  )

  abbrev pub set_auth : (Auth → Auth) → Action L (Unit {0})
  set_auth f s = (done tt, record s { world = record s.world { auth = f s.world.auth } })

  -- `setLoading` of `LoadingContext`
  abbrev pub set_busy : Bool → Action L (Unit {0})
  set_busy b s = (done tt, record s { world = record s.world { busy = b } })

  abbrev pub gets : {A : Type 0} → (St L → A) → Action L A
  gets f s = (done (f s), s)

  abbrev pub api : Endpoint → Action L String
  api e s = (done (get_env s.world.api_url e), s)

  -- `v.k`
  abbrev pub get_prop : String → Value → Action L Value
  get_prop k v s = elim (prop k v) [
    | none ↦ (thrown (error (s.world.type_error k)), s)
    | some w ↦ (done w, s)
  ]

  -- `t(text)`
  abbrev pub translated : String → Action L String
  translated text s = (done (s.world.translate text), s)

  -- The parts of an array, for a method that only arrays have.
  abbrev pub as_list : String → Value → Action L (List Value)
  as_list method (arr vs) s = (done (list_of vs), s)
  as_list method v s = (thrown (error (s.world.type_error method)), s)

  -- `xs.map(f)` where `f` may throw
  unfoldable pub map_each : (Value → Action L Value) → List Value → Action L (List Value)
  map_each f [] = pure []
  map_each f (v ∷ vs) = do w ← f v; ws ← map_each f vs; pure (w ∷ ws)

  -- `xs.filter(f)` where `f` may throw
  unfoldable pub filter_each : (Value → Action L Bool) → List Value → Action L (List Value)
  filter_each f [] = pure []
  filter_each f (v ∷ vs) = do keep ← f v; ws ← filter_each f vs; pure (if keep then v ∷ ws else ws)
