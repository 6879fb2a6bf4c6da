-- ===== src/Runtime/Setting.antt =====
-- What a handler can reach beyond its own hook: the server behind `fetch`, the contexts of
-- web-server/frontend/src/context, the cookie, and the log of effects.
use remote_labs.Prelude.{Bool, List, Option, String, ℕ}
use remote_labs.Js.Value.{Value}

-- A thrown value: an `Error` with its message, or anything else.
pub data Thrown : Type 0 where
  error : String → Thrown
  other : Value → Thrown

-- How an action ends.
pub data Outcome {ℓ} (A : Type ℓ) : Type ℓ where
  done : A → Outcome A
  thrown : Thrown → Outcome A

pub record Request : Type 0 where
  pub method : String
  pub url : String
  pub headers : List (String × String)
  pub body : Option Value

-- A response: reading its body as text or as JSON may fail.
pub record Reply : Type 0 where
  pub is_ok : Bool
  pub content_type : Option String
  pub text : Outcome String
  pub json : Outcome Value

pub record Toast : Type 0 where
  pub title : String
  pub description : String
  pub variant : String

pub data Event : Type 0 where
  requested : Request → Event
  toasted : Toast → Event
  alerted : String → String → Event
  -- the browser's own `alert`
  warned : String → Event
  navigated : String → Event
  cookie_set : String → Event
  cookie_removed : Event
  reloaded : Event
  -- a file that the browser saves: its name and its text
  downloaded : List ℕ → List ℕ → Event

pub record User : Type 0 where
  pub id : Value
  pub name : Value
  pub mail : Value
  pub role : Value
  pub public_ssh_keys : Value

-- The state of `AuthProvider`.
pub record Auth : Type 0 where
  pub is_logged_in : Bool
  pub user : Option User
  pub is_loading : Bool

pub record World : Type 0 where
  -- the server and the network: an answer may depend on all that went before
  pub net : List Event → Request → Outcome Reply
  -- `JSON.parse`
  pub parse : String → Outcome Value
  -- `parseInt(s) * k`, as a JSON body has it
  pub scaled_int : String → ℕ → Value
  -- the messages of the engine's `TypeError`s, by the property that is read or called
  pub type_error : String → String
  -- the translations of i18n
  pub translate : String → String
  -- `VITE_API_URL`
  pub api_url : Option String
  -- `decodeURIComponent`
  pub decode_uri : String → Outcome String
  -- `document.cookie`, and what js-cookie's `set` and `remove` make of it
  pub jar : String
  pub jar_set : String → String → String
  pub jar_remove : String → String
  -- the newest event first
  pub log : List Event
  pub auth : Auth
  -- the state of `LoadingProvider`
  pub busy : Bool

-- The state of a hook within all that it can reach.
pub record St (L : Type 0) : Type 0 where
  pub local : L
  pub world : World
