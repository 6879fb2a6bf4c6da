-- ===== src/Status.antt =====
-- The monitor of the servers: web-server/frontend/src/hooks/useServerStatus.ts. Its numbers are
-- floats, so their type and the two calculations on them are parameters, and so is the reading of
-- the JSON body: `read` is the body as the `ServerStatus[]` that the source takes it for, or the
-- exception of a body that has no `forEach`. The source does not check the elements of an array, and
-- arrays of anything else are left out.
pub mod Window
pub mod Polling
pub mod Panel
use remote_labs.Prelude.{
  Bool, List, Option, String, [], drop, false, if◌then◌else◌, is_some, none, not, replicate, some,
  ℕ, ◌&&◌, ◌++◌, ◌==◌, ◌||◌, ◌∷◌,
}
use remote_labs.Js.Value.{Value, is_empty}
use remote_labs.Js.Text.{strip_prefix}
use remote_labs.Env.{api_get_server_status}
use remote_labs.Runtime.{
  Action, Outcome, api, error, fetch, finally, modify, plain_request, settle, skip, throw,
  try_catch, when, ◌>>=◌, ◌>>◌,
}

abbrev pub history_size : ℕ
history_size = 10

-- The type that the source gives to an element of the body, without a test.
pub record ServerStatus (F : Type 0) : Type 0 where
  pub server_ip : String
  pub cpu_load : F
  pub total_memory_mb : F
  pub free_memory_mb : F
  pub total_disk_mb : F
  pub free_disk_mb : F
  pub running_instances : List String

pub record ServerHistory (F : Type 0) : Type 0 where
  pub cpu : List F
  pub ram : List F
  pub disk : List F

-- `xs.shift(); xs.push(x)`
abbrev pub shift_push {ℓ} : {A : Type ℓ} → A → List A → List A
shift_push x xs = drop 1 xs ++ x ∷ []

-- The arithmetic of the page: 0, `x * 100` and `((total - free) / total) * 100`.
pub record Percent (F : Type 0) : Type 0 where
  pub nought : F
  pub times_hundred : F → F
  pub used : F → F → F

module _ {F : Type 0} (n : Percent F) where
  -- `Array(HISTORY_SIZE).fill(0)`, three times
  abbrev pub empty_history : ServerHistory F
  empty_history = record {
    cpu = replicate history_size n.nought;
    ram = replicate history_size n.nought;
    disk = replicate history_size n.nought;
  }

  abbrev pub pushed : ServerStatus F → ServerHistory F → ServerHistory F
  pushed server h = record {
    cpu = shift_push (n.times_hundred server.cpu_load) h.cpu;
    ram = shift_push (n.used server.total_memory_mb server.free_memory_mb) h.ram;
    disk = shift_push (n.used server.total_disk_mb server.free_disk_mb) h.disk;
  }

  -- The body of the loop: `historyRef.current` is a list of its keys and values.
  unfoldable pub record_server :
      ServerStatus F → List (String × ServerHistory F) → List (String × ServerHistory F)
  record_server server [] = (server.server_ip, pushed server empty_history) ∷ []
  record_server server ((ip, h) ∷ rest) =
      if ip == server.server_ip
      then (ip, pushed server h) ∷ rest
      else (ip, h) ∷ record_server server rest

  -- `data.forEach(…)`
  unfoldable pub record_all :
      List (ServerStatus F) → List (String × ServerHistory F) → List (String × ServerHistory F)
  record_all [] history = history
  record_all (server ∷ servers) history = record_all servers (record_server server history)

pub record Monitor (F : Type 0) : Type 0 where
  pub server_status : List (ServerStatus F)
  pub loading : Bool
  pub error_text : Option String
  pub history : List (String × ServerHistory F)

-- `s.includes(part)`
pub includes : String → String → Bool
includes part String.[] = is_some (strip_prefix part "")
includes part (String.◌∷◌ c s) = is_some (strip_prefix part (String.◌∷◌ c s)) || includes part s

-- `!contentType || !contentType.includes('application/json')`, and not that
abbrev pub is_json : Option String → Bool
is_json none = false
is_json (some t) = not (is_empty t) && includes "application/json" t

module _ {F : Type 0} (n : Percent F) (read : Value → Outcome (List (ServerStatus F))) where
  unfoldable pub fetch_server_status : Action (Monitor F) (Unit {0})
  unfolding includes strip_prefix
  fetch_server_status =
      finally
        (try_catch
          (do
            url ← api api_get_server_status
            response ← fetch (plain_request "GET" url)
            if response.is_ok then skip else (do
              error_text ← settle response.text
              throw (error "Failed to fetch server status"))
            when (not (is_json response.content_type)) (throw (error "Invalid response format"))
            data' ← settle response.json
            servers ← settle (read data')
            modify (λ l. record l { history = record_all n servers l.history })
            modify (λ l. record l { server_status = servers; error_text = none }))
          (λ _. modify (λ l. record l {
            error_text = some "Servers are currently unavailable for status monitoring";
          })))
        (modify (λ l. record l { loading = false }))
