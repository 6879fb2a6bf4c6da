-- ===== src/Subject.antt =====
-- Subjects: web-server/frontend/src/hooks/useDeleteSubject.ts and useSubjects.ts.
pub mod Deletion
pub mod Listing
pub mod Removal
pub mod View
pub mod Reads
pub mod Page
use remote_labs.Prelude.{Bool, Option, String, false, if◌then◌else◌, none, not, some, true}
use remote_labs.Js.Value.{Value, is_empty, null, prop, str, truthy}
use remote_labs.Js.Text.{replace, to_text}
use remote_labs.Env.{api_delete_subject}
use remote_labs.Runtime.{
  Action, Outcome, Reply, Thrown, api, done, error, fetch, finally, gets, json_request, modify,
  other, skip, throw, thrown, try_catch, ◌>>=◌, ◌>>◌,
}

pub record DeleteSubject : Type 0 where
  pub is_loading : Bool
  pub error_value : Value

abbrev pub set_error : Value → Action DeleteSubject (Unit {0})
set_error v = modify (λ l. record l { error_value = v })

-- `parsed.error` of a body that is not empty and parses, where it is truthy
abbrev pub told : Outcome Value → Option Value
told (thrown t) = none
told (done parsed) =
    if truthy parsed
    then elim (prop "error" parsed) [ none ↦ none | some v ↦ if truthy v then some v else none ]
    else none

abbrev pub default_message : String
default_message = "Failed to delete subject"

abbrev pub body_of : Outcome String → String
body_of (done text) = text
body_of (thrown t) = "[Error reading body]"

abbrev pub value_or : Value → Option Value → Value
value_or v none = v
value_or v (some w) = w

-- The message of a refused deletion.
unfoldable pub refusal : (String → Outcome Value) → Reply → Value
refusal parse r = value_or (str default_message) (told (parse (body_of r.text)))

-- The handler's `catch`
unfoldable pub deletion_failed : Thrown → Action DeleteSubject (Unit {0})
deletion_failed (error m) = do
  set_error (str (if is_empty m then default_message else m))
  throw (error m)
deletion_failed (other v) = do set_error (str default_message); throw (error default_message)

unfoldable pub delete_subject : String → Action DeleteSubject (Unit {0})
delete_subject subject_id = do
  modify (λ l. record l { is_loading = true })
  set_error null
  pattern' ← api api_delete_subject
  finally
      (try_catch
        (do
          response ← fetch (json_request "DELETE" (replace pattern' "{id}" subject_id) none)
          parse ← gets (λ s. s.world.parse)
          if not response.is_ok
              then (do
                set_error (refusal parse response)
                throw (error (to_text (refusal parse response))))
              else skip)
        deletion_failed)
      (modify (λ l. record l { is_loading = false }))
