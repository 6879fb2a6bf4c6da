-- ===== src/Roster.antt =====
-- The lists of users, and the changes to them: web-server/frontend/src/hooks/useSubjectUsers.ts and
-- useUsers.ts, and the list of machines of one user, useUserInstances.ts.
pub mod Changes
pub mod Members
pub mod Accounts
use remote_labs.Prelude.{Bool, Option, String, concat, false, if◌then◌else◌, none, not, some, true}
use remote_labs.Js.Value.{Value, arr, is_empty, nil, or_else}
use remote_labs.Js.Text.{replace}
use remote_labs.Env.{
  Endpoint, api_base_url, api_enroll_user_in_subject, api_remove_user_from_subject,
}
use remote_labs.Runtime.{
  Action, Request, Result, Thrown, api, error, failed, fetch, finally, message_or, modify,
  plain_request, pure, settle, succeeded, throw, try_catch, when, ◌>>=◌, ◌>>◌,
}

-- `rows` is the state `users`, or `instances`, as the server sent it.
pub record Roster : Type 0 where
  pub rows : Value
  pub loading : Bool
  pub error_text : Option String

abbrev pub set_loading : Bool → Action Roster (Unit {0})
set_loading b = modify (λ l. record l { loading = b })

abbrev pub set_rows : Value → Action Roster (Unit {0})
set_rows rows = modify (λ l. record l { rows = rows })

abbrev pub set_error : Thrown → Action Roster (Unit {0})
set_error t = modify (λ l. record l { error_text = some (message_or "Unknown error" t) })

abbrev pub start_loading : Action Roster (Unit {0})
start_loading = modify (λ l. record l { loading = true; error_text = none })

-- `fetchUsers` of `useSubjectUsers`
unfoldable pub fetch_subject_users : String → Action Roster (Unit {0})
fetch_subject_users subject_id = do
  start_loading
  finally
      (try_catch
        (do
          base ← api api_base_url
          response ←
              fetch (
                plain_request "GET"
                  (concat base (concat "/subjects/" (concat subject_id "/users"))))
          when (not response.is_ok) (throw (error "Failed to fetch subject users"))
          data' ← settle response.json
          set_rows data')
        set_error)
      (set_loading false)

-- `fetchUsers` of `useUsers`
unfoldable pub fetch_users : Action Roster (Unit {0})
fetch_users = do
  start_loading
  finally
      (try_catch
        (do
          base ← api api_base_url
          response ← fetch (plain_request "GET" (concat base "/users"))
          when (not response.is_ok) (throw (error "Failed to fetch users"))
          data' ← settle response.json
          set_rows data')
        set_error)
      (set_loading false)

-- `useUserInstances`
unfoldable pub fetch_instances : String → Action Roster (Unit {0})
fetch_instances user_id = do
  start_loading
  finally
      (try_catch
        (do
          base ← api api_base_url
          response ← fetch (plain_request "GET" (concat base (concat "/instances/status/" user_id)))
          when (not response.is_ok) (throw (error "Failed to fetch user instances"))
          data' ← settle response.json
          set_rows (or_else data' (arr nil)))
        (λ t. do set_error t; set_rows (arr nil)))
      (set_loading false)

-- A change of the list: the request, the text for an empty refusal, and the reload.
unfoldable pub change :
    Action Roster Request → String → Action Roster (Unit {0}) → Action Roster Result
change request refusal reload =
    try_catch
      (do
        q ← request
        response ← fetch q
        if not response.is_ok
            then (do
              error_text ← settle response.text
              pure (failed (if is_empty error_text then refusal else error_text)))
            else (do reload; pure succeeded))
      (λ t. pure (failed (message_or "Unknown error" t)))

-- The address of a user of a subject, for enrolling or removing.
abbrev pub member_request : Endpoint → String → String → String → Action Roster Request
member_request e method subject_id user_email = do
  pattern' ← api e
  pure (
      plain_request method
        (replace (replace pattern' "{subjectId}" subject_id) "{userEmail}" user_email))

unfoldable pub add_user : String → String → Action Roster Result
add_user subject_id user_email =
    change (member_request api_enroll_user_in_subject "PUT" subject_id user_email)
      "Failed to add user" (fetch_subject_users subject_id)

unfoldable pub remove_user : String → String → Action Roster Result
remove_user subject_id user_mail =
    change (member_request api_remove_user_from_subject "DELETE" subject_id user_mail)
      "Failed to remove user" (fetch_subject_users subject_id)

-- `deleteUser` of `useUsers`
unfoldable pub delete_user : String → Action Roster Result
delete_user user_id =
    change
      (do
        base ← api api_base_url
        pure (plain_request "DELETE" (concat base (concat "/users/delete/" user_id))))
      "Failed to delete user" fetch_users
