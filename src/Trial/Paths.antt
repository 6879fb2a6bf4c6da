-- ===== src/Trial/Paths.antt =====
-- The trial forms that send their values in the address: those of web-server/frontend/src/hooks/forms
-- that add, remove, delete or list.
use remote_labs.Prelude.{Bool, String, concat, none, ◌&&◌}
use remote_labs.Env.{api_base_url}
use remote_labs.Runtime.{Action, api, fetch, json_request, ◌>>=◌, ◌>>◌}
use remote_labs.Trial.Handler.{expect_ok, has_min, logged, read_json}

-- `useAddUserToSubjectForm`
abbrev pub add_user_to_subject_schema : String → String → Bool
add_user_to_subject_schema subject_id user_id = has_min 1 subject_id && has_min 1 user_id

unfoldable pub add_user_to_subject_submit : {L : Type 0} → String → String → Action L (Unit {0})
add_user_to_subject_submit subject_id user_id = do
  api_url ← api api_base_url
  logged (do
    response ← fetch (
        json_request "PUT"
          (concat api_url (concat "/subjects/" (concat subject_id (concat "/add/users/" user_id))))
          none)
    expect_ok response)

-- `useRemoveUserFromSubjectForm`
abbrev pub remove_user_from_subject_schema : String → String → Bool
remove_user_from_subject_schema subject_id user_id = has_min 1 subject_id && has_min 1 user_id

unfoldable pub remove_user_from_subject_submit :
    {L : Type 0} → String → String → Action L (Unit {0})
remove_user_from_subject_submit subject_id user_id = do
  api_url ← api api_base_url
  logged (do
    response ← fetch (
        json_request "DELETE"
          (concat api_url
            (concat "/subjects/" (concat subject_id (concat "/remove/users/" user_id))))
          none)
    expect_ok response)

-- `useDeleteSubjectForm`
abbrev pub delete_subject_schema : String → Bool
delete_subject_schema subject_id = has_min 1 subject_id

unfoldable pub delete_subject_submit : {L : Type 0} → String → Action L (Unit {0})
delete_subject_submit subject_id = do
  api_url ← api api_base_url
  logged (do
    response ← fetch (json_request "DELETE" (concat api_url (concat "/subjects/" subject_id)) none)
    expect_ok response)

-- `useListAllUsersOfSubjectForm`
abbrev pub list_all_users_of_subject_schema : String → Bool
list_all_users_of_subject_schema subject_id = has_min 1 subject_id

unfoldable pub list_all_users_of_subject_submit : {L : Type 0} → String → Action L (Unit {0})
list_all_users_of_subject_submit subject_id = do
  api_url ← api api_base_url
  logged (do
    response ← fetch (
        json_request "GET" (concat api_url (concat "/subjects/" (concat subject_id "/users"))) none)
    expect_ok response
    read_json response)

-- `useDeleteUserForm`
abbrev pub delete_user_schema : String → Bool
delete_user_schema user_id = has_min 1 user_id

unfoldable pub delete_user_submit : {L : Type 0} → String → Action L (Unit {0})
delete_user_submit user_id = do
  api_url ← api api_base_url
  logged (do
    response ← fetch (json_request "DELETE" (concat api_url (concat "/users/" user_id)) none)
    expect_ok response)

-- `useListUsersInfoForm`
abbrev pub list_users_info_schema : String → Bool
list_users_info_schema user_id = has_min 1 user_id

unfoldable pub list_users_info_submit : {L : Type 0} → String → Action L (Unit {0})
list_users_info_submit user_id = do
  api_url ← api api_base_url
  logged (do
    response ← fetch (json_request "GET" (concat api_url (concat "/users/" user_id)) none)
    expect_ok response
    read_json response)

-- `useListAllSubjectsByUserForm`
abbrev pub list_all_subjects_by_user_schema : String → Bool
list_all_subjects_by_user_schema user_id = has_min 1 user_id

unfoldable pub list_all_subjects_by_user_submit : {L : Type 0} → String → Action L (Unit {0})
list_all_subjects_by_user_submit user_id = do
  api_url ← api api_base_url
  logged (do
    response ←
        fetch
          (json_request "GET" (concat api_url (concat "/users/" (concat user_id "/subjects"))) none)
    expect_ok response
    read_json response)
