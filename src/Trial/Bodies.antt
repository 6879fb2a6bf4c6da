-- ===== src/Trial/Bodies.antt =====
-- The trial forms that send their values as a body: useCreateUserForm.ts, useCreateProfessorFrom.ts,
-- useCreateSubjectForm.ts and useValidateUserForm.ts of web-server/frontend/src/hooks/forms.
use remote_labs.Prelude.{Bool, String, [], some, ◌&&◌, ◌∷◌}
use remote_labs.Js.Value.{obj, str}
use remote_labs.Env.{api_create_professor, api_create_subject, api_create_user, api_validate_user}
use remote_labs.Runtime.{Action, api, fetch, fields, json_request, ◌>>=◌, ◌>>◌}
use remote_labs.Trial.Handler.{expect_ok, has_min, logged, read_json}

-- `useCreateUserForm`
abbrev pub create_user_schema : (String → Bool) → String → String → String → Bool
create_user_schema is_email name mail password =
    has_min 2 name && is_email mail && has_min 6 password

unfoldable pub create_user_submit : {L : Type 0} → String → String → String → Action L (Unit {0})
create_user_submit name mail password = do
  api_url ← api api_create_user
  logged (do
    response ← fetch (
        json_request "POST" api_url (
          some (
            obj (
              fields (("name", str name) ∷ ("mail", str mail) ∷ ("password", str password) ∷ [])))))
    expect_ok response)

-- `useCreateProfessorForm`
abbrev pub create_professor_schema : (String → Bool) → String → String → Bool
create_professor_schema is_email name mail = has_min 2 name && is_email mail

unfoldable pub create_professor_submit : {L : Type 0} → String → String → Action L (Unit {0})
create_professor_submit name mail = do
  api_url ← api api_create_professor
  logged (do
    response ← fetch (
        json_request "POST" api_url
          (some (obj (fields (("name", str name) ∷ ("mail", str mail) ∷ [])))))
    expect_ok response
    read_json response)

-- `useCreateSubjectForm`
abbrev pub create_subject_schema : (String → Bool) → String → String → String → Bool
create_subject_schema is_email name subject_code professor_mail =
    has_min 2 name && has_min 1 subject_code && is_email professor_mail

unfoldable pub create_subject_submit : {L : Type 0} → String → String → String → Action L (Unit {0})
create_subject_submit name subject_code professor_mail = do
  api_url ← api api_create_subject
  logged (do
    response ← fetch (
        json_request "POST" api_url (
          some (
            obj (
              fields (
                ("name", str name)
                ∷ ("code", str subject_code)
                ∷ ("professorMail", str professor_mail)
                ∷ [])))))
    expect_ok response)

-- `useValidateUserForm`
abbrev pub validate_user_schema : (String → Bool) → String → String → Bool
validate_user_schema is_email mail password = is_email mail && has_min 6 password

unfoldable pub validate_user_submit : {L : Type 0} → String → String → Action L (Unit {0})
validate_user_submit mail password = do
  api_url ← api api_validate_user
  logged (do
    response ← fetch (
        json_request "POST" api_url
          (some (obj (fields (("mail", str mail) ∷ ("password", str password) ∷ [])))))
    expect_ok response)
