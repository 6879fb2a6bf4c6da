-- ===== src/Trial.antt =====
-- The forms that try out the API: the hooks of web-server/frontend/src/hooks/forms but those of the
-- session. Each has a schema that its values must pass, and a handler that sends one request; whether
-- a text is an e-mail address is decided by the schema library.
pub mod Handler
pub mod Bodies
pub mod Paths
pub mod Laws
use remote_labs.Prelude.{Bool, String, if◌then◌else◌}
use remote_labs.Runtime.{Action, skip}
use remote_labs.Trial.Bodies.{
  create_professor_schema, create_professor_submit, create_subject_schema, create_subject_submit,
  create_user_schema, create_user_submit, validate_user_schema, validate_user_submit,
}
use remote_labs.Trial.Paths.{
  add_user_to_subject_schema, add_user_to_subject_submit, delete_subject_schema,
  delete_subject_submit, delete_user_schema, delete_user_submit, list_all_subjects_by_user_schema,
  list_all_subjects_by_user_submit, list_all_users_of_subject_schema,
  list_all_users_of_subject_submit, list_users_info_schema, list_users_info_submit,
  remove_user_from_subject_schema, remove_user_from_subject_submit,
}

-- A form with the values that were entered.
pub data TrialForm : Type 0 where
  create_user_form : String → String → String → TrialForm
  create_professor_form : String → String → TrialForm
  create_subject_form : String → String → String → TrialForm
  validate_user_form : String → String → TrialForm
  add_user_to_subject_form : String → String → TrialForm
  remove_user_from_subject_form : String → String → TrialForm
  delete_subject_form : String → TrialForm
  list_all_users_of_subject_form : String → TrialForm
  delete_user_form : String → TrialForm
  list_users_info_form : String → TrialForm
  list_all_subjects_by_user_form : String → TrialForm

-- The schema of a form, and its handler.
abbrev pub passes_schema : (String → Bool) → TrialForm → Bool
passes_schema is_email (create_user_form name mail password) =
    create_user_schema is_email name mail password
passes_schema is_email (create_professor_form name mail) =
    create_professor_schema is_email name mail
passes_schema is_email (create_subject_form name subject_code professor_mail) =
    create_subject_schema is_email name subject_code professor_mail
passes_schema is_email (validate_user_form mail password) =
    validate_user_schema is_email mail password
passes_schema is_email (add_user_to_subject_form subject_id user_id) =
    add_user_to_subject_schema subject_id user_id
passes_schema is_email (remove_user_from_subject_form subject_id user_id) =
    remove_user_from_subject_schema subject_id user_id
passes_schema is_email (delete_subject_form subject_id) = delete_subject_schema subject_id
passes_schema is_email (list_all_users_of_subject_form subject_id) =
    list_all_users_of_subject_schema subject_id
passes_schema is_email (delete_user_form user_id) = delete_user_schema user_id
passes_schema is_email (list_users_info_form user_id) = list_users_info_schema user_id
passes_schema is_email (list_all_subjects_by_user_form user_id) =
    list_all_subjects_by_user_schema user_id

unfoldable pub on_submit : {L : Type 0} → TrialForm → Action L (Unit {0})
on_submit (create_user_form name mail password) = create_user_submit name mail password
on_submit (create_professor_form name mail) = create_professor_submit name mail
on_submit (create_subject_form name subject_code professor_mail) =
    create_subject_submit name subject_code professor_mail
on_submit (validate_user_form mail password) = validate_user_submit mail password
on_submit (add_user_to_subject_form subject_id user_id) =
    add_user_to_subject_submit subject_id user_id
on_submit (remove_user_from_subject_form subject_id user_id) =
    remove_user_from_subject_submit subject_id user_id
on_submit (delete_subject_form subject_id) = delete_subject_submit subject_id
on_submit (list_all_users_of_subject_form subject_id) = list_all_users_of_subject_submit subject_id
on_submit (delete_user_form user_id) = delete_user_submit user_id
on_submit (list_users_info_form user_id) = list_users_info_submit user_id
on_submit (list_all_subjects_by_user_form user_id) = list_all_subjects_by_user_submit user_id

-- `form.handleSubmit(onSubmit)`: the handler is called if the values pass.
unfoldable pub submit_form : {L : Type 0} → (String → Bool) → TrialForm → Action L (Unit {0})
submit_form is_email f = if passes_schema is_email f then on_submit f else skip
