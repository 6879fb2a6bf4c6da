-- ===== src/CreateSubject.antt =====
-- The creation of a subject: web-server/frontend/src/hooks/useCreateSubject.ts.
pub mod Handler
pub mod Enrolment
pub mod Outcomes
pub mod Sheet
use remote_labs.Prelude.{
  Bool, List, Option, String, [], false, filter, if◌then◌else◌, map, not, true, ◌++◌, ◌==◌, ◌∷◌,
}
use remote_labs.Js.Value.{Value, arr, is_empty, nil, null, str, truthy}
use remote_labs.Js.Text.{replace, split, to_text, trim}
use remote_labs.Env.{api_bases, api_enroll_user_in_subject, get_env}
use remote_labs.Runtime.{
  Action, Outcome, Reply, Request, api, error, fetch, finally, get_prop, gets, message_or, modify,
  plain_request, pure, send, settle, skip, throw, try_catch, when, ◌>>=◌, ◌>>◌,
}
use remote_labs.Template.{DefineTemplate}

pub record EnrollmentError : Type 0 where
  pub email : Value
  pub error_text : String

pub record CreateSubjectParams : Type 0 where
  pub subject_name : String
  pub subject_code : String
  pub professor_emails : List String
  pub student_emails : String
  pub base : String
  pub vm_ram : String
  pub vm_cpu : String
  pub vm_storage : String
  pub template_description : String
  pub customize_vm : Bool
  pub vm_username : String
  pub vm_password : String

-- `parent` is the state of the component that calls the hook; its callback may change it.
pub record CreateSubject (P : Type 0) : Type 0 where
  pub parent : P
  pub is_creating : Bool
  pub creation_error : Option String
  pub bases : Value
  pub is_loading_bases : Bool
  pub bases_error : Value
  pub enrollment_errors : List EnrollmentError
  pub template : DefineTemplate

-- `setBasesError(e); setBases([])`
abbrev pub no_bases : {P : Type 0} → Value → Action (CreateSubject P) (Unit {0})
no_bases e = modify (λ l. record l { bases_error = e; bases = arr nil })

-- What is done with the parsed body.
take_bases : {P : Type 0} → Value → Value → Action (CreateSubject P) (Unit {0})
take_bases e (arr vs) =
    if truthy e then no_bases e else modify (λ l. record l { bases = arr vs; bases_error = null })
take_bases e data' =
    if truthy e then no_bases e else no_bases (str "Invalid response format from server")

unfoldable pub fetch_bases : {P : Type 0} → Action (CreateSubject P) (Unit {0})
unfolding take_bases
fetch_bases =
    finally
      (try_catch
        (do
          url ← api api_bases
          response ← fetch (plain_request "GET" url)
          text ← settle response.text
          try_catch
              (do
                parse ← gets (λ s. s.world.parse)
                data' ← settle (parse text)
                e ← get_prop "error" data'
                take_bases e data')
              (λ _. no_bases (str "Error parsing server response")))
        (λ _. no_bases (str "Failed to fetch bases from server")))
      (modify (λ l. record l { is_loading_bases = false }))

-- The request of `enrollUserToSubject`.
abbrev pub enroll_request : Option String → Value → Value → Request
enroll_request vite subject_id email = plain_request "PUT" (
    replace (replace (get_env vite api_enroll_user_in_subject) "{subjectId}" (to_text subject_id))
      "{userEmail}" (to_text email))

-- The first part of `enrollUserToSubject` for each address, up to its `await`.
pub send_all :
    {P : Type 0} → Value → List Value → Action (CreateSubject P) (List (Value × Outcome Reply))
send_all subject_id [] = pure []
send_all subject_id (email ∷ emails) = do
  vite ← gets (λ s. s.world.api_url)
  answer ← send (enroll_request vite subject_id email)
  answers ← send_all subject_id emails
  pure ((email, answer) ∷ answers)

-- The rest of it, when the answer is there.
unfoldable pub enrolled : {P : Type 0} → Value → Outcome Reply → Action (CreateSubject P) Bool
enrolled email answer =
    try_catch
      (do
        response ← settle answer
        when (not response.is_ok) (throw (error "Failed to enroll user"))
        pure true)
      (λ t. do
        modify (λ l. record l {
          enrollment_errors =
              l.enrollment_errors
              ++ record { email = email; error_text = message_or "Failed to enroll user" t } ∷ [];
        })
        pure false)

unfoldable pub enrolled_all :
    {P : Type 0} → List (Value × Outcome Reply) → Action (CreateSubject P) (Unit {0})
enrolled_all [] = skip
enrolled_all ((email, answer) ∷ rest) = enrolled email answer >>= λ _. enrolled_all rest

-- `userEmail !== user.mail`
abbrev pub is_mail : Value → String → Bool
is_mail (str m) email = email == m
is_mail v email = false

abbrev pub all_professor_emails : Value → List String → List Value
all_professor_emails mail emails = mail ∷ map str (filter (λ e. not (is_mail mail e)) emails)

abbrev pub student_email_list : String → List Value
student_email_list text = map str (filter (λ e. not (is_empty e)) (map trim (split b'\n' text)))
