-- ===== src/CreateSubject/Handler.antt =====
-- `createProfessorVm` and `handleCreateSubject` of web-server/frontend/src/hooks/useCreateSubject.ts.
use remote_labs.Prelude.{List, Option, String, [], false, if◌then◌else◌, none, not, some, true, ◌∷◌}
use remote_labs.Js.Value.{Value, bool, obj, str, truthy}
use remote_labs.Env.{api_create_instance, api_create_subject, get_env}
use remote_labs.Runtime.{
  Action, Outcome, Reply, Request, User, api, error, fetch, fields, finally, get_prop, gets, id_of,
  json_request, keys_of, mail_of, message_or, modify, pure, scaled, settle, show_alert, skip, throw,
  try_catch, when, zoom, ◌>>=◌, ◌>>◌,
}
use remote_labs.Template.{define_template}
use remote_labs.CreateSubject.{
  CreateSubject, CreateSubjectParams, all_professor_emails, enrolled_all, send_all,
  student_email_list,
}

unfoldable pub create_professor_vm :
    {P : Type 0} → Option User → Value → CreateSubjectParams → Action (CreateSubject P) Value
create_professor_vm user subject_id p = do
  when (not (truthy (id_of user))) (throw (error "User ID is required"))
  when (not (truthy (keys_of user))) (throw (error "SSH keys are required"))
  size ← scaled p.vm_storage 1024
  cpus ← scaled p.vm_cpu 1
  ram ← scaled p.vm_ram 1024
  url ← api api_create_instance
  response ← fetch (
      json_request "POST" url (
        some (
          obj (
            fields (
              ("userId", id_of user)
              ∷ ("subjectId", subject_id)
              ∷ ("sourceVmId", str p.base)
              ∷ ("username", str p.vm_username)
              ∷ ("password", str p.vm_password)
              ∷ ("publicSshKeys", keys_of user)
              ∷ ("sizeMB", size)
              ∷ ("vcpuCount", cpus)
              ∷ ("vramMB", ram)
              ∷ [])))))
  when (not response.is_ok) (throw (error "Failed to create professor VM"))
  data' ← settle response.json
  instance_id ← get_prop "instanceId" data'
  when (not (truthy instance_id)) (throw (error "Response does not contain instanceId"))
  pure instance_id

-- Step 4 of the handler, without its `catch`.
unfoldable pub create_machine :
    {P : Type 0} → Option User → Value → CreateSubjectParams → Action (CreateSubject P) (Unit {0})
create_machine user subject_id p =
    if p.customize_vm
    then (create_professor_vm user subject_id p >>= λ _.
        show_alert "Virtual Machine Creation"
          "Your virtual machine is being created. This process may take a few minutes. Please check your subject later to verify its creation.")
    else (do
      size ← scaled p.vm_storage 1024
      cpus ← scaled p.vm_cpu 1
      ram ← scaled p.vm_ram 1024
      zoom (λ l. l.template) (λ t l. record l { template = t })
          (define_template (
            obj (
              fields (
                ("sourceInstanceId", str p.base)
                ∷ ("sizeMB", size)
                ∷ ("vcpuCount", cpus)
                ∷ ("vramMB", ram)
                ∷ ("subjectId", subject_id)
                ∷ ("description", str p.template_description)
                ∷ ("isValidated", bool true)
                ∷ [])))))

-- The request of step 1.
abbrev pub subject_request : Option String → Value → CreateSubjectParams → Request
subject_request vite mail p = json_request "POST" (get_env vite api_create_subject) (
    some (
      obj (
        fields (
          ("name", str p.subject_name)
          ∷ ("code", str p.subject_code)
          ∷ ("professorMail", mail)
          ∷ []))))

-- `arrive` is the order in which the answers of one `Promise.all` come in.
module _ {P : Type 0} (arrive : List (Value × Outcome Reply) → List (Value × Outcome Reply)) where
  -- `Promise.all(emails.map(…))`, where no enrolment rejects
  unfoldable pub enroll_all : Value → List Value → Action (CreateSubject P) (Unit {0})
  enroll_all subject_id emails = do
    answers ← send_all subject_id emails
    enrolled_all (arrive answers)

  -- The steps inside the outer `try`.
  unfoldable pub create_steps :
      Option User
      → Action (CreateSubject P) (Unit {0})
      → CreateSubjectParams
      → Action (CreateSubject P) (Unit {0})
  create_steps user on_success p = do
    vite ← gets (λ s. s.world.api_url)
    response ← fetch (subject_request vite (mail_of user) p)
    if response.is_ok
        then skip
        else (do problem ← settle response.json; throw (error "Failed to create subject"))
    data' ← settle response.json
    subject_id ← get_prop "subjectId" data'
    enroll_all subject_id (all_professor_emails (mail_of user) p.professor_emails)
    enroll_all subject_id (student_email_list p.student_emails)
    try_catch (create_machine user subject_id p) (λ _. skip)
    on_success

  unfoldable pub handle_create_subject :
      Option User
      → Action (CreateSubject P) (Unit {0})
      → CreateSubjectParams
      → Action (CreateSubject P) (Unit {0})
  handle_create_subject user on_success p =
      if truthy (mail_of user)
      then (do
        modify (λ l. record l { creation_error = none; enrollment_errors = []; is_creating = true })
        finally
            (try_catch (create_steps user on_success p) (λ t.
              modify (λ l. record l {
                creation_error = some (message_or "Failed to create subject" t);
              })))
            (modify (λ l. record l { is_creating = false })))
      else throw (error "No user email available")
