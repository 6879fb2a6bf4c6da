-- ===== src/CreateSubject/Outcomes.antt =====
-- How `handleCreateSubject` and `fetchBases` of web-server/frontend/src/hooks/useCreateSubject.ts end.
use remote_labs.Prelude.{
  List, Option, String, [], arith, false, is_some, none, not, refl, some, true, ◌≡◌,
}
use remote_labs.Js.Value.{Fields, Items, Value, arr, field_of, nil, obj, truthy}
use remote_labs.Env.{api_bases, get_env}
use remote_labs.Runtime.{
  Action, Outcome, Reply, St, User, accepted, done, error, mail_of, note, plain_request, requested,
  skip, thrown, try_catch, ◌>>◌,
}
use remote_labs.CreateSubject.{
  CreateSubject, CreateSubjectParams, all_professor_emails, fetch_bases, student_email_list,
}
use remote_labs.CreateSubject.Handler.{
  create_machine, create_steps, enroll_all, handle_create_subject, subject_request,
}
use remote_labs.CreateSubject.Enrolment.{enrolled_all_lem, send_all_lem}

module _ {P : Type 0} (arrive : List (Value × Outcome Reply) → List (Value × Outcome Reply))
    (on_success : Action (CreateSubject P) (Unit {0})) (p : CreateSubjectParams) where
  -- With a mail the handler never rejects and is not left creating, whatever the server answers and
  -- whatever the callback does; without one it rejects before it has done anything.
  pub handler_ends :
      (user : Option User) (s : St (CreateSubject P))
      → let r = handle_create_subject arrive user on_success p s in
        (truthy (mail_of user) ≡ true → (r.0 ≡ done tt) × (r.1.local.is_creating ≡ false))
        × (truthy (mail_of user) ≡ false → r ≡ (thrown (error "No user email available"), s))
  unfolding handle_create_subject
  handler_ends user s = (λ h. rw h (ground arith), λ h. rw h refl)

  -- For a user with a mail, a subject whose request is refused or not answered costs that one
  -- request: nobody is enrolled, no machine and no template is asked for, the callback is not
  -- called, and the hook keeps an error.
  pub subject_refused :
      (user : Option User) (s : St (CreateSubject P))
      → truthy (mail_of user) ≡ true
      → let q = subject_request s.world.api_url (mail_of user) p in
        accepted (s.world.net s.world.log q) ≡ false
        → let r = handle_create_subject arrive user on_success p s in
          (r.1.world ≡ note (requested q) s.world)
          × (is_some r.1.local.creation_error ≡ true)
          × (r.1.local.enrollment_errors ≡ [])
  unfolding handle_create_subject create_steps
  subject_refused user s h refused = rw h (ground arith)

  swallowed :
      (m : Action (CreateSubject P) (Unit {0})) (s : St (CreateSubject P))
      → (s' : St (CreateSubject P)) × (try_catch m (λ _. skip) s ≡ (done tt, s'))
  swallowed m s = ((m s).1, ground arith)

  enroll_all_done :
      (subject_id : Value) (emails : List Value) (s : St (CreateSubject P))
      → (s' : St (CreateSubject P)) × (enroll_all arrive subject_id emails s ≡ (done tt, s'))
  unfolding enroll_all
  enroll_all_done subject_id emails s = (
    (enroll_all arrive subject_id emails s).1,
    rw (send_all_lem subject_id emails s) (rw enrolled_all_lem refl),
  )

  rest_calls :
      (user : Option User) (subject_id : Value) (s : St (CreateSubject P))
      → (s' : St (CreateSubject P)) × ((do
        enroll_all arrive subject_id (all_professor_emails (mail_of user) p.professor_emails)
        enroll_all arrive subject_id (student_email_list p.student_emails)
        try_catch (create_machine user subject_id p) (λ _. skip)
        on_success)
            s
          ≡ on_success s')
  rest_calls user subject_id s =
      let (s₁, e₁) =
        enroll_all_done subject_id (all_professor_emails (mail_of user) p.professor_emails) s in
      let (s₂, e₂) = enroll_all_done subject_id (student_email_list p.student_emails) s₁ in
      let (s₃, e₃) = swallowed (create_machine user subject_id p) s₂ in
      (s₃, rw e₁ (rw e₂ (rw e₃ refl)))

  -- Once the server has accepted the subject with an object for its answer, the steps end with
  -- the callback in every case: no failed enrolment, and no failure to create the machine or the
  -- template, prevents it.
  pub callback_called :
      (user : Option User) (s : St (CreateSubject P)) (r : Reply) (fs : Fields)
      → s.world.net s.world.log (subject_request s.world.api_url (mail_of user) p) ≡ done r
      → r.is_ok ≡ true
      → r.json ≡ done (obj fs)
      → (s' : St (CreateSubject P)) × (create_steps arrive user on_success p s ≡ on_success s')
  unfolding create_steps
  callback_called user s r fs answered fine body =
      rw answered (rw fine (rw body (rest_calls user (field_of "subjectId" fs) _)))

-- The bases that the server lists: the body of its response is an array.
abbrev pub listed_in : Outcome Value → Option Items
listed_in (done (arr vs)) = some vs
listed_in _ = none

abbrev pub listed_by : (String → Outcome Value) → Outcome Reply → Option Items
listed_by parse (thrown t) = none
listed_by parse (done r) = elim r.text [ thrown t ↦ none | done text ↦ listed_in (parse text) ]

abbrev pub or_nil : Option Items → Items
or_nil none = nil
or_nil (some vs) = vs

-- The loading of the bases always ends: exactly the bases that the server lists are shown, with no
-- error if it lists any array and with an error otherwise.
fetch_bases_lem :
    {P : Type 0}
    → (s : St (CreateSubject P))
    → let r = fetch_bases s in
      let q = plain_request "GET" (get_env s.world.api_url api_bases) in
      let listed = listed_by s.world.parse (s.world.net s.world.log q) in
      (r.0 ≡ done tt)
      × (r.1.local.is_loading_bases ≡ false)
      × (r.1.local.bases ≡ arr (or_nil listed))
      × (truthy r.1.local.bases_error ≡ not (is_some listed))
unfolding fetch_bases
fetch_bases_lem s = ground arith
