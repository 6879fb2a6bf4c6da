-- ===== src/Trial/Laws.antt =====
-- What a submission of a trial form does.
use remote_labs.Prelude.{Bool, String, arith, false, if◌then◌else◌, refl, true, ◌≡◌}
use remote_labs.Runtime.{
  Action, Outcome, Request, St, done, fetch, note, requested, skip, ◌>>=◌, ◌>>◌,
}
use remote_labs.Trial.Handler.{expect_ok, logged, read_json}
use remote_labs.Trial.Bodies.{
  create_professor_submit, create_subject_submit, create_user_submit, validate_user_submit,
}
use remote_labs.Trial.Paths.{
  add_user_to_subject_submit, delete_subject_submit, delete_user_submit,
  list_all_subjects_by_user_submit, list_all_users_of_subject_submit, list_users_info_submit,
  remove_user_from_subject_submit,
}
use remote_labs.Trial.{
  TrialForm, add_user_to_subject_form, create_professor_form, create_subject_form, create_user_form,
  delete_subject_form, delete_user_form, list_all_subjects_by_user_form,
  list_all_users_of_subject_form, list_users_info_form, on_submit, passes_schema,
  remove_user_from_subject_form, submit_form, validate_user_form,
}

-- One request was sent, and nothing else happened.
abbrev pub SendsOne : {L : Type 0} → St L → (Outcome (Unit {0}) × St L) → Type 0
SendsOne s out = (q : Request) × (out ≡ (done tt, record s { world = note (requested q) s.world }))

sends :
    {L : Type 0} (q : Request) (s : St L)
    → SendsOne s (logged (do response ← fetch q; expect_ok response) s)
sends q s = (q, ground arith)

sends_and_reads :
    {L : Type 0} (q : Request) (s : St L)
    → SendsOne s (logged (do response ← fetch q; expect_ok response; read_json response) s)
sends_and_reads q s = (q, ground arith)

on_submit_lem : {L : Type 0} (f : TrialForm) (s : St L) → SendsOne s (on_submit f s)
unfolding on_submit create_user_submit create_professor_submit create_subject_submit
    validate_user_submit add_user_to_subject_submit remove_user_from_subject_submit
    delete_subject_submit list_all_users_of_subject_submit delete_user_submit list_users_info_submit
    list_all_subjects_by_user_submit
on_submit_lem (create_user_form name mail password) s = sends _ s
on_submit_lem (create_professor_form name mail) s = sends_and_reads _ s
on_submit_lem (create_subject_form name subject_code professor_mail) s = sends _ s
on_submit_lem (validate_user_form mail password) s = sends _ s
on_submit_lem (add_user_to_subject_form subject_id user_id) s = sends _ s
on_submit_lem (remove_user_from_subject_form subject_id user_id) s = sends _ s
on_submit_lem (delete_subject_form subject_id) s = sends _ s
on_submit_lem (list_all_users_of_subject_form subject_id) s = sends_and_reads _ s
on_submit_lem (delete_user_form user_id) s = sends _ s
on_submit_lem (list_users_info_form user_id) s = sends_and_reads _ s
on_submit_lem (list_all_subjects_by_user_form user_id) s = sends_and_reads _ s

gated :
    {L : Type 0} (b : Bool) (m : Action L (Unit {0})) (s : St L)
    → SendsOne s (m s)
    → (b ≡ true → SendsOne s ((if b then m else skip) s))
      × (b ≡ false → (if b then m else skip) s ≡ (done tt, s))
gated true m s k = (λ _. k, λ h. absurd (cc h))
gated false m s k = (λ h. absurd (cc h), λ _. refl)

-- A submission never fails: it sends one request if the values pass the schema of the form and none
-- otherwise, and changes nothing else; so a refusal by the server is not shown.
pub submit_form_lem :
    {L : Type 0} (is_email : String → Bool) (f : TrialForm) (s : St L)
    → (passes_schema is_email f ≡ true → SendsOne s (submit_form is_email f s))
      × (passes_schema is_email f ≡ false → submit_form is_email f s ≡ (done tt, s))
unfolding submit_form
submit_form_lem is_email f s = gated (passes_schema is_email f) (on_submit f) s (on_submit_lem f s)
