-- ===== src/CreateSubject/Sheet/Submitted.antt =====
-- What a submission of the sheet keeps: a property of the fields that are submitted, which also holds of
-- a cleared form.
use remote_labs.Prelude.{List, Option, ◌≡◌}
use remote_labs.Js.Value.{Value}
use remote_labs.Runtime.{Action, Keeps, Outcome, Reply, User, keeps_rules, modify, zoom}
use remote_labs.Template.{DefineTemplate}
use remote_labs.CreateSubject.{CreateSubjectParams}
use remote_labs.CreateSubject.Handler.{
  create_machine, create_professor_vm, create_steps, enroll_all, handle_create_subject,
}
use remote_labs.CreateSubject.Enrolment.{enrolled_all_lem, send_all_lem}
use remote_labs.CreateSubject.Sheet.{
  Sheet, SheetForm, cleared, handle_submit, handle_success, params_of, set_form, submit_filled,
  submit_valid,
}

module _ (P : SheetForm → Type 0)
    (respects : (f g : SheetForm) → params_of f ≡ params_of g → P f → P g)
    (clears : (f : SheetForm) → P (cleared f)) where
  abbrev Has : Sheet → Type 0
  Has l = P l.parent

  -- A write of fields that are not submitted.
  set_form-Keeps :
      (g : SheetForm → SheetForm)
      → ((f : SheetForm) → params_of f ≡ params_of (g f))
      → Keeps Has (set_form g)
  set_form-Keeps g e = record {
    at = λ s h. respects s.local.parent (g s.local.parent) (e s.local.parent) h;
  }

  -- A write of the hook's own state.
  hook_write-Keeps :
      (g : Sheet → Sheet) → ((l : Sheet) → (g l).parent ≡ l.parent) → Keeps Has (modify g)
  hook_write-Keeps g e = record { at = λ s h. rw (e s.local) h }

  handle_success-Keeps : Keeps Has handle_success
  unfolding handle_success
  handle_success-Keeps = record { at = λ s h. clears s.local.parent }

  enroll_all-Keeps :
      (arrive : List (Value × Outcome Reply) → List (Value × Outcome Reply)) (subject_id : Value)
      (emails : List Value)
      → Keeps Has (enroll_all arrive subject_id emails)
  unfolding enroll_all
  enroll_all-Keeps arrive subject_id emails = record {
    at = λ s h. rw (send_all_lem subject_id emails s) (rw enrolled_all_lem h);
  }

  in_template-Keeps :
      (m : Action DefineTemplate (Unit {0}))
      → Keeps Has (zoom {L = Sheet} (λ l. l.template) (λ t l. record l { template = t }) m)
  in_template-Keeps m = record { at = λ s h. h }

  ruleset sheet_rules =
      (keeps_rules, handle_success-Keeps, enroll_all-Keeps, set_form-Keeps, in_template-Keeps)

  create_machine-Keeps :
      (user : Option User) (subject_id : Value) (p : CreateSubjectParams)
      → Keeps Has (create_machine user subject_id p)
  unfolding create_machine create_professor_vm
  create_machine-Keeps user subject_id p = search sheet_rules depth 20

  create_steps-Keeps :
      (arrive : List (Value × Outcome Reply) → List (Value × Outcome Reply)) (user : Option User)
      (p : CreateSubjectParams)
      → Keeps Has (create_steps arrive user handle_success p)
  unfolding create_steps
  create_steps-Keeps arrive user p = search (sheet_rules, create_machine-Keeps) depth 20

  handle_create_subject-Keeps :
      (arrive : List (Value × Outcome Reply) → List (Value × Outcome Reply)) (user : Option User)
      (p : CreateSubjectParams)
      → Keeps Has (handle_create_subject arrive user handle_success p)
  unfolding handle_create_subject
  handle_create_subject-Keeps arrive user p =
      search (sheet_rules, create_steps-Keeps, hook_write-Keeps) depth 20

  submit_valid-Keeps :
      (arrive : List (Value × Outcome Reply) → List (Value × Outcome Reply)) (user : Option User)
      (r : SheetForm)
      → Keeps Has (submit_valid arrive user r)
  unfolding submit_valid
  submit_valid-Keeps arrive user r = search (sheet_rules, handle_create_subject-Keeps) depth 20

  pub handle_submit-Keeps :
      (arrive : List (Value × Outcome Reply) → List (Value × Outcome Reply)) (user : Option User)
      (r : SheetForm)
      → Keeps Has (handle_submit arrive user r)
  unfolding handle_submit submit_filled
  handle_submit-Keeps arrive user r = search (sheet_rules, submit_valid-Keeps) depth 20
