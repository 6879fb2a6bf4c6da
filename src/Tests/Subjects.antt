-- ===== src/Tests/Subjects.antt =====
-- The creation and the deletion of a subject.
use mathlib.Core.List.{Perm}
use mathlib.Core.List.Perm
use remote_labs.Prelude.{List, [], false, is_some, none, refl, some, true, ◌↔◌, ◌∷◌, ◌≡◌}
use remote_labs.Js.Value.{Value, arr, cons, nil, null, obj, str, truthy}
use remote_labs.Runtime.{
  Action, Event, Outcome, Reply, St, World, done, error, mail_of, navigate, note, requested, thrown,
}
use remote_labs.Tests.Samples.{accepting, details, down, refusing, reply, server, st, student}
use remote_labs.CreateSubject.{CreateSubject, CreateSubjectParams, EnrollmentError}
use remote_labs.CreateSubject.Handler.{
  create_steps, enroll_all, handle_create_subject, subject_request,
}
use remote_labs.CreateSubject.Enrolment.{
  answers_of, enroll_all_lem, failures, log_after, with_failures,
}
use remote_labs.CreateSubject.Outcomes.{callback_called, handler_ends, subject_refused}
use remote_labs.Subject.{DeleteSubject}
use remote_labs.Subject.Listing.{
  Subjects, ask_professors, fetch_subjects, join_professors, load_subjects, promise_all,
  read_subjects,
}
use remote_labs.Subject.Listing.Rows.{IsList}
use remote_labs.Markup.{Offers}
use remote_labs.Subject.Reads.{SubjectRow}
use remote_labs.Subject.View.{HasSubject, shows_error, subject_opened, subjects_page}
use remote_labs.Subject.View.Loaded.{loaded_lem}

abbrev in_turn : List (Outcome Value) → List (Outcome Value)
in_turn outcomes = outcomes

abbrev new_subject : World → St (CreateSubject (Unit {0}))
new_subject w =
    st
      (record {
        parent = tt;
        is_creating = false;
        creation_error = none;
        bases = arr nil;
        is_loading_bases = true;
        bases_error = null;
        enrollment_errors = [];
        template = record { loading = false };
      })
      w

abbrev params : CreateSubjectParams
params = record {
  subject_name = "Networks";
  subject_code = "N1";
  professor_emails = "a@b" ∷ "c@d" ∷ [];
  student_emails = "e@f";
  base = "b1";
  vm_ram = "1";
  vm_cpu = "1";
  vm_storage = "8";
  template_description = "";
  customize_vm = false;
  vm_username = "";
  vm_password = "";
}

abbrev in_order : List (Value × Outcome Reply) → List (Value × Outcome Reply)
in_order answers = answers

abbrev close_form : Action (CreateSubject (Unit {0})) (Unit {0})
close_form = navigate "/subjects"

abbrev taken : Reply
taken = record { is_ok = true; content_type = none; text = done ""; json = done (obj details) }

abbrev deletion : St DeleteSubject
deletion = st (record { is_loading = false; error_value = null }) refusing

enroll_all_lem_example :
    let answers =
      answers_of
        (new_subject refusing).world.net
        (new_subject refusing).world.api_url
        (str "s1")
        (new_subject refusing).world.log
        (str "a@b" ∷ []) in
    (es : List EnrollmentError) × Perm es (failures answers)
    × (enroll_all in_order (str "s1") (str "a@b" ∷ []) (new_subject refusing) ≡ (
      done tt,
      with_failures es (record (new_subject refusing) {
        world = record (new_subject refusing).world {
          log =
              log_after
                (new_subject refusing).world.api_url
                (str "s1")
                (new_subject refusing).world.log
                (str "a@b" ∷ []);
        };
      }),
    ))
enroll_all_lem_example =
    enroll_all_lem in_order (str "s1") (str "a@b" ∷ []) (new_subject refusing)
      (λ answers. Perm.refl answers)

handler_ends_example :
    let r = handle_create_subject in_order student close_form params (new_subject down) in
    (truthy (mail_of student) ≡ true → (r.0 ≡ done tt) × (r.1.local.is_creating ≡ false))
    × (truthy (mail_of student) ≡ false
        → r ≡ (thrown (error "No user email available"), (new_subject down)))
handler_ends_example = handler_ends in_order close_form params student (new_subject down)

subject_refused_example :
    let q = subject_request (new_subject refusing).world.api_url (mail_of student) params in
    let r = handle_create_subject in_order student close_form params (new_subject refusing) in
    (r.1.world ≡ note (requested q) (new_subject refusing).world)
    × (is_some r.1.local.creation_error ≡ true)
    × (r.1.local.enrollment_errors ≡ [])
subject_refused_example =
    subject_refused in_order close_form params student (new_subject refusing) refl refl

callback_called_example :
    (s' : St (CreateSubject (Unit {0}))) × (create_steps in_order student close_form params
        (new_subject (server (done taken)))
      ≡ close_form s')
callback_called_example =
    callback_called in_order close_form params student (new_subject (server (done taken))) taken
      details refl refl refl

abbrev as_read : List Value → List SubjectRow
as_read rows =
    record {
      id = "s1";
      name = "Networks";
      subject_code = "N1";
      professor_name = "Ada";
      professor_mail = "a@b";
    }
    ∷ []

-- The list for the first request, and an account for any other.
abbrev by_turn : List Event → Outcome Reply
by_turn [] = reply true (arr (cons (obj details) nil))
by_turn (e ∷ es) = reply true (obj details)

abbrev listing : St Subjects
listing =
    st (record { subjects = []; loading = true; error_text = some "User ID not found" })
      (record accepting { net = λ log q. by_turn log })

listed_test : (load_subjects in_turn student listing).0 ≡ done tt
unfolding load_subjects read_subjects join_professors ask_professors promise_all
listed_test = refl

loaded_lem_example :
    let r = fetch_subjects in_turn student listing in
    let rows = as_read r.1.local.subjects in
    (r.0 ≡ done tt)
    × (r.1.local.loading ≡ false)
    × IsList student listing r.1.local.subjects
    × (Offers
          (subjects_page student r.1.local.loading r.1.local.error_text rows)
          (subject_opened "s1")
        ↔ ((shows_error listing.local.error_text ≡ false) × HasSubject "s1" rows))
loaded_lem_example =
    loaded_lem in_turn as_read student "s1" listing (λ outcomes. Perm.refl outcomes) listed_test
