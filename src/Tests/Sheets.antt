-- ===== src/Tests/Sheets.antt =====
-- The sheet that creates a subject.
use remote_labs.Prelude.{List, [], false, none, refl, true, ◌∷◌, ◌≡◌}
use remote_labs.Js.Value.{Value, arr, nil, null}
use remote_labs.Js.Text.{ends_with, split, trim, trim_end, trim_start}
use remote_labs.Runtime.{Event, Outcome, Reply, St, World, done, reloaded}
use remote_labs.Tests.Samples.{accepting, refusing, st, student}
use remote_labs.CreateSubject.Sheet.{Sheet, SheetForm, handle_submit}
use remote_labs.CreateSubject.Sheet.Entries.{IsSound}
use remote_labs.CreateSubject.Sheet.Events.{
  SheetEvent, code_typed, email_added, email_removed, react_all, react_all-IsSound, submitted,
}
use remote_labs.CreateSubject.Sheet.Submission.{Stays, is_ready, sheet-Stays, sheet_closes}

abbrev new_form : SheetForm
new_form = record {
  is_open = true;
  loading = false;
  vm_username = "";
  vm_password = "";
  subject_name = "Networks";
  subject_code = "12";
  professor_emails = "a@tecnocampus.cat" ∷ [];
  email_input = "b@tecnocampus.cat";
  student_emails = "s@edu.tecnocampus.cat";
  error_text = "";
  code_error = "";
  customize_vm = false;
  template_description = "";
  base = "b1";
  vm_ram = "1";
  vm_cpu = "2";
  vm_storage = "1";
  invalid_student_emails = [];
  subject_name_error = "";
  subject_code_error = "";
  base_error = "";
}

abbrev sheet : SheetForm → World → St Sheet
sheet f w =
    st
      (record {
        parent = f;
        is_creating = false;
        creation_error = none;
        bases = arr nil;
        is_loading_bases = false;
        bases_error = null;
        enrollment_errors = [];
        template = record { loading = false };
      })
      w

abbrev as_sent : List (Value × Outcome Reply) → List (Value × Outcome Reply)
as_sent answers = answers

abbrev clicks : List SheetEvent
clicks = email_added ∷ code_typed "12a" ∷ submitted student ∷ email_removed "a@tecnocampus.cat" ∷ []

new_form-IsSound : IsSound new_form
unfolding ends_with
new_form-IsSound = record { mails = (refl, tt); distinct = (refl, tt); digits = refl }

ready_test : is_ready student new_form ≡ true
unfolding ends_with trim trim_start trim_end split
ready_test = refl

unready_test : is_ready none (record new_form { base = "" }) ≡ false
unfolding ends_with trim trim_start trim_end split
unready_test = refl

react_all-IsSound_example :
    IsSound (react_all as_sent clicks (sheet new_form refusing)).local.parent
react_all-IsSound_example =
    react_all-IsSound as_sent clicks (sheet new_form refusing) (new_form-IsSound)

sheet_closes_example :
    let out =
      handle_submit as_sent student
        (sheet new_form refusing).local.parent
        (sheet new_form refusing) in
    (out.0 ≡ done tt)
    × (out.1.local.parent.is_open ≡ false)
    × (out.1.local.parent.loading ≡ false)
    × ((es : List Event) × (out.1.world.log ≡ reloaded ∷ es))
sheet_closes_example = sheet_closes as_sent student (sheet new_form refusing) ready_test

sheet-Stays_example : Stays (sheet (record new_form { base = "" }) accepting) (
    handle_submit as_sent none
      (sheet (record new_form { base = "" }) accepting).local.parent
      (sheet (record new_form { base = "" }) accepting))
sheet-Stays_example =
    sheet-Stays as_sent none (sheet (record new_form { base = "" }) accepting) unready_test
