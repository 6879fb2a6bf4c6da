-- ===== src/CreateSubject/Sheet.antt =====
-- The sheet that creates a subject: web-server/frontend/src/components/CreateSubjectSheet.tsx. Its
-- state is the parent of the hook `useCreateSubject` that it calls.
pub mod Entries
pub mod Events
pub mod Submission
pub mod Submitted
pub mod View
pub mod Sizes
pub mod Visits
use remote_labs.Prelude.{
  Bool, List, Option, String, [], code, every, false, filter, if◌then◌else◌, leb, length, map,
  nat_eq, not, true, ℕ, ◌&&◌, ◌++◌, ◌==◌, ◌||◌, ◌∷◌,
}
use remote_labs.Js.Value.{Value, is_empty}
use remote_labs.Js.Text.{ends_with, split, trim, units}
use remote_labs.Runtime.{
  Action, Outcome, Reply, User, fields, lacks_keys, modify, reload, skip, toast, try_catch, ◌>>=◌,
  ◌>>◌,
}
use remote_labs.CreateSubject.{CreateSubject, CreateSubjectParams}
use remote_labs.CreateSubject.Handler.{handle_create_subject}

pub record SheetForm : Type 0 where
  pub is_open : Bool
  pub loading : Bool
  pub vm_username : String
  pub vm_password : String
  pub subject_name : String
  pub subject_code : String
  pub professor_emails : List String
  pub email_input : String
  pub student_emails : String
  pub error_text : String
  pub code_error : String
  pub customize_vm : Bool
  pub template_description : String
  pub base : String
  pub vm_ram : String
  pub vm_cpu : String
  pub vm_storage : String
  pub invalid_student_emails : List String
  pub subject_name_error : String
  pub subject_code_error : String
  pub base_error : String

abbrev pub Sheet : Type 0
Sheet = CreateSubject SheetForm

-- the setters of the sheet
abbrev pub set_form : (SheetForm → SheetForm) → Action Sheet (Unit {0})
set_form f = modify (λ l. record l { parent = f l.parent })

-- The fields as `handleSuccess` leaves them.
abbrev pub cleared : SheetForm → SheetForm
cleared f = record f {
  subject_name = "";
  subject_code = "";
  professor_emails = [];
  email_input = "";
  student_emails = "";
  error_text = "";
  code_error = "";
  customize_vm = false;
  template_description = "";
  base = "";
  vm_ram = "1";
  vm_cpu = "2";
  vm_storage = "1";
  vm_username = "";
  vm_password = "";
}

unfoldable pub handle_success : Action Sheet (Unit {0})
handle_success = do
  toast (record {
    title = "Subject Created";
    description = "The subject has been created successfully.";
    variant = "";
  })
  set_form cleared

abbrev pub includes_text : String → List String → Bool
includes_text e [] = false
includes_text e (x ∷ xs) = x == e || includes_text e xs

abbrev pub is_professor_mail : String → Bool
is_professor_mail e = ends_with "@tecnocampus.cat" e

-- In the handlers, `r` is the form that was last rendered.
unfoldable pub handle_add_email : SheetForm → Action Sheet (Unit {0})
handle_add_email r =
    if not (is_empty r.email_input)
      && is_professor_mail r.email_input
      && not (includes_text r.email_input r.professor_emails)
    then set_form (λ f. record f {
      professor_emails = r.professor_emails ++ r.email_input ∷ [];
      email_input = "";
      error_text = "";
    })
    else set_form (λ f. record f { error_text = "Email must be a valid @tecnocampus.cat address" })

unfoldable pub handle_remove_email : SheetForm → String → Action Sheet (Unit {0})
handle_remove_email r email =
    set_form
      (λ f. record f { professor_emails = filter (λ e. not (e == email)) r.professor_emails })

abbrev pub is_digit : ℕ → Bool
is_digit c = leb b'0' c && leb c b'9'

unfoldable pub handle_subject_code_change : String → Action Sheet (Unit {0})
handle_subject_code_change value =
    if every is_digit (units value)
    then set_form (λ f. record f { subject_code = value; code_error = "" })
    else set_form (λ f. record f { code_error = "Subject code must be numeric" })

-- The addresses in the text area of the students.
abbrev pub entered_emails : String → List String
entered_emails text = filter (λ e. not (is_empty e)) (map trim (split b'\n' text))

abbrev pub invalid_emails : String → List String
invalid_emails text = filter (λ e. not (ends_with "@edu.tecnocampus.cat" e)) (entered_emails text)

-- The inputs whose handler stands in the markup.
pub data SheetInput : Type 0 where
  name_typed email_typed students_typed base_chosen cpu_chosen ram_chosen storage_chosen
        description_typed username_typed password_typed :
      String → SheetInput
  customize_set open_changed : Bool → SheetInput

abbrev pub entered : SheetInput → SheetForm → SheetForm
entered (name_typed v) f = record f { subject_name = v }
entered (email_typed v) f = record f { email_input = v }
entered (students_typed v) f = record f { student_emails = v }
entered (base_chosen v) f = record f { base = v; base_error = "" }
entered (cpu_chosen v) f = record f { vm_cpu = v }
entered (ram_chosen v) f = record f { vm_ram = v }
entered (storage_chosen v) f = record f { vm_storage = v }
entered (description_typed v) f = record f { template_description = v }
entered (username_typed v) f = record f { vm_username = v }
entered (password_typed v) f = record f { vm_password = v }
entered (customize_set b) f = record f { customize_vm = b }
entered (open_changed b) f = if f.loading then f else record f { is_open = b }

abbrev pub problem : String → Action Sheet (Unit {0})
problem text = toast (record { title = "Error"; description = text; variant = "destructive" })

abbrev pub is_blank : String → Bool
is_blank text = is_empty (trim text)

abbrev pub params_of : SheetForm → CreateSubjectParams
params_of r = record {
  subject_name = r.subject_name;
  subject_code = r.subject_code;
  professor_emails = r.professor_emails;
  student_emails = r.student_emails;
  base = r.base;
  vm_ram = r.vm_ram;
  vm_cpu = r.vm_cpu;
  vm_storage = r.vm_storage;
  template_description = r.template_description;
  customize_vm = r.customize_vm;
  vm_username = r.vm_username;
  vm_password = r.vm_password;
}

-- The end of both the `try` and its `catch`.
abbrev pub close_sheet : Action Sheet (Unit {0})
close_sheet = do set_form (λ f. record f { loading = false; is_open = false }); reload

module _ (arrive : List (Value × Outcome Reply) → List (Value × Outcome Reply)) where
  -- The part behind the checks.
  unfoldable pub submit_valid : Option User → SheetForm → Action Sheet (Unit {0})
  submit_valid user r = do
    set_form (λ f. record f { error_text = ""; invalid_student_emails = [] })
    set_form (λ f. record f { loading = true })
    try_catch (do handle_create_subject arrive user handle_success (params_of r); close_sheet)
        (λ _. close_sheet)

  -- The part behind the required fields.
  unfoldable pub submit_filled : Option User → SheetForm → Action Sheet (Unit {0})
  submit_filled user r =
      if r.customize_vm && (is_empty r.vm_username || is_empty r.vm_password)
      then problem "Please fill in all virtual machine configuration fields."
      else if r.customize_vm && lacks_keys user
      then problem
          "You must have at least one SSH key to create a subject with a customized virtual machine."
      else if is_empty r.vm_ram || is_empty r.vm_cpu || is_empty r.vm_storage
      then problem "Please select all virtual machine configuration options."
      else if nat_eq (length (invalid_emails r.student_emails)) 0
      then submit_valid user r
      else set_form (λ f. record f {
        error_text = "Some student emails are invalid";
        invalid_student_emails = invalid_emails r.student_emails;
      })

  unfoldable pub handle_submit : Option User → SheetForm → Action Sheet (Unit {0})
  handle_submit user r = do
    set_form (λ f. record f {
      invalid_student_emails = [];
      subject_name_error = if is_blank r.subject_name then "Subject name is required" else "";
      subject_code_error = if is_blank r.subject_code then "Subject code is required" else "";
      base_error = if is_empty r.base then "Base is required" else "";
    })
    if is_blank r.subject_name || is_blank r.subject_code || is_empty r.base
        then skip
        else submit_filled user r
