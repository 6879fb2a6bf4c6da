-- ===== src/CreateSubject/Sheet/View/Parts.antt =====
-- The parts of the sheet's form in web-server/frontend/src/components/CreateSubjectSheet.tsx, and that
-- for a customised machine, VirtualMachineConfig.tsx.
use remote_labs.Prelude.{
  Bool, List, Option, String, [], concat, if◌then◌else◌, none, not, some, suc, zero, ℕ, ◌+◌, ◌==◌,
  ◌∷◌,
}
use remote_labs.Js.Value.{Value, arr, is_empty, num, str}
use remote_labs.Js.Text.{includes, to_text}
use remote_labs.Runtime.{User, keys_of, lacks_keys}
use remote_labs.Markup.{
  Markup, all, attr, each, element, empty, on_change, on_check, on_click, shown_if, text,
}
use remote_labs.Settings.{texts_of}
use remote_labs.CreateSubject.Sheet.{
  Sheet, SheetForm, SheetInput, base_chosen, cpu_chosen, customize_set, description_typed,
  email_typed, password_typed, ram_chosen, storage_chosen, students_typed, username_typed,
}

pub record Base : Type 0 where
  pub base_id : String
  pub description : String

pub data SheetPress : Type 0 where
  changed : SheetInput → SheetPress
  code_changed email_removed : String → SheetPress
  email_added submit cancel password_toggled keys_managed : SheetPress

abbrev pub shown_error : String → Markup SheetPress
shown_error e = shown_if (not (is_empty e)) (element "p" [] (text e))

abbrev pub field_of_text :
    String → String → String → String → (String → SheetPress) → Markup SheetPress
field_of_text label id value placeholder set = all (
    element "Label" (attr "htmlFor" id ∷ []) (text label)
    ∷ element "Input"
        (attr "id" id ∷ attr "value" value ∷ on_change set ∷ attr "placeholder" placeholder ∷ [])
        empty
    ∷ [])

abbrev pub professor_row : String → Markup SheetPress
professor_row email = element "div" [] (
    all (
      element "span" [] (text email)
      ∷ element "Button" (attr "type" "button" ∷ on_click (email_removed email) ∷ [])
          (text "Remove")
      ∷ []))

abbrev pub professors_part : SheetForm → Markup SheetPress
professors_part f = element "div" [] (
    all (
      field_of_text "Other Professors' Emails" "professorEmails" f.email_input
        "Enter professor email" (λ v. changed (email_typed v))
      ∷ element "Button" (attr "type" "button" ∷ on_click email_added ∷ []) (text "Add")
      ∷ shown_if (f.error_text == "Email must be a valid @tecnocampus.cat address")
          (element "p" [] (text "Email must be a valid @tecnocampus.cat address"))
      ∷ each professor_row f.professor_emails
      ∷ []))

-- `key={email}`, and `key={index}` below
abbrev pub email_row : String → Markup SheetPress
email_row email = element "li" [] (text email)

abbrev pub students_part : SheetForm → Markup SheetPress
students_part f = element "div" [] (
    all (
      element "Label" (attr "htmlFor" "studentEmails" ∷ []) (text "Student Emails")
      ∷ element "Textarea"
          (attr "id" "studentEmails"
            ∷ attr "value" f.student_emails
            ∷ on_change (λ v. changed (students_typed v))
            ∷ attr "placeholder" "Enter student emails, one per line"
            ∷ [])
          empty
      ∷ element "p" [] (text "Enter each student email on a new line")
      ∷ shown_if (f.error_text == "Some student emails are invalid") (
          element "div" [] (
            all (
              text "Some student emails are invalid:"
              ∷ each email_row f.invalid_student_emails
              ∷ [])))
      ∷ []))

-- A menu of numbers.
abbrev pub item : (String → SheetInput) → String → ℕ → Markup SheetPress
item choose unit n =
    element "SelectItem"
      (attr "value" (to_text (num n)) ∷ on_click (changed (choose (to_text (num n)))) ∷ [])
      (text (concat (to_text (num n)) unit))

abbrev pub menu :
    String → String → String → String → (String → SheetInput) → String → List ℕ → Markup SheetPress
menu label id placeholder value choose unit ns = all (
    element "Label" (attr "htmlFor" id ∷ []) (text label)
    ∷ element "Select" (attr "value" value ∷ attr "placeholder" placeholder ∷ [])
        (each (item choose unit) ns)
    ∷ [])

abbrev pub cpu_choices : List ℕ
cpu_choices = 2 ∷ 4 ∷ 6 ∷ 8 ∷ 10 ∷ 12 ∷ 14 ∷ 16 ∷ []

abbrev pub ram_choices : List ℕ
ram_choices = 1 ∷ 2 ∷ 4 ∷ 8 ∷ 16 ∷ 32 ∷ []

-- `Array.from({ length: n }, (_, i) => i + 1)`, from `i` on
abbrev pub counted : ℕ → ℕ → List ℕ
counted zero i = []
counted (suc n) i = (i + 1) ∷ counted n (i + 1)

abbrev pub storage_choices : List ℕ
storage_choices = counted 50 0

-- The texts of a failed load of the bases; an error that is no text is not drawn.
abbrev pub bases_failure : Value → Option String
bases_failure (str e) =
    if is_empty e
    then none
    else some (
        if includes e "connection refused"
        then "The VM manager service is currently unavailable. Please try again later."
        else e)
bases_failure e = none

abbrev pub base_item : Base → Markup SheetPress
base_item b =
    element "SelectItem" (attr "value" b.base_id ∷ on_click (changed (base_chosen b.base_id)) ∷ [])
      (text b.description)

abbrev pub base_part : List Base → Sheet → Markup SheetPress
base_part bases l = element "div" [] (
    all (
      element "Label" (attr "htmlFor" "base" ∷ []) (text "Base")
      ∷ elim (bases_failure l.bases_error) [
        | some e ↦ element "div" [] (element "p" [] (text e))
        | none ↦
            if l.is_loading_bases
            then element "div" [] (element "p" [] (text "Loading bases..."))
            else element "Select"
                (attr "value" l.parent.base ∷ attr "placeholder" "Select a base" ∷ [])
                (each base_item bases)
      ]
      ∷ shown_error l.parent.base_error
      ∷ []))

abbrev pub sizes_part : SheetForm → Markup SheetPress
sizes_part f = element "div" [] (
    all (
      menu "CPU Cores" "vmCpu" "Select CPU Cores" f.vm_cpu (λ v. cpu_chosen v) " Cores" cpu_choices
      ∷ menu "RAM (GB)" "vmRam" "Select RAM" f.vm_ram (λ v. ram_chosen v) " GB" ram_choices
      ∷ menu "Storage (GB)" "vmStorage" "Select Storage" f.vm_storage (λ v. storage_chosen v) " GB"
          storage_choices
      ∷ []))

abbrev pub key_item : String → Markup SheetPress
key_item key = element "li" [] (text key)

abbrev pub key_list : Option User → List String
key_list user = elim (keys_of user) [ arr vs ↦ texts_of vs | _ ↦ [] ]

-- `VirtualMachineConfig`
abbrev pub virtual_machine_config : Option User → Bool → SheetForm → Markup SheetPress
virtual_machine_config user show_password f = element "div" [] (
    all (
      field_of_text "Virtual Machine Username" "vmUsername" f.vm_username
        "Enter username for the virtual machine" (λ v. changed (username_typed v))
      ∷ shown_if (f.error_text == "Username is required")
          (element "p" [] (text "Username is required"))
      ∷ element "Label" (attr "htmlFor" "vmPassword" ∷ []) (text "Virtual Machine Password")
      ∷ element "Input"
          (attr "id" "vmPassword"
            ∷ attr "type" (if show_password then "text" else "password")
            ∷ attr "value" f.vm_password
            ∷ on_change (λ v. changed (password_typed v))
            ∷ attr "placeholder" "Enter password for the virtual machine"
            ∷ [])
          empty
      ∷ element "Button" (attr "type" "button" ∷ on_click password_toggled ∷ []) empty
      ∷ shown_if (f.error_text == "Password is required")
          (element "p" [] (text "Password is required"))
      ∷ element "p" [] (
          text
            "Note: This password is for the virtual machine user account, not your platform account. It cannot be recovered if lost and can only be changed from within the virtual machine.")
      ∷ element "Label" [] (text "SSH Keys")
      ∷ element "p" [] (text "Available SSH Keys")
      ∷ element "Button" (on_click keys_managed ∷ []) (text "Manage Keys")
      ∷ (if lacks_keys user
          then element "p" []
              (text "No SSH keys found. Please add SSH keys in your profile settings.")
          else element "ul" [] (each key_item (key_list user)))
      ∷ []))

abbrev pub customize_part : Option User → Bool → SheetForm → Markup SheetPress
customize_part user show_password f = all (
    element "Checkbox"
      (attr "id" "customizeVm"
        ∷ on_check (λ b. changed (customize_set b))
        ∷ attr "label" "Customize virtual machine before creating template"
        ∷ [])
      empty
    ∷ element "p" [] (
        text
          "If enabled, you will be able to configure the virtual machine before creating the template. This allows you to install additional software and configure the system according to your needs.")
    ∷ shown_if (not f.customize_vm) (
        element "div" [] (
          all (
            element "Label" (attr "htmlFor" "templateDescription" ∷ [])
              (text "Template Description")
            ∷ element "Textarea"
                (attr "id" "templateDescription"
                  ∷ attr "value" f.template_description
                  ∷ on_change (λ v. changed (description_typed v))
                  ∷ attr "placeholder" "Enter a description for this template"
                  ∷ attr "required" ""
                  ∷ [])
                empty
            ∷ element "p" [] (
                text
                  "This description will help identify this template if there are multiple templates for this subject.")
            ∷ [])))
    ∷ shown_if f.customize_vm (element "div" [] (virtual_machine_config user show_password f))
    ∷ [])
