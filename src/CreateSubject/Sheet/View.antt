-- ===== src/CreateSubject/Sheet/View.antt =====
-- What the sheet of a new subject returns: the markup of web-server/frontend/src/components/
-- CreateSubjectSheet.tsx and of the part for a customised machine, VirtualMachineConfig.tsx, whose
-- password can be shown.
pub mod Parts
use remote_labs.Prelude.{
  Bool, List, Option, String, [], concat, false, if◌then◌else◌, none, not, some, suc, true, zero, ℕ,
  ◌+◌, ◌==◌, ◌||◌, ◌∷◌,
}
use remote_labs.Js.Value.{Value, arr, is_empty, num, str}
use remote_labs.Js.Text.{includes, to_text}
use remote_labs.Runtime.{
  Action, Outcome, Reply, User, emit, keys_of, lacks_keys, modify, navigated, zoom,
}
use remote_labs.Markup.{
  Markup, all, attr, disabled, each, element, empty, on_change, on_check, on_click, on_submit,
  shown_if, shown_text, text,
}
use remote_labs.Settings.{texts_of}
use remote_labs.CreateSubject.Sheet.{
  Sheet, SheetForm, SheetInput, base_chosen, cpu_chosen, customize_set, description_typed,
  email_typed, entered, handle_add_email, handle_remove_email, handle_subject_code_change,
  handle_submit, name_typed, open_changed, password_typed, ram_chosen, set_form, storage_chosen,
  students_typed, username_typed,
}
use remote_labs.CreateSubject.Sheet.View.Parts.{
  shown_error, field_of_text, professor_row, professors_part, email_row, students_part, item, menu,
  cpu_choices, ram_choices, counted, storage_choices, bases_failure, base_item, base_part,
  sizes_part, key_item, key_list, virtual_machine_config, customize_part, Base, SheetPress, changed,
  code_changed, email_removed, email_added, submit, cancel, password_toggled, keys_managed,
}

pub record SheetPage : Type 0 where
  pub sheet : Sheet
  -- the state of `VirtualMachineConfig`
  pub show_password : Bool

abbrev pub in_sheet : Action Sheet (Unit {0}) → Action SheetPage (Unit {0})
in_sheet = zoom (λ l. l.sheet) (λ k l. record l { sheet = k })

module _ (arrive : List (Value × Outcome Reply) → List (Value × Outcome Reply))
    (user : Option User) where
  -- The handlers; `r` is the state that was last rendered.
  unfoldable pub respond : SheetPress → SheetPage → Action SheetPage (Unit {0})
  respond (changed i) r = in_sheet (set_form (entered i))
  respond (code_changed v) r = in_sheet (handle_subject_code_change v)
  respond (email_removed e) r = in_sheet (handle_remove_email r.sheet.parent e)
  respond email_added r = in_sheet (handle_add_email r.sheet.parent)
  respond submit r = in_sheet (handle_submit arrive user r.sheet.parent)
  respond cancel r = in_sheet (set_form (λ f. record f { is_open = false }))
  respond password_toggled r = modify (λ l. record l { show_password = not r.show_password })
  respond keys_managed r = emit (navigated "/user-settings")

abbrev pub sheet_buttons : Sheet → Markup SheetPress
sheet_buttons l = element "div" [] (
    all (
      element "Button"
        (attr "type" "button" ∷ on_click cancel ∷ disabled (l.is_creating || l.parent.loading) ∷ [])
        (text "Cancel")
      ∷ element "Button" (attr "type" "submit" ∷ disabled (l.is_creating || l.parent.loading) ∷ [])
          (text (if l.is_creating then "Creating subject..." else "Create Subject"))
      ∷ []))

abbrev pub sheet_form : Option User → List Base → SheetPage → Markup SheetPress
sheet_form user bases p =
    let f = p.sheet.parent in
    element "form" (on_submit submit ∷ []) (
      all (
        field_of_text "Subject Name" "subjectName" f.subject_name "Enter subject name"
          (λ v. changed (name_typed v))
        ∷ shown_error f.subject_name_error
        ∷ field_of_text "Subject Code" "subjectCode" f.subject_code "Enter subject code"
            (λ v. code_changed v)
        ∷ element "p" [] (text "Subject code must be numeric")
        ∷ shown_error f.code_error
        ∷ shown_error f.subject_code_error
        ∷ professors_part f
        ∷ students_part f
        ∷ element "h3" [] (text "Virtual Machine Configuration")
        ∷ base_part bases p.sheet
        ∷ sizes_part f
        ∷ customize_part user p.show_password f
        ∷ shown_text p.sheet.creation_error
            (λ e. all (element "h3" [] (text "Error creating subject") ∷ text e ∷ []))
        ∷ sheet_buttons p.sheet
        ∷ []))

-- `CreateSubjectSheet`; `SheetContent` has a button that closes it.
abbrev pub create_subject_sheet : Option User → List Base → SheetPage → Markup SheetPress
create_subject_sheet user bases p = element "Sheet" [] (
    all (
      element "Button" (on_click (changed (open_changed true)) ∷ []) (text "Create a new subject")
      ∷ shown_if p.sheet.parent.is_open (
          element "SheetContent" (on_click (changed (open_changed false)) ∷ []) (
            if p.sheet.parent.loading
            then element "p" [] (text "This may take up a bit of time. Please wait...")
            else all (
                element "SheetTitle" [] (text "Create a new subject")
                ∷ element "SheetDescription" []
                    (text "Fill in the details to create a new subject. All fields are required.")
                ∷ sheet_form user bases p
                ∷ [])))
      ∷ []))
