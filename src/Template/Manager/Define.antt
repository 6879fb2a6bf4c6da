-- ===== src/Template/Manager/Define.antt =====
-- The button that makes a template of a machine, as it is drawn:
-- web-server/frontend/src/components/vm/DefineTemplateButton.tsx, with what each press does.
pub mod Visits
use remote_labs.Prelude.{
  Bool, List, Option, String, [], concat, false, if◌then◌else◌, none, some, suc, true, zero, ℕ, ◌+◌,
  ◌||◌, ◌∷◌,
}
use remote_labs.Js.Value.{is_empty, num}
use remote_labs.Js.Text.{to_text}
use remote_labs.Js.Text.Decimal.{value}
use remote_labs.Runtime.{Action, modify, skip, ◌>>◌}
use remote_labs.Markup.{
  Markup, all, attr, disabled, each, element, empty, on_change, on_click, on_submit, shown_if, text,
}
use remote_labs.Roster.Accounts.{is_selected}
use remote_labs.CreateSubject.Sheet.View.Parts.{Base, counted}
use remote_labs.Template.Manager.{
  DefineButton, TemplatesManager, handle_create_template, handle_delete, submit_template,
}

-- The parts of a menu of sizes.
module _ {E : Type 0} where
  abbrev pub option : (String → E) → String → String → Markup E
  option choose unit v =
      element "SelectItem" (attr "value" v ∷ on_click (choose v) ∷ []) (text (concat v unit))

  abbrev pub size_option : (String → E) → String → ℕ → Markup E
  size_option choose unit n = option choose unit (to_text (num n))

  abbrev pub sizes : String → String → String → Markup E → Markup E
  sizes label placeholder chosen options = all (
      element "Label" [] (text label)
      ∷ element "Select" (attr "value" chosen ∷ attr "placeholder" placeholder ∷ []) options
      ∷ [])

pub data DefineEvent : Type 0 where
  open_changed : Bool → DefineEvent
  opened_by_button sent : DefineEvent
  description_typed cpu_picked ram_picked disk_picked : String → DefineEvent

abbrev pub cpu_numbers : List ℕ
cpu_numbers = 2 ∷ 4 ∷ 6 ∷ 8 ∷ 10 ∷ 12 ∷ 14 ∷ 16 ∷ []

abbrev pub ram_numbers : List ℕ
ram_numbers = 1 ∷ 2 ∷ 4 ∷ 8 ∷ 16 ∷ 32 ∷ []

abbrev pub disk_numbers : List ℕ
disk_numbers = counted 50 0

-- The handlers of `DefineTemplateButton`; `value 0` is `Number` on the digits of a menu.
unfoldable pub define_respond :
    String → String → DefineEvent → DefineButton → Action DefineButton (Unit {0})
define_respond instance_id subject_id (open_changed b) p =
    if p.loading then skip else modify (λ l. record l { is_open = b })
define_respond instance_id subject_id opened_by_button p = do
  modify (λ l. record l { is_open = true })
  if p.loading then skip else modify (λ l. record l { is_open = true })
define_respond instance_id subject_id sent p = submit_template instance_id subject_id p
define_respond instance_id subject_id (description_typed v) p =
    modify (λ l. record l { description = v })
define_respond instance_id subject_id (cpu_picked v) p =
    modify (λ l. record l { vcpu_count = value 0 v })
define_respond instance_id subject_id (ram_picked v) p =
    modify (λ l. record l { vram_gb = value 0 v })
define_respond instance_id subject_id (disk_picked v) p =
    modify (λ l. record l { size_gb = value 0 v })

abbrev pub define_form : DefineButton → Markup DefineEvent
define_form p = element "form" (on_submit sent ∷ []) (
    all (
      element "DialogTitle" [] (text "Define Template from VM")
      ∷ element "DialogDescription" []
          (text "Create a new template based on this VM configuration.")
      ∷ element "Label" [] (text "Description")
      ∷ element "Textarea"
          (attr "id" "description"
            ∷ attr "value" p.description
            ∷ on_change description_typed
            ∷ attr "placeholder" "Enter template description..."
            ∷ attr "required" ""
            ∷ [])
          empty
      ∷ sizes "vCPUs" "Select vCPUs" (to_text (num p.vcpu_count))
          (each (size_option cpu_picked "") cpu_numbers)
      ∷ sizes "RAM (GB)" "Select RAM" (to_text (num p.vram_gb))
          (each (size_option ram_picked " GB") ram_numbers)
      ∷ sizes "Disk Size (GB)" "Select Disk Size" (to_text (num p.size_gb))
          (each (size_option disk_picked " GB") disk_numbers)
      ∷ element "Button" (attr "type" "submit" ∷ disabled p.loading ∷ [])
          (text (if p.loading then "Creating..." else "Create Template"))
      ∷ []))

-- `DefineTemplateButton`; its dialogue is closed by a button of its own.
abbrev pub define_template_button : Bool → DefineButton → Markup DefineEvent
define_template_button is_teacher_or_admin p =
    if is_teacher_or_admin
    then all (
        element "Button" (on_click opened_by_button ∷ disabled p.loading ∷ [])
          (text "Define Template")
        ∷ shown_if p.is_open (
            element "DialogContent" (on_click (open_changed false) ∷ []) (
              if p.loading
              then element "p" [] (
                  text
                    "Your template is being created. This may take a few moments. If it does not appear after this loading state, please refresh the page before trying again.")
              else define_form p))
        ∷ [])
    else empty
