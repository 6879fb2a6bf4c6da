-- ===== src/Template/Manager/View.antt =====
-- The panel of a subject's templates as it is drawn: web-server/frontend/src/components/subject/
-- SubjectTemplatesManager.tsx, with what each press does.
pub mod Offered
use remote_labs.Prelude.{
  Bool, List, Option, String, [], concat, false, if◌then◌else◌, none, some, suc, true, zero, ℕ, ◌+◌,
  ◌||◌, ◌∷◌,
}
use remote_labs.Js.Value.{is_empty, num}
use remote_labs.Js.Text.{to_text}
use remote_labs.Js.Text.Decimal.{value}
use remote_labs.Runtime.{Action, modify, skip, ◌>>◌}
use remote_labs.Markup.{
  Markup, all, attr, disabled, each, element, empty, on_change, on_click, on_submit, shown_if, text,
}
use remote_labs.Roster.Accounts.{is_selected}
use remote_labs.CreateSubject.Sheet.View.Parts.{Base, counted}
use remote_labs.Template.Manager.{
  DefineButton, TemplatesManager, handle_create_template, handle_delete, submit_template,
}
use remote_labs.Template.Manager.Define.{option, sizes}

-- `Template`, as far as the panel draws it
pub record Template : Type 0 where
  pub id : String
  pub description : String
  pub vcpu_count : ℕ
  pub vram_mb : ℕ
  pub size_mb : ℕ

pub data TemplatesEvent : Type 0 where
  dialog_changed : Bool → TemplatesEvent
  base_picked description_changed ram_changed cpu_changed storage_changed : String → TemplatesEvent
  create : TemplatesEvent
  delete_asked : String → TemplatesEvent

-- The handlers of `SubjectTemplatesManager`; `p` is the state that was last rendered.
unfoldable pub manager_respond :
    String → TemplatesEvent → TemplatesManager → Action TemplatesManager (Unit {0})
manager_respond subject_id (dialog_changed b) p = modify (λ l. record l { is_open = b })
manager_respond subject_id (base_picked v) p = modify (λ l. record l { selected_base = v })
manager_respond subject_id (description_changed v) p =
    modify (λ l. record l { template_description = v })
manager_respond subject_id (ram_changed v) p = modify (λ l. record l { vm_ram = v })
manager_respond subject_id (cpu_changed v) p = modify (λ l. record l { vm_cpu = v })
manager_respond subject_id (storage_changed v) p = modify (λ l. record l { vm_storage = v })
manager_respond subject_id create p = handle_create_template subject_id p
manager_respond subject_id (delete_asked id) p = handle_delete subject_id id

abbrev pub ram_options : List String
ram_options = "1" ∷ "2" ∷ "4" ∷ "8" ∷ "16" ∷ []

abbrev pub cpu_options : List String
cpu_options = "2" ∷ "4" ∷ "6" ∷ "8" ∷ "10" ∷ "12" ∷ "14" ∷ "16" ∷ []

-- `Array.from({ length: n }, (_, i) => String(i + 2))`, from `i` on
abbrev pub storage_options : ℕ → ℕ → List String
storage_options zero i = []
storage_options (suc n) i = to_text (num (i + 2)) ∷ storage_options n (i + 1)

abbrev pub base_option : Base → Markup TemplatesEvent
base_option b =
    element "SelectItem" (attr "value" b.base_id ∷ on_click (base_picked b.base_id) ∷ [])
      (text b.description)

-- Whether the button that creates a template is disabled.
abbrev pub is_create_disabled : TemplatesManager → Bool
is_create_disabled l =
    l.defining.loading || is_empty l.selected_base || is_empty l.template_description

abbrev pub creation : List Base → TemplatesManager → Markup TemplatesEvent
creation bases l = all (
    element "Label" [] (text "Base Template")
    ∷ element "Select"
        (attr "value" l.selected_base ∷ attr "placeholder" "Select a base template" ∷ [])
        (each base_option bases)
    ∷ element "Label" [] (text "Description")
    ∷ element "Input"
        (attr "id" "description"
          ∷ attr "value" l.template_description
          ∷ on_change description_changed
          ∷ attr "placeholder" "Enter template description"
          ∷ [])
        empty
    ∷ sizes "RAM (GB)" "Select RAM size" l.vm_ram (each (option ram_changed " GB") ram_options)
    ∷ sizes "vCPUs" "Select number of vCPUs" l.vm_cpu (each (option cpu_changed "") cpu_options)
    ∷ sizes "Storage (GB)" "Select storage size" l.vm_storage
        (each (option storage_changed " GB") (storage_options 49 0))
    ∷ element "Button" (on_click create ∷ disabled (is_create_disabled l) ∷ [])
        (text (if l.defining.loading then "Creating..." else "Create Template"))
    ∷ [])

abbrev pub available : List Base → TemplatesManager → Markup TemplatesEvent
available [] l = all (
    element "h4" [] (text "No bases available")
    ∷ element "p" [] (text "The service is currently not available to provide base templates.")
    ∷ [])
available (b ∷ bs) l = creation (b ∷ bs) l

abbrev pub dialog_part : List Base → TemplatesManager → Markup TemplatesEvent
dialog_part bases l =
    if l.is_loading_bases then element "div" [] (text "Loading bases...") else available bases l

-- `gigabytes` is `(n / 1024).toFixed(1)`.
abbrev pub template_row : (ℕ → String) → TemplatesManager → Template → Markup TemplatesEvent
template_row gigabytes l tpl = element "TableRow" [] (
    all (
      element "TableCell" [] (text tpl.description)
      ∷ element "TableCell" [] (text (to_text (num tpl.vcpu_count)))
      ∷ element "TableCell" [] (text (gigabytes tpl.vram_mb))
      ∷ element "TableCell" [] (text (gigabytes tpl.size_mb))
      ∷ element "Button"
          (on_click (delete_asked tpl.id) ∷ disabled (is_selected l.deleting tpl.id) ∷ [])
          (text (if is_selected l.deleting tpl.id then "Deleting..." else "Delete"))
      ∷ []))

abbrev pub templates_part : (ℕ → String) → List Template → TemplatesManager → Markup TemplatesEvent
templates_part gigabytes [] l =
    element "TableRow" [] (element "TableCell" [] (text "No templates found for this subject."))
templates_part gigabytes (tpl ∷ tpls) l = each (template_row gigabytes l) (tpl ∷ tpls)

-- The panel around what its dialogue and its table hold.
abbrev pub panel_around :
    Bool → Bool → Markup TemplatesEvent → Markup TemplatesEvent → Markup TemplatesEvent
panel_around is_open loading m n = all (
    element "h2" []
      (all (text "Templates" ∷ element "Button" (on_click (dialog_changed true) ∷ []) empty ∷ []))
    ∷ shown_if is_open (
        element "DialogContent" (on_click (dialog_changed false) ∷ []) (
          all (
            element "DialogTitle" [] (text "Create a new template")
            ∷ element "DialogDescription" []
                (text "Fill in the details to create a new template. All fields are required.")
            ∷ m
            ∷ [])))
    ∷ shown_if loading (element "div" [] (text "Loading templates..."))
    ∷ element "Table" [] (
        all (
          element "TableHeader" [] (
            all (
              text "Description"
              ∷ text "vCPUs"
              ∷ text "RAM (GB)"
              ∷ text "Disk (GB)"
              ∷ text "Actions"
              ∷ []))
          ∷ n
          ∷ []))
    ∷ [])

-- `SubjectTemplatesManager`, with the bases and the templates that the server has sent.
abbrev pub subject_templates_manager :
    (ℕ → String) → List Base → List Template → TemplatesManager → Markup TemplatesEvent
subject_templates_manager gigabytes bases templates l =
    panel_around l.is_open l.templates.loading (dialog_part bases l)
      (templates_part gigabytes templates l)
