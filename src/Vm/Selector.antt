-- ===== src/Vm/Selector.antt =====
-- The choice of a template for a laboratory: web-server/frontend/src/components/vm/
-- TemplateSelector.tsx, and what it hands down to the button of the request.
pub mod Handed
use remote_labs.Prelude.{
  Bool, List, Option, String, [], arith, concat, eq_iff, false, if◌then◌else◌, inl, inr, none, refl,
  some, true, ℕ, ◌==◌, ◌∷◌, ◌≡◌, ◌⊎◌,
}
use remote_labs.Js.Value.{is_empty, num}
use remote_labs.Js.Text.{to_text}
use remote_labs.Markup.{Markup, Offers, OffersIn, all, attr, each, element, empty, on_click, text}
use remote_labs.Template.Manager.View.{Template}
use remote_labs.Vm.Request.{LabProps}

-- The templates that the page gives, and the state of the component.
pub record TemplateSelector : Type 0 where
  pub templates : List Template
  pub selected_template : String

pub data SelectorEvent : Type 0 where
  template_picked : String → SelectorEvent

-- `templates.find((t) => t.id === id)`
abbrev pub find_template : String → List Template → Option Template
find_template id [] = none
find_template id (t ∷ ts) = if t.id == id then some t else find_template id ts

-- `found?.field ?? 0`
abbrev pub field_or : (Template → ℕ) → Option Template → ℕ
field_or f none = 0
field_or f (some t) = f t

-- What the button of the request is given, if it is shown.
unfoldable pub handed : String → TemplateSelector → Option LabProps
handed subject_id l =
    if is_empty l.selected_template
    then none
    else let found = find_template l.selected_template l.templates in
      some (record {
        subject_id = subject_id;
        template_id = l.selected_template;
        vcpu_count = field_or (λ t. t.vcpu_count) found;
        vram_mb = field_or (λ t. t.vram_mb) found;
        size_mb = field_or (λ t. t.size_mb) found;
      })

-- The component when it is first drawn.
abbrev pub no_choice : List Template → TemplateSelector
no_choice templates = record { templates = templates; selected_template = "" }

-- The page gives other templates: they are drawn with the choice as it is.
abbrev pub with_templates : List Template → TemplateSelector → TemplateSelector
with_templates templates l = record {
  templates = templates;
  selected_template = l.selected_template;
}

-- The effect of the page's giving other templates, which runs after they are drawn.
abbrev pub reset_selected : TemplateSelector → TemplateSelector
reset_selected l = record { templates = l.templates; selected_template = "" }

-- `gigabytes` is `n / 1024`.
abbrev pub template_item : (ℕ → String) → Template → Markup SelectorEvent
template_item gigabytes t =
    element "SelectItem" (attr "value" t.id ∷ on_click (template_picked t.id) ∷ []) (
      all (
        element "p" [] (text t.description)
        ∷ element "p" [] (text (concat "vCPUs: " (to_text (num t.vcpu_count))))
        ∷ element "p" [] (text (concat "RAM: " (concat (gigabytes t.vram_mb) " GB")))
        ∷ element "p" [] (text (concat "Disk: " (concat (gigabytes t.size_mb) " GB")))
        ∷ []))

abbrev pub request_part : Option LabProps → Markup SelectorEvent
request_part none = empty
request_part (some p) = element "RequestLabButton" (attr "templateId" p.template_id ∷ []) empty

abbrev pub choice : (ℕ → String) → String → List Template → TemplateSelector → Markup SelectorEvent
choice gigabytes subject_id [] l = element "p" [] (text "No templates available")
choice gigabytes subject_id (t ∷ ts) l = all (
    element "CardTitle" [] (text "Request Lab")
    ∷ element "label" [] (text "Select Template")
    ∷ element "Select"
        (attr "value" l.selected_template ∷ attr "placeholder" "Select a template" ∷ [])
        (each (template_item gigabytes) (t ∷ ts))
    ∷ request_part (handed subject_id l)
    ∷ [])

-- `TemplateSelector`
abbrev pub template_selector :
    (ℕ → String) → String → Bool → TemplateSelector → Markup SelectorEvent
template_selector gigabytes subject_id loading l =
    if loading
    then element "Card" [] empty
    else element "Card" [] (choice gigabytes subject_id l.templates l)
