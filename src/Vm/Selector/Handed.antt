-- ===== src/Vm/Selector/Handed.antt =====
-- Which template the choice of TemplateSelector.tsx hands down, over all that can happen to it.
use remote_labs.Prelude.{
  Bool, Bool-cases, List, Option, String, [], arith, eq_iff, false, inl, inr, none, refl, some,
  true, ℕ, ◌==◌, ◌∷◌, ◌≡◌, ◌⊎◌,
}
use remote_labs.Js.Value.{is_empty}
use remote_labs.Markup.{Offers, OffersIn, each}
use remote_labs.Template.Manager.View.{Template}
use remote_labs.Vm.Request.{LabProps}
use remote_labs.Vm.Selector.{
  SelectorEvent, TemplateSelector, choice, find_template, handed, no_choice, request_part,
  reset_selected, template_item, template_picked, template_selector, with_templates,
}

-- A template of the identifier is among them.
abbrev pub Listed : String → List Template → Type 0
Listed id [] = ⊥
Listed id (t ∷ ts) = (t.id ≡ id) ⊎ Listed id ts

items-Listed :
    (gigabytes : ℕ → String) (id : String) (ts : List Template)
    → OffersIn none (each (template_item gigabytes) ts) (template_picked id)
    → Listed id ts
items-Listed gigabytes id [] h = absurd h
items-Listed gigabytes id (t ∷ ts) h = ground (arith, items-Listed gigabytes id ts)

module _ (gigabytes : ℕ → String) (subject_id : String) where
  request-none : (p : Option LabProps) (e : SelectorEvent) → OffersIn none (request_part p) e → ⊥
  request-none none e h = absurd h
  request-none (some p) e h = ground arith

  choice-Listed :
      (ts : List Template) (l : TemplateSelector) (id : String)
      → OffersIn none (choice gigabytes subject_id ts l) (template_picked id)
      → Listed id ts
  choice-Listed [] l id h = ground arith
  choice-Listed (t ∷ ts) l id h = ground (
    arith,
    items-Listed gigabytes id (t ∷ ts),
    request-none (handed subject_id l) (template_picked id),
  )

  picked-Listed :
      (loading : Bool) (l : TemplateSelector) (id : String)
      → Offers (template_selector gigabytes subject_id loading l) (template_picked id)
      → Listed id l.templates
  picked-Listed true l id h = ground arith
  picked-Listed false l id h = ground (arith, choice-Listed l.templates l id)

  -- The states that the component reaches. The test is whether the effect has run since the templates
  -- were given: they are drawn before it, and it runs some time later.
  pub data Reach : Bool → TemplateSelector → Type 0 where
    mounted : (templates : List Template) → Reach false (no_choice templates)
    given :
        {settled : Bool} {l : TemplateSelector}
        → Reach settled l
        → (templates : List Template) → Reach false (with_templates templates l)
    effect : {l : TemplateSelector} → Reach false l → Reach true (reset_selected l)
    picked :
        {settled : Bool} {l : TemplateSelector}
        → Reach settled l
        → (loading : Bool) (id : String)
        → Offers (template_selector gigabytes subject_id loading l) (template_picked id)
        → Reach settled (record { templates = l.templates; selected_template = id })

  Reach-Listed :
      {settled : Bool} {l : TemplateSelector}
      → settled ≡ true
      → Reach settled l
      → (is_empty l.selected_template ≡ true) ⊎ Listed l.selected_template l.templates
  Reach-Listed e (mounted templates) = absurd (cc e)
  Reach-Listed e (given r templates) = absurd (cc e)
  Reach-Listed e (effect r) = inl refl
  Reach-Listed e (picked {l = l} r loading id offered) = inr (picked-Listed loading l id offered)

-- The template is one of the list.
abbrev pub In : Template → List Template → Type 0
In t [] = ⊥
In t (u ∷ us) = (u ≡ t) ⊎ In t us

-- A request for the laboratory of the template.
abbrev pub props_of : String → Template → LabProps
props_of subject_id t = record {
  subject_id = subject_id;
  template_id = t.id;
  vcpu_count = t.vcpu_count;
  vram_mb = t.vram_mb;
  size_mb = t.size_mb;
}

find_template_lem :
    (id : String) (ts : List Template)
    → Listed id ts
    → (t : Template) × ((find_template id ts ≡ some t) × (t.id ≡ id) × In t ts)
find_template_lem id [] h = absurd h
find_template_lem id (t ∷ ts) h = elim (Bool-cases (t.id == id)) [
  | inl e ↦ rw e (t, (refl, (eq_iff t.id id).0 e, inl refl))
  | inr n ↦ rw n (let (u, (f, e, m)) = find_template_lem id ts (later n h) in (u, (f, e, inr m)))
]
  where
    later : (t.id == id) ≡ false → Listed id (t ∷ ts) → Listed id ts
    later n (inl e) = absurd (cc (n, (eq_iff t.id id).1 e))
    later n (inr k) = k

handed-empty :
    (subject_id : String) (l : TemplateSelector) (p : LabProps)
    → is_empty l.selected_template ≡ true
    → handed subject_id l ≡ some p
    → ⊥
unfolding handed
handed-empty subject_id l p e h = ground (arith, e, h)

handed-found :
    (subject_id : String) (l : TemplateSelector) (p : LabProps) (t : Template)
    → find_template l.selected_template l.templates ≡ some t
    → t.id ≡ l.selected_template
    → handed subject_id l ≡ some p
    → p ≡ props_of subject_id t
unfolding handed
handed-found subject_id l p t f e h = ground (arith, f, e, h)

-- Whatever was picked and whatever templates the page has given since, once the effect of the last
-- change of the templates has run, the button of the request is handed exactly one of the templates
-- that are listed now, with its own sizes: no longer the sizes 0 that stand in for a template that is
-- not found.
pub handed_lem :
    (gigabytes : ℕ → String) (subject_id : String) {l : TemplateSelector} (p : LabProps)
    → Reach gigabytes subject_id true l
    → handed subject_id l ≡ some p
    → (t : Template) × (In t l.templates × (p ≡ props_of subject_id t))
handed_lem gigabytes subject_id {l} p r h = elim (Reach-Listed gigabytes subject_id refl r) [
  | inl e ↦ absurd (handed-empty subject_id l p e h)
  | inr k ↦
      let (t, (f, e, m)) = find_template_lem l.selected_template l.templates k in
      (t, (m, handed-found subject_id l p t f e h))
]
