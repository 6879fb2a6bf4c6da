-- ===== src/Template/Manager/View/Offered.antt =====
-- What the panel of a subject's templates offers.
use remote_labs.Prelude.{
  inl, inr, Bool, List, String, [], arith, false, none, not, if◌then◌else◌, true, ℕ, ◌∷◌, ◌≡◌, ◌⊎◌,
  ◌↔◌,
}
use remote_labs.Markup.{Markup, Offers, OffersIn, each}
use remote_labs.Markup.Laws.{each-none}
use remote_labs.Roster.Accounts.{is_selected}
use remote_labs.CreateSubject.Sheet.View.Parts.{Base}
use remote_labs.Js.Value.{is_empty}
use remote_labs.Runtime.{St, accepted, done}
use remote_labs.Template.Manager.{TemplatesManager}
use remote_labs.Template.Manager.Laws.{definition_request, handle_create_template_lem}
use remote_labs.Template.Manager.Define.{option}
use remote_labs.Template.Manager.View.{
  manager_respond, Template, TemplatesEvent, base_option, create, ram_changed, ram_options,
  cpu_changed, cpu_options, storage_changed, storage_options, subject_templates_manager,
  panel_around, template_row, delete_asked, dialog_part, dialog_changed, templates_part,
  is_create_disabled,
}

-- A template of the identifier is listed.
abbrev pub Lists : String → List Template → Type 0
Lists id [] = ⊥
Lists id (t ∷ ts) = (t.id ≡ id) ⊎ Lists id ts

rows-delete :
    (gigabytes : ℕ → String) (l : TemplatesManager) (id : String) (ts : List Template)
    → OffersIn none (each (template_row gigabytes l) ts) (delete_asked id)
      ↔ (Lists id ts × (is_selected l.deleting id ≡ false))
rows-delete gigabytes l id [] = (λ h. absurd h, λ h. h.0)
rows-delete gigabytes l id (t ∷ ts) = (
  λ h. ground (arith, rows-delete gigabytes l id ts),
  λ h. ground (arith, rows-delete gigabytes l id ts),
)

abbrev pub has_some : List Base → Bool
has_some [] = false
has_some (b ∷ bs) = true

creates :
    (bases : List Base) (l : TemplatesManager)
    → OffersIn none (dialog_part bases l) create
    → (l.is_loading_bases ≡ false) × (has_some bases ≡ true) × (is_create_disabled l ≡ false)
creates [] l h = ground arith
creates (b ∷ bs) l h = ground (
  arith,
  each-none none base_option create (λ b h. ground arith) (b ∷ bs),
  each-none none (option ram_changed " GB") create (λ b h. ground arith) ram_options,
  each-none none (option cpu_changed "") create (λ b h. ground arith) cpu_options,
  each-none none (option storage_changed " GB") create (λ b h. ground arith) (storage_options 49 0),
)

offered :
    (bases : List Base) (l : TemplatesManager)
    → has_some bases ≡ true
    → l.is_loading_bases ≡ false
    → is_create_disabled l ≡ false
    → OffersIn none (dialog_part bases l) create
offered [] l h k d = absurd (cc h)
offered (b ∷ bs) l h k d = ground (arith, h, k, d)

no_rows :
    (gigabytes : ℕ → String) (l : TemplatesManager) (ts : List Template)
    → OffersIn none (templates_part gigabytes ts l) create
    → ⊥
no_rows gigabytes l [] h = ground arith
no_rows gigabytes l (t ∷ ts) h =
    each-none none (template_row gigabytes l) create (λ t h. ground arith) (t ∷ ts) h

no_deletion :
    (bases : List Base) (l : TemplatesManager) (id : String)
    → OffersIn none (dialog_part bases l) (delete_asked id)
    → ⊥
no_deletion [] l id h = ground arith
no_deletion (b ∷ bs) l id h = ground (
  arith,
  each-none none base_option (delete_asked id) (λ b h. ground arith) (b ∷ bs),
  each-none none (option ram_changed " GB") (delete_asked id) (λ b h. ground arith) ram_options,
  each-none none (option cpu_changed "") (delete_asked id) (λ b h. ground arith) cpu_options,
  each-none none (option storage_changed " GB") (delete_asked id) (λ b h. ground arith)
      (storage_options 49 0),
)

part-delete :
    (gigabytes : ℕ → String) (l : TemplatesManager) (id : String) (ts : List Template)
    → OffersIn none (templates_part gigabytes ts l) (delete_asked id)
      ↔ (Lists id ts × (is_selected l.deleting id ≡ false))
part-delete gigabytes l id [] = (λ h. ground arith, λ h. absurd h.0)
part-delete gigabytes l id (t ∷ ts) = rows-delete gigabytes l id (t ∷ ts)

around_lem :
    (b c : Bool) (m n : Markup TemplatesEvent) (e : TemplatesEvent)
    → ((v : Bool) → dialog_changed v ≡ e → ⊥)
    → Offers (panel_around b c m n) e ↔ (((b ≡ true) × OffersIn none m e) ⊎ OffersIn none n e)
around_lem b c m n e other =
    (λ h. ground (arith, other true, other false), λ h. ground (arith, other))

-- The panel offers to create a template exactly while its dialogue shows bases, nothing is being
-- defined, and a base and a description are given.
pub Offers-create :
    (gigabytes : ℕ → String) (bases : List Base) (templates : List Template) (l : TemplatesManager)
    → Offers (subject_templates_manager gigabytes bases templates l) create ↔ (
        (l.is_open ≡ true)
        × (l.is_loading_bases ≡ false)
        × (has_some bases ≡ true)
        × (is_create_disabled l ≡ false))
Offers-create gigabytes bases templates l = (
  λ h. ground (
    arith,
    (around_lem _ _ _ _ create (λ v e. cc)).0 h,
    creates bases l,
    no_rows gigabytes l templates,
  ),
  λ h. (around_lem _ _ _ _ create (λ v e. cc)).1 (inl (h.0, offered bases l h.2 h.1 h.3)),
)

-- It offers to delete a template exactly if it is listed and is not being deleted.
Offers-delete_asked :
    (gigabytes : ℕ → String) (bases : List Base) (templates : List Template) (l : TemplatesManager)
    (id : String)
    → Offers (subject_templates_manager gigabytes bases templates l) (delete_asked id)
      ↔ (Lists id templates × (is_selected l.deleting id ≡ false))
Offers-delete_asked gigabytes bases templates l id = (
  λ h. ground (
    arith,
    (around_lem _ _ _ _ (delete_asked id) (λ v e. cc)).0 h,
    no_deletion bases l id,
    part-delete gigabytes l id templates,
  ),
  λ h.
      (around_lem _ _ _ _ (delete_asked id) (λ v e. cc)).1
        (inr ((part-delete gigabytes l id templates).1 h)),
)

filled :
    (l : TemplatesManager)
    → is_create_disabled l ≡ false
    → (is_empty l.selected_base ≡ false) × (is_empty l.template_description ≡ false)
filled l h = ground (arith, h)

-- While the panel offers to create a template, its dialogue is open and shows a base, and a press
-- sends the definition: it ends normally, and the form is emptied and closed if the server accepts
-- the definition, and otherwise keeps what was entered.
pub creation_lem :
    (gigabytes : ℕ → String) (bases : List Base) (templates : List Template) (subject_id : String)
    (s : St TemplatesManager)
    → Offers (subject_templates_manager gigabytes bases templates s.local) create
    → let out = manager_respond subject_id create s.local s in
      let verdict = accepted (s.world.net s.world.log (definition_request subject_id s)) in
      (s.local.is_open ≡ true)
      × (has_some bases ≡ true)
      × (out.0 ≡ done tt)
      × (out.1.local.selected_base ≡ (if verdict then "" else s.local.selected_base))
      × (out.1.local.template_description ≡ (if verdict then "" else s.local.template_description))
      × (out.1.local.is_open ≡ not verdict)
unfolding manager_respond
creation_lem gigabytes bases templates subject_id s h =
    let (o, _, b, d) = (Offers-create gigabytes bases templates s.local).0 h in
    let (f, g) = filled s.local d in
    let (e, base, text, shut) = handle_create_template_lem subject_id s f g in
    (o, b, e, base, text, ground (arith, o, shut))
