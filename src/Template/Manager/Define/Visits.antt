-- ===== src/Template/Manager/Define/Visits.antt =====
-- The sizes of a template that is made of a machine, over every visit of its dialogue.
use remote_labs.Prelude.{Bool, List, String, [], arith, some, ℕ, ◌∷◌, ◌≡◌, ◌⊎◌, subst}
use remote_labs.Js.Value.{num}
use remote_labs.Js.Text.{to_text}
use remote_labs.Js.Text.Decimal.{value, value-to_text}
use remote_labs.Template.{DefineTemplate}
use remote_labs.Runtime.{Action, St, Keeps, keeps_rules, modify, zoom}
use remote_labs.Markup.{Offers, OffersIn, each}
use remote_labs.Markup.Laws.{each-none}
use remote_labs.Markup.Visit.{Visit, after, opened}
use remote_labs.Template.Manager.{DefineButton, submit_template}
use remote_labs.Template.Manager.Define.{
  DefineEvent, cpu_numbers, cpu_picked, define_respond, define_template_button, description_typed,
  disk_numbers, disk_picked, size_option, open_changed, opened_by_button, ram_numbers, ram_picked,
  sent,
}

abbrev pub IsOneOf : List ℕ → ℕ → Type 0
IsOneOf [] n = ⊥
IsOneOf (m ∷ ms) n = (m ≡ n) ⊎ IsOneOf ms n

pub record IsChosen (l : DefineButton) : Type 0 where
  pub cpu : IsOneOf cpu_numbers l.vcpu_count
  pub ram : IsOneOf ram_numbers l.vram_gb
  pub disk : IsOneOf disk_numbers l.size_gb

-- What is picked in a menu is read back as one of its numbers.
menu-IsOneOf :
    (pick : String → DefineEvent) (unit v : String) (ns : List ℕ)
    → ((w : String) → pick w ≡ pick v → w ≡ v)
    → OffersIn (some sent) (each (size_option pick unit) ns) (pick v)
    → IsOneOf ns (value 0 v)
menu-IsOneOf pick unit v [] inj h = h
menu-IsOneOf pick unit v (n ∷ ns) inj h =
    ground (arith, inj (to_text (num n)), value-to_text n, menu-IsOneOf pick unit v ns inj)

menu-none :
    (pick : String → DefineEvent) (unit : String) (x : DefineEvent) (ns : List ℕ)
    → ((w : String) → pick w ≡ x → ⊥)
    → (sent ≡ x → ⊥)
    → OffersIn (some sent) (each (size_option pick unit) ns) x
    → ⊥
menu-none pick unit x ns other sends =
    each-none (some sent) (size_option pick unit) x (λ n h. ground (arith, other (to_text (num n))))
      ns

Offers-cpu :
    (b : Bool) (v : String) (l : DefineButton)
    → Offers (define_template_button b l) (cpu_picked v)
    → IsOneOf cpu_numbers (value 0 v)
Offers-cpu b v l h = ground (
  arith,
  menu-IsOneOf (λ v. cpu_picked v) "" v cpu_numbers (λ w e. cc),
  menu-none (λ v. ram_picked v) " GB" (cpu_picked v) ram_numbers (λ w e. cc) (λ e. cc),
  menu-none (λ v. disk_picked v) " GB" (cpu_picked v) disk_numbers (λ w e. cc) (λ e. cc),
)

Offers-ram :
    (b : Bool) (v : String) (l : DefineButton)
    → Offers (define_template_button b l) (ram_picked v)
    → IsOneOf ram_numbers (value 0 v)
Offers-ram b v l h = ground (
  arith,
  menu-none (λ v. cpu_picked v) "" (ram_picked v) cpu_numbers (λ w e. cc) (λ e. cc),
  menu-IsOneOf (λ v. ram_picked v) " GB" v ram_numbers (λ w e. cc),
  menu-none (λ v. disk_picked v) " GB" (ram_picked v) disk_numbers (λ w e. cc) (λ e. cc),
)

-- What the disks of the menu allow, the form allows.
Offers-disks :
    (Q : Type 0) (b : Bool) (v : String) (l : DefineButton)
    → (OffersIn (some sent) (each (size_option disk_picked " GB") disk_numbers) (disk_picked v) → Q)
    → Offers (define_template_button b l) (disk_picked v)
    → Q
Offers-disks Q b v l q h = ground (
  arith,
  menu-none (λ v. cpu_picked v) "" (disk_picked v) cpu_numbers (λ w e. cc) (λ e. cc),
  menu-none (λ v. ram_picked v) " GB" (disk_picked v) ram_numbers (λ w e. cc) (λ e. cc),
  q,
)

-- A change of other fields.
other-IsChosen :
    (d : String) (o n : Bool) (t : DefineTemplate) (l : DefineButton)
    → IsChosen l
    → IsChosen (record l { description = d; is_open = o; loading = n; defining = t })
other-IsChosen d o n t l h = record { cpu = h.cpu; ram = h.ram; disk = h.disk }

modify-Keeps :
    (f : DefineButton → DefineButton)
    → ((l : DefineButton)
        → record l {
          description = (f l).description;
          is_open = (f l).is_open;
          loading = (f l).loading;
          defining = (f l).defining;
        }
          ≡ f l)
    → Keeps IsChosen (modify f)
modify-Keeps f e = record {
  at = λ s h.
      let l = s.local in
      subst IsChosen (e l)
        (other-IsChosen (f l).description (f l).is_open (f l).loading (f l).defining l h);
}

in_define-Keeps :
    (m : Action DefineTemplate (Unit {0}))
    → Keeps IsChosen
        (zoom {L = DefineButton} (λ l. l.defining) (λ d l. record l { defining = d }) m)
in_define-Keeps m = record {
  at = λ s h. other-IsChosen s.local.description s.local.is_open s.local.loading _ s.local h;
}

submit_template-Keeps :
    (instance_id subject_id : String) (r : DefineButton)
    → Keeps IsChosen (submit_template instance_id subject_id r)
unfolding submit_template
submit_template-Keeps instance_id subject_id r =
    search (keeps_rules, modify-Keeps, in_define-Keeps) depth 20

module _ (instance_id subject_id : String) (b : Bool) where
  respond-IsChosen :
      (e : DefineEvent) (s : St DefineButton)
      → Offers (define_template_button b s.local) e
      → IsChosen s.local
      → IsChosen (define_respond instance_id subject_id e s.local s).1.local
  unfolding define_respond
  respond-IsChosen (open_changed v) s o h = ground (arith, h)
  respond-IsChosen opened_by_button s o h = ground (arith, h)
  respond-IsChosen sent s o h = (submit_template-Keeps instance_id subject_id s.local).at s h
  respond-IsChosen (description_typed v) s o h = record { cpu = h.cpu; ram = h.ram; disk = h.disk }
  respond-IsChosen (cpu_picked v) s o h = record {
    cpu = Offers-cpu b v s.local o;
    ram = h.ram;
    disk = h.disk;
  }
  respond-IsChosen (ram_picked v) s o h = record {
    cpu = h.cpu;
    ram = Offers-ram b v s.local o;
    disk = h.disk;
  }
  respond-IsChosen (disk_picked v) s o h = record {
    cpu = h.cpu;
    ram = h.ram;
    disk =
        Offers-disks (IsOneOf disk_numbers (value 0 v)) b v s.local
          (menu-IsOneOf (λ v. disk_picked v) " GB" v disk_numbers (λ w e. cc)) o;
  }

  -- In any visit of the button, the sizes of the template are numbers of the three menus, if they are
  -- so at first: what is picked is read back from the text of its choice.
  pub Visit-IsChosen :
      {s t : St DefineButton}
      → IsChosen s.local
      → Visit (define_template_button b) (define_respond instance_id subject_id) s t
      → IsChosen t.local
  Visit-IsChosen h opened = h
  Visit-IsChosen h (after {t = t} v e offered ends) =
      subst (λ (u : St DefineButton). IsChosen u.local) ends
        (respond-IsChosen e t offered (Visit-IsChosen h v))
