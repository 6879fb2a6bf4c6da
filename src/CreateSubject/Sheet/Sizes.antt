-- ===== src/CreateSubject/Sheet/Sizes.antt =====
-- The sizes of a machine that the sheet can ask for.
use remote_labs.Prelude.{
  Bool, List, Option, String, [], arith, inl, inr, refl, some, subst, ℕ, ◌∷◌, ◌≡◌, ◌≤◌, ◌⊎◌,
}
use remote_labs.Js.Value.{num}
use remote_labs.Js.Text.{to_text, decimal}
use remote_labs.Runtime.{User}
use remote_labs.Markup.{Offers, OffersIn, each}
use remote_labs.Markup.Laws.{each-none}
use remote_labs.CreateSubject.{CreateSubjectParams}
use remote_labs.CreateSubject.Sheet.{
  Sheet, SheetForm, SheetInput, cleared, cpu_chosen, params_of, ram_chosen, storage_chosen,
}
use remote_labs.CreateSubject.Sheet.View.Parts.{
  Base, SheetPress, base_item, base_part, changed, cpu_choices, customize_part, item, professor_row,
  professors_part, ram_choices, email_row, key_item, key_list, sizes_part, storage_choices,
  students_part, submit,
}
use remote_labs.CreateSubject.Sheet.View.{SheetPage, create_subject_sheet}

-- The text is one of the numbers.
abbrev pub OneOf : List ℕ → String → Type 0
OneOf [] v = ⊥
OneOf (n ∷ ns) v = (to_text (num n) ≡ v) ⊎ OneOf ns v

-- The text is a whole number between the bounds.
unfoldable pub Between : ℕ → ℕ → String → Type 0
Between lo hi v = (n : ℕ) × ((to_text (num n) ≡ v) × (lo ≤ n) × (n ≤ hi))

-- The sizes of the machine: 2 to 16 cores, 1 to 32 GB of memory and 1 to 50 GB of storage.
pub record IsSized (f : SheetForm) : Type 0 where
  pub cpu : Between 2 16 f.vm_cpu
  pub ram : Between 1 32 f.vm_ram
  pub storage : Between 1 50 f.vm_storage

AllBetween : ℕ → ℕ → List ℕ → Type 0
AllBetween lo hi [] = Unit
AllBetween lo hi (n ∷ ns) = (lo ≤ n) × (n ≤ hi) × AllBetween lo hi ns

OneOf-Between :
    (lo hi : ℕ) (ns : List ℕ) (v : String) → AllBetween lo hi ns → OneOf ns v → Between lo hi v
unfolding AllBetween Between
OneOf-Between lo hi [] v b h = absurd h
OneOf-Between lo hi (n ∷ ns) v b (inl e) = (n, (e, b.0, b.1))
OneOf-Between lo hi (n ∷ ns) v b (inr h) = OneOf-Between lo hi ns v b.2 h

pub cpu-Between : (v : String) → OneOf cpu_choices v → Between 2 16 v
unfolding AllBetween
cpu-Between v = OneOf-Between 2 16 cpu_choices v (ground arith)

pub ram-Between : (v : String) → OneOf ram_choices v → Between 1 32 v
unfolding AllBetween
ram-Between v = OneOf-Between 1 32 ram_choices v (ground arith)

pub storage-Between : (v : String) → OneOf storage_choices v → Between 1 50 v
unfolding AllBetween
storage-Between v = OneOf-Between 1 50 storage_choices v (ground arith)

pub IsSized-params : (f g : SheetForm) → params_of f ≡ params_of g → IsSized f → IsSized g
IsSized-params f g e h = record {
  cpu = subst (λ (p : CreateSubjectParams). Between 2 16 p.vm_cpu) e h.cpu;
  ram = subst (λ (p : CreateSubjectParams). Between 1 32 p.vm_ram) e h.ram;
  storage = subst (λ (p : CreateSubjectParams). Between 1 50 p.vm_storage) e h.storage;
}

pub cleared-IsSized : (f : SheetForm) → IsSized (cleared f)
unfolding to_text decimal Between
cleared-IsSized f = record {
  cpu = (2, (refl, omega arith, omega arith));
  ram = (1, (refl, omega arith, omega arith));
  storage = (1, (refl, omega arith, omega arith));
}

-- What is chosen in a menu is one of its numbers, and the menu offers nothing else.
menu-OneOf :
    (choose : String → SheetInput) (unit v : String) (ns : List ℕ)
    → ((w : String) → choose w ≡ choose v → w ≡ v)
    → OffersIn (some submit) (each (item choose unit) ns) (changed (choose v))
    → OneOf ns v
menu-OneOf choose unit v [] inj h = h
menu-OneOf choose unit v (n ∷ ns) inj h =
    ground (arith, inj (to_text (num n)), menu-OneOf choose unit v ns inj)

menu-none :
    (choose : String → SheetInput) (unit : String) (x : SheetPress) (ns : List ℕ)
    → ((w : String) → changed (choose w) ≡ x → ⊥)
    → (submit ≡ x → ⊥)
    → OffersIn (some submit) (each (item choose unit) ns) x
    → ⊥
menu-none choose unit x ns other sends =
    each-none (some submit) (item choose unit) x (λ n h. ground (arith, other (to_text (num n)))) ns

-- The menus of the three sizes.
menus-cpu :
    (f : SheetForm) (v : String)
    → OffersIn (some submit) (sizes_part f) (changed (cpu_chosen v))
    → OneOf cpu_choices v
menus-cpu f v h = ground (
  arith,
  menu-OneOf (λ v. cpu_chosen v) " Cores" v cpu_choices (λ w e. cc),
  menu-none (λ v. ram_chosen v) " GB" (changed (cpu_chosen v)) ram_choices (λ w e. cc) (λ e. cc),
  menu-none (λ v. storage_chosen v) " GB" (changed (cpu_chosen v)) storage_choices (λ w e. cc)
      (λ e. cc),
)

menus-ram :
    (f : SheetForm) (v : String)
    → OffersIn (some submit) (sizes_part f) (changed (ram_chosen v))
    → OneOf ram_choices v
menus-ram f v h = ground (
  arith,
  menu-none (λ v. cpu_chosen v) " Cores" (changed (ram_chosen v)) cpu_choices (λ w e. cc) (λ e. cc),
  menu-OneOf (λ v. ram_chosen v) " GB" v ram_choices (λ w e. cc),
  menu-none (λ v. storage_chosen v) " GB" (changed (ram_chosen v)) storage_choices (λ w e. cc)
      (λ e. cc),
)

menus-storage :
    (f : SheetForm) (v : String)
    → OffersIn (some submit) (sizes_part f) (changed (storage_chosen v))
    → OneOf storage_choices v
menus-storage f v h = ground (
  arith,
  menu-none (λ v. cpu_chosen v) " Cores" (changed (storage_chosen v)) cpu_choices (λ w e. cc)
      (λ e. cc),
  menu-none (λ v. ram_chosen v) " GB" (changed (storage_chosen v)) ram_choices (λ w e. cc)
      (λ e. cc),
  menu-OneOf (λ v. storage_chosen v) " GB" v storage_choices (λ w e. cc),
)

-- The choice of a size, by its menu.
pub data Menu : Type 0 where
  cpu_menu ram_menu storage_menu : Menu

abbrev pub chosen : Menu → String → SheetPress
chosen cpu_menu v = changed (cpu_chosen v)
chosen ram_menu v = changed (ram_chosen v)
chosen storage_menu v = changed (storage_chosen v)

abbrev pub choices : Menu → List ℕ
choices cpu_menu = cpu_choices
choices ram_menu = ram_choices
choices storage_menu = storage_choices

sizes-OneOf :
    (m : Menu) (f : SheetForm) (v : String)
    → OffersIn (some submit) (sizes_part f) (chosen m v)
    → OneOf (choices m) v
sizes-OneOf cpu_menu = menus-cpu
sizes-OneOf ram_menu = menus-ram
sizes-OneOf storage_menu = menus-storage

professors-none :
    (m : Menu) (v : String) (f : SheetForm)
    → OffersIn (some submit) (professors_part f) (chosen m v)
    → ⊥
professors-none m v f h = ground (
  arith,
  each-none (some submit) professor_row (chosen m v) (λ e h. ground arith) f.professor_emails,
)

students-none :
    (m : Menu) (v : String) (f : SheetForm)
    → OffersIn (some submit) (students_part f) (chosen m v)
    → ⊥
students-none m v f h = ground (
  arith,
  each-none (some submit) email_row (chosen m v) (λ e h. ground arith) f.invalid_student_emails,
)

bases-none :
    (m : Menu) (v : String) (bases : List Base) (l : Sheet)
    → OffersIn (some submit) (base_part bases l) (chosen m v)
    → ⊥
bases-none m v bases l h =
    ground (arith, each-none (some submit) base_item (chosen m v) (λ b h. ground arith) bases)

customize-none :
    (m : Menu) (v : String) (user : Option User) (b : Bool) (f : SheetForm)
    → OffersIn (some submit) (customize_part user b f) (chosen m v)
    → ⊥
customize-none m v user b f h =
    ground
      (arith, each-none (some submit) key_item (chosen m v) (λ k h. ground arith) (key_list user))

-- A size that the sheet offers is one of the numbers of its menu.
pub Offers-OneOf :
    (m : Menu) (v : String) (user : Option User) (bases : List Base) (p : SheetPage)
    → Offers (create_subject_sheet user bases p) (chosen m v)
    → OneOf (choices m) v
Offers-OneOf m v user bases p h = ground (
  arith,
  sizes-OneOf m p.sheet.parent v,
  professors-none m v p.sheet.parent,
  students-none m v p.sheet.parent,
  bases-none m v bases p.sheet,
  customize-none m v user p.show_password p.sheet.parent,
)
