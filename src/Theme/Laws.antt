-- ===== src/Theme/Laws.antt =====
-- A chosen theme is shown, and is there again after the page is loaded anew.
use remote_labs.Prelude.{
  Bool, Bool-cases, List, Option, String, [], ap, arith, eq_iff, false, filter, if◌then◌else◌, inl,
  inr, length, not, refl, some, true, ℕ, ◌==◌, ◌||◌, ◌∷◌, ◌≡◌,
}
use remote_labs.Js.Value.{is_empty}
use remote_labs.Theme.{
  ThemeProvider, has_class, initial_theme, is_theme_class, set_theme, shown_theme, with_class,
}

abbrev pub theme_classes : List String → ℕ
theme_classes cs = length (filter is_theme_class cs)

bare-none : (cs : List String) → theme_classes (filter (λ c. not (is_theme_class c)) cs) ≡ 0
bare-none [] = refl
bare-none (c ∷ cs) = ground (arith, bare-none cs)

bare-lacks :
    (c : String) (cs : List String)
    → is_theme_class c ≡ true
    → has_class c (filter (λ c. not (is_theme_class c)) cs) ≡ false
bare-lacks c [] h = refl
bare-lacks c (d ∷ ds) h = ground (arith, bare-lacks c ds h, eq_iff d c)

shown-theme_class :
    (prefers_dark : Bool) (theme : String)
    → (is_theme_class theme || theme == "system") ≡ true
    → is_theme_class (shown_theme prefers_dark theme) ≡ true
shown-theme_class prefers_dark theme h = shown (theme == "system") prefers_dark h
  where
    shown :
        (b dark : Bool)
        → (is_theme_class theme || b) ≡ true
        → is_theme_class (if b then (if dark then "dark" else "light") else theme) ≡ true
    shown true true h = refl
    shown true false h = refl
    shown false dark h = ground arith

with_class_self : (c : String) (cs : List String) → has_class c (with_class c cs) ≡ true
with_class_self c cs = added (has_class c cs) refl
  where
    added : (b : Bool) → has_class c cs ≡ b → has_class c (if b then cs else c ∷ cs) ≡ true
    added true e = e
    added false e = ground (arith, eq_iff c c)

-- A class of a theme is the only one among others.
with_class_alone :
    (c : String) (cs : List String)
    → is_theme_class c ≡ true
    → theme_classes cs ≡ 0
    → has_class c cs ≡ false
    → theme_classes (with_class c cs) ≡ 1
with_class_alone c cs h n e = ground arith

themes_nonempty :
    (theme : String) → (is_theme_class theme || theme == "system") ≡ true → is_empty theme ≡ false
themes_nonempty theme h = elim (Bool-cases (is_empty theme)) [
  | inl e ↦ absurd (cc (h, ap (λ t. is_theme_class t || t == "system") ((eq_iff theme "").0 e)))
  | inr e ↦ e
]

-- Choosing another of the three themes leaves exactly one class of a theme on the document, the one
-- that the theme asks for, and a later load of the page starts with it. What was put into the storage
-- is what is read.
pub set_theme_lem :
    {S : Type 0} (get_item : S → String → Option String) (set_item : S → String → String → S)
    (storage_key default_theme theme : String) (prefers_dark : Bool) (p : ThemeProvider S)
    → ((s : S) (k v : String) → get_item (set_item s k v) k ≡ some v)
    → (is_theme_class theme || theme == "system") ≡ true
    → (p.theme == theme) ≡ false
    → let out = set_theme set_item storage_key prefers_dark theme p in
      (theme_classes out.classes ≡ 1)
      × (has_class (shown_theme prefers_dark theme) out.classes ≡ true)
      × (initial_theme get_item default_theme storage_key out.storage ≡ theme)
unfolding set_theme initial_theme
set_theme_lem get_item set_item storage_key default_theme theme prefers_dark p kept h other' =
    let c = shown_theme prefers_dark theme in
    let bare = filter (λ c. not (is_theme_class c)) p.classes in
    let k = shown-theme_class prefers_dark theme h in
    rw other' (
      with_class_alone c bare k (bare-none p.classes) (bare-lacks c p.classes k),
      with_class_self c bare,
      grind (arith, kept p.storage storage_key theme, themes_nonempty theme h),
    )
