-- ===== src/Theme.antt =====
-- The theme of the pages: web-server/frontend/src/components/theme-provider.tsx. The browser's storage
-- and its preference are parameters.
pub mod Laws
use remote_labs.Prelude.{
  Bool, List, Option, String, [], false, filter, if◌then◌else◌, none, not, some, ◌==◌, ◌||◌, ◌∷◌,
}
use remote_labs.Js.Value.{text_or}

-- The theme's state, the classes of the document's root, whose order does not matter, and the storage.
pub record ThemeProvider (S : Type 0) : Type 0 where
  pub theme : String
  pub classes : List String
  pub storage : S

-- `classList.contains`, and `add`, which leaves a class that is there
abbrev pub has_class : String → List String → Bool
has_class c [] = false
has_class c (d ∷ ds) = d == c || has_class c ds

abbrev pub with_class : String → List String → List String
with_class c cs = if has_class c cs then cs else c ∷ cs

abbrev pub is_theme_class : String → Bool
is_theme_class c = c == "light" || c == "dark"

-- The first state: what is stored under the key, if that is not empty, or the default.
unfoldable pub initial_theme :
    {S : Type 0} → (S → String → Option String) → String → String → S → String
initial_theme get_item default_theme storage_key storage = elim (get_item storage storage_key) [
  | none ↦ default_theme
  | some theme ↦ text_or theme default_theme
]

-- The theme that is shown; `prefers_dark` is the answer of the media query.
abbrev pub shown_theme : Bool → String → String
shown_theme prefers_dark theme =
    if theme == "system" then (if prefers_dark then "dark" else "light") else theme

-- The effect: both classes are removed, then that of the theme is added.
abbrev pub apply_theme : {S : Type 0} → Bool → ThemeProvider S → ThemeProvider S
apply_theme prefers_dark p = record p {
  classes =
      with_class (shown_theme prefers_dark p.theme)
        (filter (λ c. not (is_theme_class c)) p.classes);
}

-- `setTheme` of the context, and the effect that follows if the theme has changed.
unfoldable pub set_theme :
    {S : Type 0}
    → (S → String → String → S)
    → String
    → Bool
    → String
    → ThemeProvider S
    → ThemeProvider S
set_theme set_item storage_key prefers_dark theme p =
    let stored = record p { storage = set_item p.storage storage_key theme } in
    if p.theme == theme then stored else apply_theme prefers_dark (record stored { theme = theme })
