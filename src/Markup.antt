-- ===== src/Markup.antt =====
-- What a component returns: the markup of the pages and panels of web-server/frontend/src, and the
-- events that a user can set off on it. Class names, icons and other decoration are left out.
-- A widget of the library (components/ui) is an element of its name: a button or a menu item sets off
-- its event by a press unless it is disabled, an input by any text that is put in, a form by a press
-- of a button within it of the type `submit`, which is that of a button with no type. What a widget opens by itself counts as there.
pub mod Laws
pub mod Visit
use remote_labs.Prelude.{
  Bool, List, Option, String, [], false, none, not, some, true, ◌&&◌, if◌then◌else◌, ◌==◌, ◌||◌,
  ◌∷◌, ◌≡◌, ◌⊎◌,
}
use remote_labs.Js.Value.{is_empty}

pub data Attr (E : Type 0) : Type 0 where
  attr : String → String → Attr E
  disabled : Bool → Attr E
  on_click : E → Attr E
  on_change : (String → E) → Attr E
  -- a box that is ticked or not
  on_check : (Bool → E) → Attr E
  on_submit : E → Attr E

pub data Markup (E : Type 0) : Type 0 where
  -- `null`
  empty : Markup E
  text : String → Markup E
  element : String → List (Attr E) → Markup E → Markup E
  beside : Markup E → Markup E → Markup E

-- A button without a type is of the type `submit`.
abbrev pub submits : String → Option String → Bool
submits tag none = tag == "Button"
submits tag (some kind) = kind == "submit"

module _ {E : Type 0} where
  -- The children of an element, in their order.
  abbrev pub all : List (Markup E) → Markup E
  all [] = empty
  all (m ∷ []) = m
  all (m ∷ ms) = beside m (all ms)

  -- `c && m`
  abbrev pub shown_if : Bool → Markup E → Markup E
  shown_if true m = m
  shown_if false m = empty

  -- `o && m(o)` for a text or `null`
  abbrev pub shown_text : Option String → (String → Markup E) → Markup E
  shown_text none m = empty
  shown_text (some s) m = shown_if (not (is_empty s)) (m s)

  -- `xs.map((x) => m(x))`
  abbrev pub each : {A : Type 0} → (A → Markup E) → List A → Markup E
  each m [] = empty
  each m (x ∷ xs) = beside (m x) (each m xs)

  abbrev pub is_disabled : List (Attr E) → Bool
  is_disabled [] = false
  is_disabled (disabled b ∷ attrs) = b || is_disabled attrs
  is_disabled (_ ∷ attrs) = is_disabled attrs

  abbrev pub type_of : List (Attr E) → Option String
  type_of [] = none
  type_of (attr k v ∷ attrs) = if k == "type" then some v else type_of attrs
  type_of (_ ∷ attrs) = type_of attrs

  -- The event of the nearest form around the children of an element.
  abbrev pub form_of : List (Attr E) → Option E → Option E
  form_of [] form = form
  form_of (on_submit e ∷ attrs) form = some e
  form_of (_ ∷ attrs) form = form_of attrs form

  -- What the attributes of an element set off by themselves.
  abbrev pub Fires : List (Attr E) → E → Type 0
  Fires [] x = ⊥
  Fires (on_click e ∷ attrs) x = (e ≡ x) ⊎ Fires attrs x
  Fires (on_change f ∷ attrs) x = ((v : String) × (f v ≡ x)) ⊎ Fires attrs x
  Fires (on_check f ∷ attrs) x = ((b : Bool) × (f b ≡ x)) ⊎ Fires attrs x
  Fires (_ ∷ attrs) x = Fires attrs x

  -- `x` can be set off on `m`, which stands in the form with the event `form`, or in none.
  abbrev pub OffersIn : Option E → Markup E → E → Type 0
  OffersIn form empty x = ⊥
  OffersIn form (text t) x = ⊥
  OffersIn form (element tag attrs m) x =
      (is_disabled attrs ≡ false)
        × (Fires attrs x ⊎ ((submits tag (type_of attrs) ≡ true) × (form ≡ some x)))
      ⊎ OffersIn (form_of attrs form) m x
  OffersIn form (beside m n) x = OffersIn form m x ⊎ OffersIn form n x

  abbrev pub Offers : Markup E → E → Type 0
  Offers = OffersIn none

  -- The text stands on the page.
  abbrev pub Shows : Markup E → String → Type 0
  Shows empty s = ⊥
  Shows (text t) s = t ≡ s
  Shows (element tag attrs m) s = Shows m s
  Shows (beside m n) s = Shows m s ⊎ Shows n s
