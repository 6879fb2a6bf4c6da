-- ===== src/Js/Text/Replace.antt =====
-- What `replace` does to a pattern such as `{instanceId}` in an address.
use text.Mathlib.TextLemmas.{append-nil as concat-nil, append_assoc as concat_assoc}
use text.Mathlib.TextLemmas.{cons-append, nil-append}
use remote_labs.Prelude.{
  Char, String, ap, arith, code, concat, false, nat_eq, none, refl, some, true, ℕ, ◌∙◌, ◌≡◌,
}
use remote_labs.Js.Text.{expand, replace, replace_from, strip_prefix}

-- No character of the text has the code `k`.
abbrev pub Lacks : ℕ → String → Type 0
Lacks k String.[] = Unit
Lacks k (String.◌∷◌ c s) = (nat_eq (code c) k ≡ false) × Lacks k s

pub Lacks-concat : (k : ℕ) (s t : String) → Lacks k s → Lacks k t → Lacks k (concat s t)
Lacks-concat k String.[] t h g = rw nil-append g
Lacks-concat k (String.◌∷◌ c s) t h g = rw cons-append (h.0, Lacks-concat k s t h.1 g)

-- With no `$` the replacement is put in as it stands.
pub expand_literal :
    (before found after r : String) → Lacks b'$' r → expand false before found after r ≡ r
unfolding expand
expand_literal before found after String.[] h = refl
expand_literal before found after (String.◌∷◌ c r) h =
    rw (h.0, expand) (ap (String.◌∷◌ c) (expand_literal before found after r h.1))

nat_eq_comm : (a b : ℕ) → nat_eq a b ≡ nat_eq b a
nat_eq_comm a b = ground arith

strip_prefix-ne :
    (c d : Char) (p s : String)
    → nat_eq (code d) (code c) ≡ false
    → strip_prefix (String.◌∷◌ c p) (String.◌∷◌ d s) ≡ none
unfolding strip_prefix
strip_prefix-ne c d p s h = rw (nat_eq_comm (code c) (code d)) (rw h refl)

replace_from-ne :
    (c d : Char) (before p r s : String)
    → nat_eq (code d) (code c) ≡ false
    → replace_from before (String.◌∷◌ c p) r (String.◌∷◌ d s)
      ≡ String.◌∷◌ d (replace_from (concat before (String.◌∷◌ d String.[])) (String.◌∷◌ c p) r s)
unfolding replace_from
replace_from-ne c d before p r s h = rw (strip_prefix-ne c d p s h, replace_from) refl

-- The search passes over a part that lacks the first character of the pattern.
pub replace_from-concat :
    (a before : String) (c : Char) (p r t : String)
    → Lacks (code c) a
    → replace_from before (String.◌∷◌ c p) r (concat a t)
      ≡ concat a (replace_from (concat before a) (String.◌∷◌ c p) r t)
replace_from-concat String.[] before c p r t h = simp (nil-append, concat-nil)
replace_from-concat (String.◌∷◌ d a) before c p r t h = simp (
  cons-append,
  replace_from-ne c d before p r (concat a t) h.0,
  replace_from-concat a (concat before (String.◌∷◌ d String.[])) c p r t h.1,
  concat_assoc,
  nil-append,
)

nat_eq_refl : (a : ℕ) → nat_eq a a ≡ true
nat_eq_refl a = ground arith

pub strip_prefix_self : (p s : String) → strip_prefix p (concat p s) ≡ some s
unfolding strip_prefix
strip_prefix_self String.[] s = rw nil-append refl
strip_prefix_self (String.◌∷◌ c p) s =
    rw cons-append (rw (nat_eq_refl (code c), strip_prefix) (strip_prefix_self p s))

replace_from-some :
    (before : String) (d : Char) (p r s after : String)
    → strip_prefix p (String.◌∷◌ d s) ≡ some after
    → replace_from before p r (String.◌∷◌ d s) ≡ concat (expand false before p after r) after
unfolding replace_from
replace_from-some before d p r s after h = rw (h, replace_from) refl

replace_from-found :
    (before : String) (c : Char) (p r t : String)
    → Lacks b'$' r
    → replace_from before (String.◌∷◌ c p) r (concat (String.◌∷◌ c p) t) ≡ concat r t
replace_from-found before c p r t g = rw cons-append (
    replace_from-some before c (String.◌∷◌ c p) r (concat p t) t
      (rw (← cons-append) (strip_prefix_self (String.◌∷◌ c p) t))
    ∙ ap (λ e. concat e t) (expand_literal before (String.◌∷◌ c p) t r g))

replace_from_lem :
    (a : String) (c : Char) (p r t : String)
    → Lacks (code c) a
    → Lacks b'$' r
    → replace_from "" (String.◌∷◌ c p) r (concat a (concat (String.◌∷◌ c p) t))
      ≡ concat a (concat r t)
replace_from_lem a c p r t h g =
    rw (replace_from-concat a "" c p r (concat (String.◌∷◌ c p) t) h)
      (ap (concat a) (replace_from-found (concat "" a) c p r t g))

-- A pattern that stands behind such a part is replaced by a text that has no `$`.
pub replace_lem :
    (a : String) (c : Char) (p r t : String)
    → Lacks (code c) a
    → Lacks b'$' r
    → replace (concat a (concat (String.◌∷◌ c p) t)) (String.◌∷◌ c p) r ≡ concat a (concat r t)
unfolding replace
replace_lem a c p r t h g = replace_from_lem a c p r t h g
