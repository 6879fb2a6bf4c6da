-- ===== src/Cookies/Jar.antt =====
-- `getUserIdFromCookie` finds the cookie wherever it stands among the others.
use text.Mathlib.TextLemmas.{cons-append, nil-append}
use remote_labs.Prelude.{
  All, Char, List, String, [], ap, arith, code, concat, none, refl, some, ℕ, ◌∙◌, ◌∷◌, ◌≡◌,
}
use remote_labs.Js.Text.{push, split, strip_prefix}
use remote_labs.Js.Text.Replace.{Lacks, Lacks-concat, strip_prefix_self}
use remote_labs.Cookies.{drop_spaces, find_part, get_user_id_from_cookie}

split-of_Lacks : (k : ℕ) (s : String) → Lacks k s → split k s ≡ s ∷ []
unfolding split
split-of_Lacks k String.[] h = refl
split-of_Lacks k (String.◌∷◌ c s) h = rw (h.0) (ap (push c) (split-of_Lacks k s h.1))

split-concat :
    (c : Char) (s t : String)
    → Lacks (code c) s
    → split (code c) (concat s (String.◌∷◌ c t)) ≡ s ∷ split (code c) t
unfolding split
split-concat c String.[] t h = rw nil-append (ground arith)
split-concat c (String.◌∷◌ d s) t h =
    rw cons-append (rw (h.0, split) (ap (push d) (split-concat c s t h.1)))

-- A leading space is skipped.
find_part-space : (name : String) (l : List String) → find_part name (push " " l) ≡ find_part name l
unfolding find_part drop_spaces
find_part-space name [] = refl
find_part-space name (p ∷ ps) = refl

find_part-split_space :
    (name s : String)
    → find_part name (split b';' (String.◌∷◌ " " s)) ≡ find_part name (split b';' s)
unfolding split
find_part-split_space name s = find_part-space name (split b';' s)

-- A cookie of another name.
abbrev pub IsOther : String → String → Type 0
IsOther name p = Lacks b';' p × (strip_prefix name (drop_spaces p) ≡ none)

-- The parts of a cookie text, each with the separator behind it, and then the rest.
abbrev pub in_front : List String → String → String
in_front [] t = t
in_front (p ∷ ps) t = concat p (String.◌∷◌ ";" (String.◌∷◌ " " (in_front ps t)))

find_part-skip :
    (name p : String) (ps : List String)
    → strip_prefix name (drop_spaces p) ≡ none
    → find_part name (p ∷ ps) ≡ find_part name ps
unfolding find_part
find_part-skip name p ps h = rw (h, find_part) refl

find_part-in_front :
    (name : String) (ps : List String) (t : String)
    → All (IsOther name) ps
    → find_part name (split b';' (in_front ps t)) ≡ find_part name (split b';' t)
find_part-in_front name [] t h = refl
find_part-in_front name (p ∷ ps) t h =
    ap (find_part name) (split-concat ";" p (String.◌∷◌ " " (in_front ps t)) h.0.0)
    ∙ find_part-skip name p _ h.0.1
    ∙ find_part-split_space name (in_front ps t)
    ∙ find_part-in_front name ps t h.1

find_part-here :
    (name p : String) (ps : List String) {value : String}
    → strip_prefix name (drop_spaces p) ≡ some value
    → find_part name (p ∷ ps) ≡ some value
unfolding find_part
find_part-here name p ps h = rw (h, find_part) refl

drop_spaces_user_id :
    (value : String) → drop_spaces (concat "userId=" value) ≡ concat "userId=" value
unfolding drop_spaces
drop_spaces_user_id value = rw cons-append refl

find_user_id :
    (value : String) (ps : List String)
    → find_part "userId=" (concat "userId=" value ∷ ps) ≡ some value
find_user_id value ps =
    find_part-here "userId=" (concat "userId=" value) ps
      (rw drop_spaces_user_id (strip_prefix_self "userId=" value))

user_id-Lacks : (value : String) → Lacks b';' value → Lacks b';' (concat "userId=" value)
user_id-Lacks value h = Lacks-concat b';' "userId=" value (ground arith) h

-- Behind any cookies of other names, a value of `userId` without `;` is what is read, whether it
-- is the last cookie or others follow it.
pub get_user_id_lem :
    (ps : List String) (value rest : String)
    → All (IsOther "userId=") ps
    → Lacks b';' value
    → (get_user_id_from_cookie (in_front ps (concat "userId=" value)) ≡ some value)
      × (get_user_id_from_cookie
            (in_front ps (concat (concat "userId=" value) (String.◌∷◌ ";" rest)))
          ≡ some value)
unfolding get_user_id_from_cookie
get_user_id_lem ps value rest h g = (
  find_part-in_front "userId=" ps (concat "userId=" value) h
      ∙ ap (find_part "userId=")
          (split-of_Lacks b';' (concat "userId=" value) (user_id-Lacks value g))
      ∙ find_user_id value [],
  find_part-in_front "userId=" ps (concat (concat "userId=" value) (String.◌∷◌ ";" rest)) h
      ∙ ap (find_part "userId=")
          (split-concat ";" (concat "userId=" value) rest (user_id-Lacks value g))
      ∙ find_user_id value (split b';' rest),
)

-- With no such cookie there is no user.
get_user_id-none :
    (ps : List String) (p : String)
    → All (IsOther "userId=") ps
    → IsOther "userId=" p
    → get_user_id_from_cookie (in_front ps p) ≡ none
unfolding get_user_id_from_cookie
get_user_id-none ps p h g =
    find_part-in_front "userId=" ps p h
    ∙ ap (find_part "userId=") (split-of_Lacks b';' p g.0)
    ∙ find_part-skip "userId=" p [] g.1
    ∙ unfold find_part in refl
