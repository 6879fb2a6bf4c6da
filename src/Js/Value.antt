-- ===== src/Js/Value.antt =====
-- The values that a JSON body holds, and how conditions and property reads treat them.
pub mod Put
use remote_labs.Prelude.{
  Bool, List, Option, String, [], false, if◌then◌else◌, none, not, some, true, zero, ℕ, ◌==◌, ◌∷◌,
}

mutual
  pub data Fields : Type 0 where
    end : Fields
    field : String → Value → Fields → Fields

  pub data Value : Type 0 where
    undefined null : Value
    bool : Bool → Value
    num : ℕ → Value
    str : String → Value
    obj : Fields → Value
    arr : Items → Value

  pub data Items : Type 0 where
    nil : Items
    cons : Value → Items → Items

abbrev pub items_of : List Value → Items
items_of [] = nil
items_of (v ∷ vs) = cons v (items_of vs)

abbrev pub list_of : Items → List Value
list_of nil = []
list_of (cons v vs) = v ∷ list_of vs

abbrev pub is_empty : String → Bool
is_empty s = s == ""

-- The coercion of a condition: `if (v)`, `v || d`, `v && w`.
abbrev pub truthy : Value → Bool
truthy undefined = false
truthy null = false
truthy (bool b) = b
truthy (num zero) = false
truthy (num n) = true
truthy (str s) = not (is_empty s)
truthy (arr vs) = true
truthy (obj fs) = true

-- `v || d`
abbrev pub or_else : Value → Value → Value
or_else v d = if truthy v then v else d

-- `s || d` on texts
abbrev pub text_or : String → String → String
text_or s d = if is_empty s then d else s

-- The first field of a name; an object has at most one of each.
abbrev pub field_of : String → Fields → Value
field_of k end = undefined
field_of k (field j v fs) = if j == k then v else field_of k fs

-- `{ ...fs, k: v }`
abbrev pub put_field : String → Value → Fields → Fields
put_field k v end = field k v end
put_field k v (field j w fs) = if j == k then field j v fs else field j w (put_field k v fs)

-- `v.k`, which throws on `undefined` and `null`. No code reads a property that texts, arrays or
-- numbers have of their own.
abbrev pub prop : String → Value → Option Value
prop k undefined = none
prop k null = none
prop k (obj fs) = some (field_of k fs)
prop k v = some undefined

-- `v?.k`
abbrev pub prop? : String → Value → Value
prop? k (obj fs) = field_of k fs
prop? k v = undefined
