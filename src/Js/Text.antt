-- ===== src/Js/Text.antt =====
-- The text functions of the language that the program calls: `replace` with a text for its
-- pattern, template literals, `String(v)`, and the code units that `length` and `slice` count.
pub mod Replace
pub mod Decimal
use remote_labs.Prelude.{
  Bool, Char, List, Option, String, [], code, concat, false, if◌then◌else◌, is_some, leb, ltb,
  nat_eq, none, some, suc, true, zero, ℕ, ◌%◌, ◌&&◌, ◌++◌, ◌+◌, ◌-◌, ◌/◌, ◌==◌, ◌||◌, ◌∷◌,
}
use remote_labs.Js.Value.{
  Items, Value, arr, bool, cons, is_empty, nil, null, num, obj, str, undefined,
}

abbrev pub char_eq : Char → Char → Bool
char_eq c d = nat_eq (code c) (code d)

-- What follows the prefix `p`, if the text begins with it.
unfoldable pub strip_prefix : String → String → Option String
strip_prefix String.[] s = some s
strip_prefix (String.◌∷◌ c p) String.[] = none
strip_prefix (String.◌∷◌ c p) (String.◌∷◌ d s) = if char_eq c d then strip_prefix p s else none

-- One character behind a `$` in a replacement: `$$`, `$&`, `` $` `` and `$'` stand for other texts.
abbrev pub dollar : String → String → String → Char → String
dollar before found after c =
    if nat_eq (code c) b'$'
    then "$"
    else if nat_eq (code c) b'&'
    then found
    else if nat_eq (code c) 96
    then before
    else if nat_eq (code c) 39
    then after
    else String.◌∷◌ "$" (String.◌∷◌ c String.[])

-- The replacement as it is put in; the flag says that a `$` has just been read.
pub expand : Bool → String → String → String → String → String
expand false before found after String.[] = ""
expand true before found after String.[] = "$"
expand true before found after (String.◌∷◌ c r) =
    concat (dollar before found after c) (expand false before found after r)
expand false before found after (String.◌∷◌ c r) = elim (nat_eq (code c) b'$') [
  | true ↦ expand true before found after r
  | false ↦ String.◌∷◌ c (expand false before found after r)
]

-- The search of `replace`, behind the characters `before` at which the pattern was not found.
pub replace_from : String → String → String → String → String
replace_from before p r String.[] = elim (strip_prefix p String.[]) [
  | none ↦ String.[]
  | some after ↦ concat (expand false before p after r) after
]
replace_from before p r (String.◌∷◌ c s) = elim (strip_prefix p (String.◌∷◌ c s)) [
  | none ↦ String.◌∷◌ c (replace_from (concat before (String.◌∷◌ c String.[])) p r s)
  | some after ↦ concat (expand false before p after r) after
]

-- `s.replace(p, r)`: the first occurrence only.
unfoldable pub replace : String → String → String → String
unfolding replace_from expand strip_prefix
replace s p r = replace_from "" p r s

abbrev pub digit : ℕ → Char
digit zero = "0"
digit (suc zero) = "1"
digit (suc (suc zero)) = "2"
digit (suc (suc (suc zero))) = "3"
digit (suc (suc (suc (suc zero)))) = "4"
digit (suc (suc (suc (suc (suc zero))))) = "5"
digit (suc (suc (suc (suc (suc (suc zero)))))) = "6"
digit (suc (suc (suc (suc (suc (suc (suc zero))))))) = "7"
digit (suc (suc (suc (suc (suc (suc (suc (suc zero)))))))) = "8"
digit n = "9"

-- The digits before `out`, with fuel of more than the number of digits.
unfoldable pub decimal : ℕ → ℕ → String → String
decimal zero n out = out
decimal (suc f) n out =
    let out' = String.◌∷◌ (digit (n % 10)) out in
    let more = decimal f (n / 10) out' in if nat_eq (n / 10) 0 then out' else more

-- `String(v)`, as in a template literal. An array's parts are joined by commas.
unfoldable mutual
  pub to_text : Value → String
  to_text undefined = "undefined"
  to_text null = "null"
  to_text (bool true) = "true"
  to_text (bool false) = "false"
  to_text (num n) = decimal (suc n) n ""
  to_text (str s) = s
  to_text (arr vs) = join_text vs
  to_text (obj fs) = "[object Object]"

  pub join_text : Items → String
  join_text nil = ""
  join_text (cons v vs) = join_more (to_part v) vs

  pub to_part : Value → String
  to_part undefined = ""
  to_part null = ""
  to_part (bool true) = "true"
  to_part (bool false) = "false"
  to_part (num n) = decimal (suc n) n ""
  to_part (str s) = s
  to_part (arr vs) = join_text vs
  to_part (obj fs) = "[object Object]"

  pub join_more : String → Items → String
  join_more s nil = s
  join_more s (cons v vs) = join_more (concat s (concat "," (to_part v))) vs

-- The UTF-16 code units of a character: one, or a pair beyond the basic plane.
abbrev pub char_units : ℕ → List ℕ
char_units c =
    if ltb c 65536 then c ∷ [] else (55296 + (c - 65536) / 1024) ∷ (56320 + (c - 65536) % 1024) ∷ []

-- A text as the language has it: its code units.
abbrev pub units : String → List ℕ
units String.[] = []
units (String.◌∷◌ c s) = char_units (code c) ++ units s

-- White space, as `trim` and `\s` have it.
abbrev pub is_space : ℕ → Bool
is_space c =
    (leb 9 c && leb c 13)
    || nat_eq c 32
    || nat_eq c 160
    || nat_eq c 5760
    || (leb 8192 c && leb c 8202)
    || nat_eq c 8232
    || nat_eq c 8233
    || nat_eq c 8239
    || nat_eq c 8287
    || nat_eq c 12288
    || nat_eq c 65279

abbrev pub push : Char → List String → List String
push c [] = []
push c (p ∷ ps) = String.◌∷◌ c p ∷ ps

-- `s.split(k)` at a character, given by its code.
unfoldable pub split : ℕ → String → List String
split k String.[] = "" ∷ []
split k (String.◌∷◌ c s) =
    let rest = split k s in if nat_eq (code c) k then "" ∷ rest else push c rest

-- `s.trim()`
unfoldable pub trim_start : String → String
trim_start String.[] = ""
trim_start (String.◌∷◌ c s) = if is_space (code c) then trim_start s else String.◌∷◌ c s

unfoldable pub trim_end : String → String
trim_end String.[] = ""
trim_end (String.◌∷◌ c s) =
    let rest = trim_end s in if is_space (code c) && is_empty rest then "" else String.◌∷◌ c rest

unfoldable pub trim : String → String
unfolding trim_start trim_end
trim s = trim_end (trim_start s)

-- `s.endsWith(p)`
unfoldable pub ends_with : String → String → Bool
ends_with p String.[] = is_empty p
ends_with p (String.◌∷◌ c s) = p == String.◌∷◌ c s || ends_with p s

-- `s.includes(p)`
unfoldable pub includes : String → String → Bool
unfolding strip_prefix
includes String.[] p = is_empty p
includes (String.◌∷◌ c s) p = is_some (strip_prefix p (String.◌∷◌ c s)) || includes s p
