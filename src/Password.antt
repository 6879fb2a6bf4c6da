-- ===== src/Password.antt =====
-- The rules for a new password: web-server/frontend/src/components/forms/PasswordRequirements.tsx.
-- A password is a list of code units, as `length` counts them.
pub mod Laws
use remote_labs.Prelude.{
  Bool, List, String, [], every, false, if◌then◌else◌, leb, length, nat_eq, ℕ, ◌&&◌, ◌==◌, ◌||◌,
  ◌∷◌,
}

pub record PasswordRequirement : Type 0 where
  pub id : String
  pub validator : List ℕ → Bool

-- `/[…]/.test(pwd)` for a class of characters
abbrev pub some_unit : (ℕ → Bool) → List ℕ → Bool
some_unit p [] = false
some_unit p (c ∷ cs) = p c || some_unit p cs

abbrev pub between : ℕ → ℕ → ℕ → Bool
between a b c = leb a c && leb c b

-- One of `!@#$%^&*(),.?":{}|<>`.
abbrev pub is_special : ℕ → Bool
is_special c =
    nat_eq c b'!'
    || nat_eq c b'@'
    || nat_eq c b'#'
    || nat_eq c b'$'
    || nat_eq c b'%'
    || nat_eq c b'^'
    || nat_eq c b'&'
    || nat_eq c b'*'
    || nat_eq c b'('
    || nat_eq c b')'
    || nat_eq c b','
    || nat_eq c b'.'
    || nat_eq c b'?'
    || nat_eq c 34
    || nat_eq c b':'
    || nat_eq c b'{'
    || nat_eq c b'}'
    || nat_eq c b'|'
    || nat_eq c b'<'
    || nat_eq c b'>'

-- The list of the component `PasswordRequirements`.
abbrev pub requirements : List PasswordRequirement
requirements =
    record { id = "length"; validator = λ pwd. leb 8 (length pwd) }
    ∷ record { id = "uppercase"; validator = some_unit (between b'A' b'Z') }
    ∷ record { id = "lowercase"; validator = some_unit (between b'a' b'z') }
    ∷ record { id = "number"; validator = some_unit (between b'0' b'9') }
    ∷ record { id = "special"; validator = some_unit is_special }
    ∷ []

-- `requirements.reduce(…)`: the mark of each requirement under its `id`.
abbrev pub marks : List ℕ → List PasswordRequirement → List (String × Bool)
marks pwd [] = []
marks pwd (r ∷ rs) = (r.id, r.validator pwd) ∷ marks pwd rs

-- A requirement is shown with a check, not a cross.
abbrev pub is_marked : String → List (String × Bool) → Bool
is_marked id [] = false
is_marked id ((j, b) ∷ rest) = if j == id then b else is_marked id rest

unfoldable pub shows_check : List ℕ → PasswordRequirement → Bool
shows_check pwd r = is_marked r.id (marks pwd requirements)

-- `isPasswordValid`
unfoldable pub is_password_valid : List ℕ → Bool
is_password_valid password =
    every (λ (r : PasswordRequirement). r.validator password)
      (record { id = "length"; validator = λ pwd. leb 8 (length pwd) }
        ∷ record { id = "uppercase"; validator = some_unit (between b'A' b'Z') }
        ∷ record { id = "lowercase"; validator = some_unit (between b'a' b'z') }
        ∷ record { id = "number"; validator = some_unit (between b'0' b'9') }
        ∷ record { id = "special"; validator = some_unit is_special }
        ∷ [])
