-- ===== src/Password/Laws.antt =====
-- What `isPasswordValid` accepts, and that the page shows it.
use remote_labs.Prelude.{
  Bool, Bool-cases, List, [], ap, arith, every, inl, inr, leb, length, refl, true, ℕ, ◌&&◌, ◌++◌,
  ◌↔◌, ◌∷◌, ◌≡◌, ◌≤◌,
}
use remote_labs.Password.{
  between, is_password_valid, is_special, requirements, shows_check, some_unit,
}

-- A part of the password is a character of the class.
abbrev pub Has : (ℕ → Type 0) → List ℕ → Type 0
Has P pwd = (before : List ℕ) × (c : ℕ) × (after : List ℕ) × P c × (pwd ≡ before ++ c ∷ after)

some_unit-Has : (p : ℕ → Bool) (pwd : List ℕ) → some_unit p pwd ≡ true → Has (λ c. p c ≡ true) pwd
some_unit-Has p [] h = absurd (cc h)
some_unit-Has p (c ∷ cs) h = elim (Bool-cases (p c)) [
  | inl y ↦ ([], c, cs, y, refl)
  | inr n ↦
      let (before, d, after, q, e) = some_unit-Has p cs (rw n at h) in
      (c ∷ before, d, after, q, ap (λ t. c ∷ t) e)
]

some_unit-append :
    (p : ℕ → Bool) (c : ℕ) (before after : List ℕ)
    → p c ≡ true
    → some_unit p (before ++ c ∷ after) ≡ true
some_unit-append p c [] after h = rw h refl
some_unit-append p c (d ∷ before) after h = ground (arith, some_unit-append p c before after h)

some_unit-of_Has :
    (p : ℕ → Bool) (pwd : List ℕ) → Has (λ c. p c ≡ true) pwd → some_unit p pwd ≡ true
some_unit-of_Has p pwd (before, c, after, h, e) = rw e (some_unit-append p c before after h)

five_tests :
    (a b c d e : Bool)
    → ((a && (b && (c && (d && (e && true))))) ≡ true)
      ↔ ((a ≡ true) × (b ≡ true) × (c ≡ true) × (d ≡ true) × (e ≡ true))
five_tests a b c d e = ground arith

-- A password is accepted exactly if it has eight code units or more, a capital, a small letter, a
-- digit and a special character.
pub is_password_valid_iff :
    (pwd : List ℕ)
    → (is_password_valid pwd ≡ true) ↔ (
        (8 ≤ length pwd)
        × Has (λ c. between b'A' b'Z' c ≡ true) pwd
        × Has (λ c. between b'a' b'z' c ≡ true) pwd
        × Has (λ c. between b'0' b'9' c ≡ true) pwd
        × Has (λ c. is_special c ≡ true) pwd)
unfolding is_password_valid
is_password_valid_iff pwd =
    let (to, from) =
      five_tests (leb 8 (length pwd)) (some_unit (between b'A' b'Z') pwd)
        (some_unit (between b'a' b'z') pwd) (some_unit (between b'0' b'9') pwd)
        (some_unit is_special pwd) in
    (
      λ h.
          let (l, u, s, d, x) = to h in
          (
            ground arith,
            some_unit-Has (between b'A' b'Z') pwd u,
            some_unit-Has (between b'a' b'z') pwd s,
            some_unit-Has (between b'0' b'9') pwd d,
            some_unit-Has is_special pwd x,
          ),
      λ k. from (
        ground (arith, k.0),
        some_unit-of_Has (between b'A' b'Z') pwd k.1,
        some_unit-of_Has (between b'a' b'z') pwd k.2,
        some_unit-of_Has (between b'0' b'9') pwd k.3,
        some_unit-of_Has is_special pwd k.4,
      ),
    )

-- Every requirement is shown with a check exactly when the password is valid.
every-shows_check : (pwd : List ℕ) → every (shows_check pwd) requirements ≡ is_password_valid pwd
unfolding shows_check is_password_valid
every-shows_check pwd = refl
