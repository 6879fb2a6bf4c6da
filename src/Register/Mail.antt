-- ===== src/Register/Mail.antt =====
-- The address of a student, as the pattern of useRegisterForm.ts accepts it.
use remote_labs.Prelude.{
  All, Bool, Bool-cases, List, [], ap, arith, false, inl, inr, refl, sym, true, ℕ, ◌++◌, ◌↔◌, ◌∷◌,
  ◌≡◌, ◌≢◌, ◌⊎◌,
}
use mathlib.Core.List.{nil≢cons}
use remote_labs.Register.{domain, is_local, is_student_mail, matches_from, units_eq}

abbrev pub AreLocal : List ℕ → Type 0
AreLocal = All (λ c. is_local c ≡ true)

units_eq_refl : (cs : List ℕ) → units_eq cs cs ≡ true
units_eq_refl [] = refl
units_eq_refl (c ∷ cs) = ground (arith, units_eq_refl cs)

units_eq-eq : (as' bs : List ℕ) → units_eq as' bs ≡ true → as' ≡ bs
units_eq-eq [] [] h = refl
units_eq-eq [] (b ∷ bs) h = ground arith
units_eq-eq (a ∷ as') [] h = ground arith
units_eq-eq (a ∷ as') (b ∷ bs) h = grind (arith, units_eq-eq as' bs)

domain_lem : units_eq domain domain ≡ true
domain_lem = units_eq_refl domain

matches_from_complete :
    (b : Bool) (name : List ℕ)
    → AreLocal name
    → (b ≡ true) ⊎ (name ≢ [])
    → matches_from b (name ++ domain) ≡ true
unfolding matches_from
matches_from_complete b [] h (inl e) = ground (arith, e)
matches_from_complete b [] h (inr e) = absurd (e refl)
matches_from_complete b (c ∷ name) h r =
    ground (arith, matches_from_complete true name h.1 (inl refl))

abbrev Parts : Bool → List ℕ → Type 0
Parts b cs = (name : List ℕ) × AreLocal name × ((b ≡ true) ⊎ (name ≢ [])) × (cs ≡ name ++ domain)

longer : (b : Bool) (c : ℕ) (cs : List ℕ) → is_local c ≡ true → Parts true cs → Parts b (c ∷ cs)
longer b c cs h (name, local', r, e) =
    (c ∷ name, (h, local'), inr (λ n. nil≢cons (sym n)), ap (λ r. c ∷ r) e)

matches_from_sound : (b : Bool) (cs : List ℕ) → matches_from b cs ≡ true → Parts b cs
unfolding matches_from
matches_from_sound b [] h = ground arith
matches_from_sound b (c ∷ cs) h = elim (Bool-cases (is_local c)) [
  | inl e ↦ longer b c cs e (matches_from_sound true cs (ground (arith, h, e)))
  | inr e ↦ ([], tt, inl (ground (arith, h, e)), units_eq-eq (c ∷ cs) domain (ground (arith, h, e)))
]

named :
    {mail : List ℕ}
    → Parts false mail
    → (name : List ℕ) × AreLocal name × (name ≢ []) × (mail ≡ name ++ domain)
named (name, local', inl e, h) = ground arith
named (name, local', inr n, h) = (name, local', n, h)

-- An address passes exactly if it is a local part, of one unit at least and without `@` and white
-- space, followed by the domain of the students.
pub is_student_mail_iff :
    (mail : List ℕ)
    → (is_student_mail mail ≡ true)
      ↔ ((name : List ℕ) × AreLocal name × (name ≢ []) × (mail ≡ name ++ domain))
unfolding is_student_mail
is_student_mail_iff mail = (
  (λ h. named (matches_from_sound false mail h)),
  (λ (name, local', n, e). rw e (matches_from_complete false name local' (inr n))),
)
