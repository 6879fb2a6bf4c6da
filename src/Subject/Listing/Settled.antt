-- ===== src/Subject/Listing/Settled.antt =====
-- `Promise.all`: it gives the results in the order of its list, or the first exception.
use mathlib.Core.List.{Perm, Permᴰ}
use mathlib.Core.Logic.{∥∥₁_elim}
use mathlib.Core.Bool.{Bool-set}
use remote_labs.Prelude.{
  Bool, List, Option-cases, [], ap, arith, false, inl, inr, is_some, map, refl, subst, sym, true,
  ◌||◌, ◌↔◌, ◌∙◌, ◌∷◌, ◌≡◌, ◌⊎◌,
}
use remote_labs.Js.Value.{Value}
use remote_labs.Runtime.{Outcome, done, done_inj, is_thrown, thrown}
use remote_labs.Subject.Listing.{first_thrown, promise_all, values}

abbrev rejects : List (Outcome Value) → Bool
rejects xs = is_some (first_thrown xs)

rejects-cons :
    (x : Outcome Value) (l : List (Outcome Value)) → rejects (x ∷ l) ≡ (is_thrown x || rejects l)
rejects-cons (done v) l = refl
rejects-cons (thrown t) l = refl

rejects_swap :
    (a b : Outcome Value) (l : List (Outcome Value)) → rejects (a ∷ b ∷ l) ≡ rejects (b ∷ a ∷ l)
rejects_swap (done v) (done w) l = refl
rejects_swap (done v) (thrown t) l = refl
rejects_swap (thrown t) (done w) l = refl
rejects_swap (thrown t) (thrown u) l = refl

rejects-Permᴰ : {xs ys : List (Outcome Value)} → Permᴰ xs ys → rejects xs ≡ rejects ys
rejects-Permᴰ Permᴰ.nil = refl
rejects-Permᴰ (Permᴰ.cons {a} {l₁} {l₂} e p) =
    subst (λ x. rejects (a ∷ l₁) ≡ rejects (x ∷ l₂)) e
      (rw (rejects-cons a l₁, rejects-cons a l₂) (ap (λ b. is_thrown a || b) (rejects-Permᴰ p)))
rejects-Permᴰ (Permᴰ.swap {a} {b} {a' = c} {l} e e') =
    subst (λ x. rejects (a ∷ b ∷ l) ≡ rejects (c ∷ x ∷ l)) e
      (subst (λ x. rejects (a ∷ b ∷ l) ≡ rejects (x ∷ a ∷ l)) e' (rejects_swap a b l))
rejects-Permᴰ (Permᴰ.trans p q) = rejects-Permᴰ p ∙ rejects-Permᴰ q

values_lem : (xs : List (Outcome Value)) → rejects xs ≡ false → xs ≡ map done (values xs)
values_lem [] h = refl
values_lem (done v ∷ xs) h = ap (λ l. done v ∷ l) (values_lem xs h)
values_lem (thrown t ∷ xs) h = ground (arith, h)

rejects-done : (ys : List Value) → rejects (map done ys) ≡ false
rejects-done [] = refl
rejects-done (y ∷ ys) = rejects-done ys

values-done : (ys : List Value) → values (map done ys) ≡ ys
values-done [] = refl
values-done (y ∷ ys) = ap (λ l. y ∷ l) (values-done ys)

promise_all_cases :
    (arrive : List (Outcome Value) → List (Outcome Value)) (xs : List (Outcome Value))
    → ((rejects (arrive xs) ≡ true) × (is_thrown (promise_all arrive xs) ≡ true))
      ⊎ ((rejects (arrive xs) ≡ false) × (promise_all arrive xs ≡ done (values xs)))
unfolding promise_all
promise_all_cases arrive xs = elim (Option-cases (first_thrown (arrive xs))) [
  | inl e ↦ inr (ground (arith, e))
  | inr (t, e) ↦ inl (ground (arith, e))
]

-- In whatever order its functions end, `Promise.all` succeeds with a list exactly if each function
-- succeeds with the value at its place of the list.
pub promise_all_lem :
    (arrive : List (Outcome Value) → List (Outcome Value)) (xs : List (Outcome Value))
    (ys : List Value)
    → ((zs : List (Outcome Value)) → Perm (arrive zs) zs)
    → (promise_all arrive xs ≡ done ys) ↔ (xs ≡ map done ys)
promise_all_lem arrive xs ys any_order =
    let same : rejects (arrive xs) ≡ rejects xs =
      ∥∥₁_elim (any_order xs) (Bool-set _ _) rejects-Permᴰ in
    elim (promise_all_cases arrive xs) [
      | inl (r, e) ↦ (
        (λ h. ground (arith, h, e)),
        (λ h. ground (arith, r, same, ap rejects h ∙ rejects-done ys)),
      )
      | inr (r, e) ↦ (
        (λ h. values_lem xs (sym same ∙ r) ∙ ap (map done) (done_inj (values xs) ys (sym e ∙ h))),
        (λ h. e ∙ ap done (ap values h ∙ values-done ys)),
      )
    ]
