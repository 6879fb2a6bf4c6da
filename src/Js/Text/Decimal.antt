-- ===== src/Js/Text/Decimal.antt =====
-- The digits that `String(n)` writes, read again.
use remote_labs.Prelude.{
  Bool-cases, String, ap, arith, code, false, inl, inr, nat_eq, refl, suc, sym, true, zero, ℕ, ◌%◌,
  ◌*◌, ◌+◌, ◌-◌, ◌/◌, ◌<◌, ◌∙◌, ◌≡◌,
}
use remote_labs.Js.Value.{num}
use remote_labs.Js.Text.{decimal, digit, to_text}

-- The number that a text of digits stands for, behind one that has been read.
abbrev pub value : ℕ → String → ℕ
value n String.[] = n
value n (String.◌∷◌ c s) = value (n * 10 + (code c - 48)) s

digit-code : (d : ℕ) → d < 10 → code (digit d) - 48 ≡ d
digit-code zero h = refl
digit-code (suc zero) h = refl
digit-code (suc (suc zero)) h = refl
digit-code (suc (suc (suc zero))) h = refl
digit-code (suc (suc (suc (suc zero)))) h = refl
digit-code (suc (suc (suc (suc (suc zero))))) h = refl
digit-code (suc (suc (suc (suc (suc (suc zero)))))) h = refl
digit-code (suc (suc (suc (suc (suc (suc (suc zero))))))) h = refl
digit-code (suc (suc (suc (suc (suc (suc (suc (suc zero)))))))) h = refl
digit-code (suc (suc (suc (suc (suc (suc (suc (suc (suc zero))))))))) h = refl
digit-code (suc (suc (suc (suc (suc (suc (suc (suc (suc (suc d)))))))))) h =
    absurd (omega (arith, h))

read_last : (n : ℕ) → n / 10 * 10 + (code (digit (n % 10)) - 48) ≡ n
read_last n = rw (digit-code (n % 10) (omega arith)) (omega arith)

read_one : (n : ℕ) → nat_eq (n / 10) 0 ≡ true → 0 * 10 + (code (digit (n % 10)) - 48) ≡ n
read_one n h = rw (digit-code (n % 10) (omega arith)) (ground arith)

smaller : (f n : ℕ) → n < suc f → nat_eq (n / 10) 0 ≡ false → n / 10 < f
smaller f n h more = ground arith

-- With enough fuel, the digits before a text are read as the number.
value-decimal : (f n : ℕ) (out : String) → n < f → value 0 (decimal f n out) ≡ value n out
unfolding decimal
value-decimal zero n out h = absurd (omega (arith, h))
value-decimal (suc f) n out h = elim (Bool-cases (nat_eq (n / 10) 0)) [
  | inl last ↦ rw last (ap (λ d. value d out) (read_one n last))
  | inr more ↦ rw more (
      value-decimal f (n / 10) (String.◌∷◌ (digit (n % 10)) out) (smaller f n h more)
      ∙ ap (λ d. value d out) (read_last n))
]

pub value-to_text : (n : ℕ) → value 0 (to_text (num n)) ≡ n
unfolding to_text
value-to_text n = value-decimal (suc n) n "" (omega arith)

pub to_text_inj : (m n : ℕ) → to_text (num m) ≡ to_text (num n) → m ≡ n
to_text_inj m n h = sym (value-to_text m) ∙ ap (value 0) h ∙ value-to_text n
