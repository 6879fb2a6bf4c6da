-- ===== src/Wireguard/Button/Address.antt =====
-- The address that is shown for SSH.
use remote_labs.Prelude.{
  List, [], ap, arith, drop, every, false, length, nat_eq, not, refl, some, true, ℕ, ◌++◌, ◌<◌, ◌∙◌,
  ◌∷◌, ◌≡◌,
}
use remote_labs.Js.Text.{units}
use remote_labs.Wireguard.Button.{
  address, address_here, after_digits, and_numbers, get_ssh_info, hidden, is_digit_unit, join_dots,
  leading_digits, number, numbers, or_later, with_number,
}

-- A number in the text.
abbrev pub IsNumber : List ℕ → Type 0
IsNumber ds = (every is_digit_unit ds ≡ true) × (0 < length ds)

leading_digits-append :
    (ds : List ℕ) (sep : ℕ) (rest : List ℕ)
    → every is_digit_unit ds ≡ true
    → is_digit_unit sep ≡ false
    → (leading_digits (ds ++ sep ∷ rest) ≡ ds) × (after_digits (ds ++ sep ∷ rest) ≡ sep ∷ rest)
leading_digits-append [] sep rest h k = ground arith
leading_digits-append (d ∷ ds) sep rest h k = ground (arith, leading_digits-append ds sep rest)

number-append :
    (sep : ℕ) (ds rest : List ℕ)
    → is_digit_unit sep ≡ false
    → IsNumber ds
    → number sep (ds ++ sep ∷ rest) ≡ some (ds, rest)
number-append sep [] rest k n = absurd (omega (arith, n.1))
number-append sep (d ∷ ds) rest k n =
    let (e, f) = leading_digits-append (d ∷ ds) sep rest n.0 k in rw (e, f) (ground arith)

-- What the text of an address is: four numbers, and the length of the network's prefix.
abbrev pub address_text : List ℕ → List ℕ → List ℕ → List ℕ → List ℕ → List ℕ
address_text a b c d m = units "Address = " ++ (a ++ 46 ∷ (b ++ 46 ∷ (c ++ 46 ∷ (d ++ 47 ∷ m))))

leading_digits_some : (m rest : List ℕ) → IsNumber m → numbers [] (m ++ rest) ≡ some []
leading_digits_some [] rest n = absurd (omega (arith, n.1))
leading_digits_some (d ∷ ds) rest n = ground arith

numbers-step :
    (sep : ℕ) (ds rest seps : List ℕ)
    → is_digit_unit sep ≡ false
    → IsNumber ds
    → numbers (sep ∷ seps) (ds ++ sep ∷ rest) ≡ with_number ds (numbers seps rest)
numbers-step sep ds rest seps k n = ap (and_numbers (numbers seps)) (number-append sep ds rest k n)

address_here_lem :
    (a b c d m rest : List ℕ)
    → IsNumber a
    → IsNumber b
    → IsNumber c
    → IsNumber d
    → IsNumber m
    → address_here (address_text a b c d (m ++ rest)) ≡ some (a ∷ b ∷ c ∷ d ∷ [])
address_here_lem a b c d m rest na nb nc nd nm =
    numbers-step 46 a (b ++ 46 ∷ (c ++ 46 ∷ (d ++ 47 ∷ (m ++ rest)))) (46 ∷ 46 ∷ 47 ∷ []) refl na
    ∙ ap (with_number a) (
        numbers-step 46 b (c ++ 46 ∷ (d ++ 47 ∷ (m ++ rest))) (46 ∷ 47 ∷ []) refl nb
        ∙ ap (with_number b) (
            numbers-step 46 c (d ++ 47 ∷ (m ++ rest)) (47 ∷ []) refl nc
            ∙ ap (with_number c) (
                numbers-step 47 d (m ++ rest) [] refl nd
                ∙ ap (with_number d) (leading_digits_some m rest nm))))

address-skips :
    (before cs : List ℕ)
    → every (λ u. not (nat_eq u b'A')) before ≡ true
    → address (before ++ cs) ≡ address cs
address-skips [] cs h = refl
address-skips (u ∷ us) cs h = ground (arith, address-skips us cs)

-- The first address of a configuration is shown with its second number replaced by 0, where no
-- capital A stands before it.
pub get_ssh_info_lem :
    (before a b c d m rest : List ℕ)
    → every (λ u. not (nat_eq u b'A')) before ≡ true
    → IsNumber a
    → IsNumber b
    → IsNumber c
    → IsNumber d
    → IsNumber m
    → get_ssh_info (before ++ address_text a b c d (m ++ rest))
      ≡ some (join_dots (a ∷ (b'0' ∷ []) ∷ c ∷ d ∷ []))
unfolding get_ssh_info
get_ssh_info_lem before a b c d m rest h na nb nc nd nm =
    let text = address_text a b c d (m ++ rest) in
    ap hidden (
      address-skips before text h
      ∙ ap (λ found. or_later found (address (drop 1 text)))
          (address_here_lem a b c d m rest na nb nc nd nm))
