-- ===== src/Wireguard/Format.antt =====
-- The format of the configuration: what the server quotes is read back.
use remote_labs.Prelude.{
  All, List, [], ap, arith, false, if◌then◌else◌, nat_eq, refl, sym, ℕ, ◌++◌, ◌∷◌, ◌≡◌,
}
use mathlib.Core.List.{append-nil, append_assoc}
use remote_labs.Wireguard.{drop_quote, format_config, unescape, without_last}

-- A line feed inside a JSON text is the pair of a backslash and an `n`.
abbrev pub escape : List ℕ → List ℕ
escape [] = []
escape (c ∷ cs) = if nat_eq c 10 then 92 ∷ 110 ∷ escape cs else c ∷ escape cs

abbrev pub IsPlain : List ℕ → Type 0
IsPlain = All (λ c. nat_eq c 92 ≡ false)

-- The text does not end with a quote.
abbrev pub IsOpen : List ℕ → Type 0
IsOpen [] = Unit
IsOpen (c ∷ []) = nat_eq c 34 ≡ false
IsOpen (c ∷ d ∷ cs) = IsOpen (d ∷ cs)

without_last-append : (cs : List ℕ) (c : ℕ) → without_last (cs ++ c ∷ []) ≡ cs
without_last-append [] c = refl
without_last-append (a ∷ []) c = refl
without_last-append (a ∷ b ∷ cs) c = ap (λ r. a ∷ r) (without_last-append (b ∷ cs) c)

unescape-escape :
    (cs tail : List ℕ) → IsPlain cs → unescape false (escape cs ++ tail) ≡ cs ++ unescape false tail
unfolding unescape
unescape-escape [] tail h = refl
unescape-escape (c ∷ cs) tail h = ground (arith, unescape-escape cs tail h.1)

drop_quote-append : (cs : List ℕ) → drop_quote (cs ++ 34 ∷ []) ≡ cs
unfolding drop_quote
drop_quote-append [] = refl
drop_quote-append (a ∷ []) = refl
drop_quote-append (a ∷ b ∷ cs) = ap (λ r. a ∷ r) (drop_quote-append (b ∷ cs))

drop_quote-IsOpen : (cs : List ℕ) → IsOpen cs → drop_quote cs ≡ cs
unfolding drop_quote
drop_quote-IsOpen [] h = refl
drop_quote-IsOpen (a ∷ []) h = ground arith
drop_quote-IsOpen (a ∷ b ∷ cs) h = ap (λ r. a ∷ r) (drop_quote-IsOpen (b ∷ cs) h)

-- A configuration without backslashes that does not end with a quote is read back from its quoted
-- form, in which each line feed is `\n`, whether or not a line feed follows the closing quote.
pub format_config_lem :
    (cs : List ℕ)
    → IsPlain cs
    → IsOpen cs
    → (format_config (34 ∷ escape cs ++ 34 ∷ []) ≡ cs)
      × (format_config (34 ∷ escape cs ++ 34 ∷ 10 ∷ []) ≡ cs)
unfolding format_config
format_config_lem cs plain open' = (
  rw (
    without_last-append (escape cs) 34,
    sym (append-nil (escape cs)),
    unescape-escape cs [] plain,
    append-nil cs,
    drop_quote-IsOpen cs open',
  ),
  rw (
    sym (append_assoc (escape cs) (34 ∷ []) (10 ∷ [])),
    without_last-append (escape cs ++ 34 ∷ []) 10,
    unescape-escape cs (34 ∷ []) plain,
    drop_quote-append cs,
  ),
)
