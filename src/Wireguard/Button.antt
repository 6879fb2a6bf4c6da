-- ===== src/Wireguard/Button.antt =====
-- The button that shows a configuration: web-server/frontend/src/components/vm/
-- WireguardConfigButton.tsx. Its state holds that of `useWireguardConfig`; a text is the list of its
-- code units.
pub mod Address
use remote_labs.Prelude.{
  Bool, List, Option, String, [], false, if◌then◌else◌, leb, nat_eq, none, some, take, true, ℕ,
  ◌&&◌, ◌++◌, ◌∷◌,
}
use remote_labs.Js.Text.{units}
use remote_labs.Runtime.{
  Action, Outcome, downloaded, emit, modify, settle, skip, try_catch, warn, zoom, ◌>>=◌, ◌>>◌,
}
use remote_labs.Wireguard.{WireguardConfig, get_config}

pub record ConfigButton : Type 0 where
  pub hook : WireguardConfig
  pub is_open : Bool

unfoldable pub handle_fetch_config : String → Action ConfigButton (Unit {0})
handle_fetch_config instance_id = do
  zoom (λ l. l.hook) (λ h l. record l { hook = h }) (get_config instance_id)
  modify (λ l. record l { is_open = true })

-- `!config`
abbrev pub is_missing : Option (List ℕ) → Bool
is_missing none = true
is_missing (some []) = true
is_missing (some (c ∷ cs)) = false

-- `written` is how `navigator.clipboard.writeText` ends; `r` is what was last rendered.
unfoldable pub handle_copy_to_clipboard :
    Outcome (Unit {0}) → ConfigButton → Action ConfigButton (Unit {0})
handle_copy_to_clipboard written r =
    if is_missing r.hook.config
    then skip
    else try_catch (do settle written; warn "Configuration copied to clipboard")
        (λ _.
          warn
            "Error copying configuration. You can also select and copy the text directly from the text area.")

-- The link that is clicked; the address of the blob is made for it and taken back.
unfoldable pub handle_download_config : String → ConfigButton → Action ConfigButton (Unit {0})
handle_download_config instance_id r = elim r.hook.config [
  | none ↦ skip
  | some [] ↦ skip
  | some (c ∷ cs) ↦
      emit (downloaded (units "wireguard-" ++ take 5 (units instance_id) ++ units ".conf") (c ∷ cs))
]

-- `/\d/`
abbrev pub is_digit_unit : ℕ → Bool
is_digit_unit c = leb b'0' c && leb c b'9'

-- The digits that a text begins with, and what follows them.
abbrev pub leading_digits : List ℕ → List ℕ
leading_digits [] = []
leading_digits (c ∷ cs) = if is_digit_unit c then c ∷ leading_digits cs else []

abbrev pub after_digits : List ℕ → List ℕ
after_digits [] = []
after_digits (c ∷ cs) = if is_digit_unit c then after_digits cs else c ∷ cs

-- Digits, and the character `sep` behind them.
abbrev pub ended : ℕ → List ℕ → List ℕ → Option (List ℕ × List ℕ)
ended sep [] rest = none
ended sep (d ∷ ds) [] = none
ended sep (d ∷ ds) (e ∷ rest) = if nat_eq e sep then some (d ∷ ds, rest) else none

-- `\d+` and the character `sep`; what follows begins behind it.
abbrev pub number : ℕ → List ℕ → Option (List ℕ × List ℕ)
number sep cs = ended sep (leading_digits cs) (after_digits cs)

-- What follows `p`.
abbrev pub behind : List ℕ → List ℕ → Option (List ℕ)
behind [] cs = some cs
behind (d ∷ ds) [] = none
behind (d ∷ ds) (c ∷ cs) = elim (nat_eq c d) [ true ↦ behind ds cs | false ↦ none ]

abbrev pub with_number : List ℕ → Option (List (List ℕ)) → Option (List (List ℕ))
with_number n none = none
with_number n (some ns) = some (n ∷ ns)

abbrev pub and_numbers :
    (List ℕ → Option (List (List ℕ))) → Option (List ℕ × List ℕ) → Option (List (List ℕ))
and_numbers following none = none
and_numbers following (some found) = with_number found.0 (following found.1)

-- Numbers that end with the given characters, and one more behind them, which is not kept.
abbrev pub numbers : List ℕ → List ℕ → Option (List (List ℕ))
numbers [] cs = elim (leading_digits cs) [ [] ↦ none | d ∷ ds ↦ some [] ]
numbers (sep ∷ seps) cs = and_numbers (numbers seps) (number sep cs)

-- The four numbers of `/Address = (\d+\.\d+\.\d+\.\d+)\/\d+/`, matched here.
abbrev pub address_here : List ℕ → Option (List (List ℕ))
address_here cs = elim (behind (units "Address = ") cs) [
  | none ↦ none
  | some rest ↦ numbers (46 ∷ 46 ∷ 46 ∷ 47 ∷ []) rest
]

abbrev pub or_later : Option (List (List ℕ)) → Option (List (List ℕ)) → Option (List (List ℕ))
or_later none later = later
or_later (some ip) later = some ip

-- `config.match(…)`: the first place at which it matches.
abbrev pub address : List ℕ → Option (List (List ℕ))
address [] = address_here []
address (c ∷ cs) = or_later (address_here (c ∷ cs)) (address cs)

-- `parts.join('.')`
abbrev pub join_dots : List (List ℕ) → List ℕ
join_dots [] = []
join_dots (p ∷ []) = p
join_dots (p ∷ q ∷ ps) = p ++ 46 ∷ join_dots (q ∷ ps)

-- `parts[1] = '0'`
abbrev pub zero_second : List (List ℕ) → List (List ℕ)
zero_second (a ∷ b ∷ ps) = a ∷ (48 ∷ []) ∷ ps
zero_second ps = ps

abbrev pub hidden : Option (List (List ℕ)) → Option (List ℕ)
hidden none = none
hidden (some parts) = some (join_dots (zero_second parts))

-- `getSSHInfo`; the match is cut at its dots again, which gives its four numbers.
unfoldable pub get_ssh_info : List ℕ → Option (List ℕ)
get_ssh_info config = hidden (address config)
