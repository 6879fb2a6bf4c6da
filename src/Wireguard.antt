-- ===== src/Wireguard.antt =====
-- The network configuration of a machine: web-server/frontend/src/hooks/useWireguardConfig.ts. A
-- text is the list of its code units.
pub mod Format
pub mod Button
use remote_labs.Prelude.{
  Bool, List, Option, String, [], drop, false, if◌then◌else◌, nat_eq, none, not, some, true, ℕ, ◌∷◌,
}
use remote_labs.Js.Text.{replace, units}
use remote_labs.Env.{api_get_wireguard}
use remote_labs.Runtime.{
  Action, api, error, fetch, finally, json_request, modify, settle, skip, throw, try_catch, when,
  ◌>>=◌, ◌>>◌,
}

-- `s.slice(0, -1)`
abbrev pub without_last : List ℕ → List ℕ
without_last [] = []
without_last (c ∷ []) = []
without_last (c ∷ d ∷ cs) = c ∷ without_last (d ∷ cs)

-- `s.replace(/\\n/g, '\n')`; the flag says that a backslash has just been read and not yet written.
pub unescape : Bool → List ℕ → List ℕ
unescape false [] = []
unescape true [] = 92 ∷ []
unescape false (c ∷ cs) = elim (nat_eq c 92) [
  | true ↦ unescape true cs
  | false ↦ c ∷ unescape false cs
]
unescape true (c ∷ cs) = elim (nat_eq c 110) [
  | true ↦ 10 ∷ unescape false cs
  | false ↦ 92 ∷ elim (nat_eq c 92) [ true ↦ unescape true cs | false ↦ c ∷ unescape false cs ]
]

-- `s.replace(/"$/, '')`
unfoldable pub drop_quote : List ℕ → List ℕ
drop_quote [] = []
drop_quote (c ∷ []) = if nat_eq c 34 then [] else c ∷ []
drop_quote (c ∷ d ∷ cs) = c ∷ drop_quote (d ∷ cs)

unfoldable pub format_config : List ℕ → List ℕ
unfolding unescape drop_quote
format_config raw_config = drop_quote (unescape false (without_last (drop 1 raw_config)))

pub record WireguardConfig : Type 0 where
  pub config : Option (List ℕ)
  pub is_loading : Bool

unfoldable pub get_config : String → Action WireguardConfig (Unit {0})
unfolding format_config
get_config instance_id = do
  modify (λ l. record l { is_loading = true })
  finally
      (try_catch
        (do
          pattern' ← api api_get_wireguard
          response ← fetch (json_request "GET" (replace pattern' "{instanceId}" instance_id) none)
          when (not response.is_ok) (throw (error "Failed to fetch Wireguard configuration"))
          raw_config ← settle response.text
          modify (λ l. record l { config = some (format_config (units raw_config)) }))
        (λ _. skip))
      (modify (λ l. record l { is_loading = false }))
