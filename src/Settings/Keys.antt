-- ===== src/Settings/Keys.antt =====
-- The account form: its keys, and what a submission tells.
use remote_labs.Prelude.{
  List, String, [], ap, arith, false, length, length-append, refl, suc, ◌++◌, ◌∷◌, ◌≡◌,
}
use remote_labs.Js.Value.{is_empty}
use remote_labs.Js.Text.{trim}
use remote_labs.Runtime.{St}
use remote_labs.Settings.{UserSettings, handle_add_ssh_key, handle_remove_ssh_key, without}

without-append : (ks : List String) (k : String) → without (length ks) (ks ++ k ∷ []) ≡ ks
without-append [] k = refl
without-append (a ∷ ks) k = ap (λ r. a ∷ r) (without-append ks k)

-- A key that was added and whose row is removed right after it leaves the other keys as they were;
-- the key must not be blank.
remove-add :
    (s : St UserSettings)
    → is_empty (trim s.local.new_ssh_key) ≡ false
    → let added = handle_add_ssh_key s.local s in
      let removed = handle_remove_ssh_key (length s.local.ssh_keys) added.1.local added.1 in
      (length added.1.local.ssh_keys ≡ suc (length s.local.ssh_keys))
      × (added.1.local.new_ssh_key ≡ "")
      × (removed.1.local.ssh_keys ≡ s.local.ssh_keys)
unfolding handle_add_ssh_key handle_remove_ssh_key
remove-add s h = ground (
  arith,
  h,
  without-append s.local.ssh_keys (trim s.local.new_ssh_key),
  length-append s.local.ssh_keys (trim s.local.new_ssh_key ∷ []),
)
