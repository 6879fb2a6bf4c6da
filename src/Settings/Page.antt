-- ===== src/Settings/Page.antt =====
-- The page of the user's own account: web-server/frontend/src/pages/UserSettings.tsx. Its state holds
-- that of `useUserSettings`; `t` is the translation.
pub mod Laws
use remote_labs.Prelude.{
  Bool, List, Option, String, [], false, if◌then◌else◌, is_some, not, suc, true, zero, ℕ, ◌&&◌,
  ◌==◌, ◌||◌, ◌∷◌,
}
use remote_labs.Js.Text.{units}
use remote_labs.Runtime.{Action, User, emit, modify, navigated, zoom}
use remote_labs.Markup.{
  Markup, all, attr, beside, disabled, element, empty, on_change, on_click, on_submit, shown_if,
  shown_text, text,
}
use remote_labs.Password.{is_password_valid}
use remote_labs.Settings.{UserSettings, handle_add_ssh_key, handle_remove_ssh_key, handle_submit}

pub record SettingsPage : Type 0 where
  pub settings : UserSettings
  pub show_password_form : Bool

pub data SettingsEvent : Type 0 where
  go_back toggle_form add_key save : SettingsEvent
  set_password set_confirm_password set_new_key : String → SettingsEvent
  remove_key : ℕ → SettingsEvent

abbrev pub in_settings : Action UserSettings (Unit {0}) → Action SettingsPage (Unit {0})
in_settings = zoom (λ l. l.settings) (λ k l. record l { settings = k })

abbrev pub set_field : (UserSettings → UserSettings) → Action SettingsPage (Unit {0})
set_field f = in_settings (modify f)

-- The handlers; `r` is the state that was last rendered. The target of `navigate(-1)` is the entry
-- before, which is written `-1`.
unfoldable pub respond : Option User → SettingsEvent → SettingsPage → Action SettingsPage (Unit {0})
respond user go_back r = emit (navigated "-1")
respond user toggle_form r =
    modify (λ l. record l { show_password_form = not r.show_password_form })
respond user (set_password v) r = set_field (λ l. record l { password = v })
respond user (set_confirm_password v) r = set_field (λ l. record l { confirm_password = v })
respond user (set_new_key v) r = set_field (λ l. record l { new_ssh_key = v })
respond user add_key r = in_settings (handle_add_ssh_key r.settings)
respond user (remove_key index) r = in_settings (handle_remove_ssh_key index r.settings)
respond user save r = in_settings (handle_submit user r.settings)

-- The test of the attribute `disabled` of the button that saves.
abbrev pub is_save_disabled : SettingsPage → Bool
is_save_disabled p =
    p.settings.is_loading
    || (p.show_password_form
        && (not (is_password_valid (units p.settings.password))
            || not (p.settings.password == p.settings.confirm_password)))

module _ (t : String → String) where
  abbrev pub password_part : SettingsPage → Markup SettingsEvent
  password_part p = element "div" [] (
      all (
        element "div" [] (
          all (
            element "h3" [] (text (t "Password"))
            ∷ element "p" [] (text (t "Change your account password"))
            ∷ element "Button" (attr "type" "button" ∷ on_click toggle_form ∷ [])
                (text (if p.show_password_form then t "Cancel" else t "Change Password"))
            ∷ []))
        ∷ shown_if p.show_password_form (
            element "div" [] (
              all (
                element "Label" (attr "htmlFor" "password" ∷ []) (text (t "New Password"))
                ∷ element "Input"
                    (attr "type" "password"
                      ∷ attr "value" p.settings.password
                      ∷ on_change set_password
                      ∷ attr "placeholder" (t "Enter new password")
                      ∷ attr "required" ""
                      ∷ [])
                    empty
                ∷ element "PasswordRequirements" (attr "password" p.settings.password ∷ []) empty
                ∷ element "Label" (attr "htmlFor" "confirmPassword" ∷ [])
                    (text (t "Confirm New Password"))
                ∷ element "Input"
                    (attr "type" "password"
                      ∷ attr "value" p.settings.confirm_password
                      ∷ on_change set_confirm_password
                      ∷ attr "placeholder" (t "Confirm new password")
                      ∷ attr "required" ""
                      ∷ [])
                    empty
                ∷ [])))
        ∷ []))

  -- The row of a key, with the dialogue that its button opens.
  abbrev pub key_row : String → ℕ → Markup SettingsEvent
  key_row key index = element "div" [] (
      all (
        element "code" [] (text key)
        ∷ element "AlertDialog" [] (
            all (
              element "AlertDialogTitle" [] (text (t "Remove SSH Key"))
              ∷ element "AlertDialogDescription" []
                  (text (t "Are you sure you want to remove this SSH key?"))
              ∷ element "AlertDialogCancel" [] (text (t "Cancel"))
              ∷ element "AlertDialogAction" (on_click (remove_key index) ∷ []) (text (t "Remove"))
              ∷ []))
        ∷ []))

  abbrev pub key_rows : ℕ → List String → Markup SettingsEvent
  key_rows index [] = empty
  key_rows index (key ∷ keys) = beside (key_row key index) (key_rows (suc index) keys)

  abbrev pub no_keys : List String → Bool
  no_keys [] = true
  no_keys keys = false

  abbrev pub keys_part : SettingsPage → Markup SettingsEvent
  keys_part p = element "div" [] (
      all (
        element "h3" [] (text (t "SSH Public Keys"))
        ∷ element "p" [] (text (t "Manage your SSH keys for secure access"))
        ∷ element "Input"
            (attr "id" "sshKey"
              ∷ attr "value" p.settings.new_ssh_key
              ∷ on_change set_new_key
              ∷ attr "placeholder" (t "Paste your SSH public key here")
              ∷ [])
            empty
        ∷ element "Button" (attr "type" "button" ∷ on_click add_key ∷ []) (text (t "Add"))
        ∷ key_rows zero p.settings.ssh_keys
        ∷ shown_if (no_keys p.settings.ssh_keys)
            (element "div" [] (element "p" [] (text (t "No SSH keys added yet"))))
        ∷ []))

  abbrev pub settings_form : SettingsPage → Markup SettingsEvent
  settings_form p = element "form" (on_submit save ∷ []) (
      all (
        password_part p
        ∷ keys_part p
        ∷ shown_text p.settings.error_text (λ e. element "div" [] (text e))
        ∷ shown_text p.settings.success (λ m. element "div" [] (text m))
        ∷ element "Button" (attr "type" "submit" ∷ disabled (is_save_disabled p) ∷ [])
            (text (if p.settings.is_loading then t "Saving..." else t "Save Changes"))
        ∷ []))

  -- `UserSettings`
  abbrev pub user_settings : SettingsPage → Markup SettingsEvent
  user_settings p = element "div" [] (
      all (
        element "Button" (on_click go_back ∷ []) (text (t "Back"))
        ∷ element "CardTitle" [] (text (t "User Settings"))
        ∷ element "CardDescription" [] (text (t "Update your password and manage SSH keys"))
        ∷ element "CardContent" [] (settings_form p)
        ∷ []))
