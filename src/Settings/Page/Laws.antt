-- ===== src/Settings/Page/Laws.antt =====
-- What the page of the account lets a user send.
use remote_labs.Prelude.{
  List, Option, String, [], arith, false, suc, true, ℕ, ◌==◌, ◌∷◌, ◌↔◌, ◌≡◌, some, concat, none,
  if◌then◌else◌, ◌&&◌,
}
use remote_labs.Js.Value.{truthy}
use remote_labs.Js.Text.{to_text, units}
use remote_labs.Env.{api_base_url, get_env}
use remote_labs.Runtime.{Request, St, User, done, id_of, json_request, requested}
use remote_labs.Auth.{fetch_user_details}
use remote_labs.Markup.{Offers, OffersIn}
use remote_labs.Password.{is_password_valid}
use remote_labs.Settings.{UserSettings, handle_submit, reload_user, send_update, update_request}
use remote_labs.Settings.Submission.{is_accepted, submit_lem}
use remote_labs.Settings.Page.{
  SettingsPage, is_save_disabled, key_rows, respond, save, toggle_form, user_settings,
}

-- The request by which the details of the user are read again.
abbrev pub details_request : Option String → Option User → Request
details_request vite user =
    json_request "GET"
      (concat (get_env vite api_base_url) (concat "/users/" (to_text (id_of user)))) none

key_rows-save :
    (t : String → String) (i : ℕ) (keys : List String)
    → OffersIn (some save) (key_rows t i keys) save
    → ⊥
key_rows-save t i [] h = h
key_rows-save t i (k ∷ keys) h = ground (arith, key_rows-save t (suc i) keys)

Offers-save :
    (t : String → String) (p : SettingsPage)
    → Offers (user_settings t p) save ↔ (is_save_disabled p ≡ false)
Offers-save t p = (λ h. ground (arith, key_rows-save t 0 p.settings.ssh_keys), λ h. ground arith)

fetch_user_details-log :
    (user : Option User) (s : St UserSettings)
    → (fetch_user_details (id_of user) s).1.world.log
      ≡ requested (details_request s.world.api_url user) ∷ s.world.log
unfolding fetch_user_details
fetch_user_details-log user s = ground arith

reload_user-log :
    (user : Option User) (s : St UserSettings)
    → (reload_user user s).1.world.log ≡ (
        if truthy (id_of user)
        then requested (details_request s.world.api_url user) ∷ s.world.log
        else s.world.log)
unfolding reload_user
reload_user-log user s = ground (arith, fetch_user_details-log user s)

-- What a submission of agreeing passwords asks the server for.
submit-log :
    (user : Option User) (s : St UserSettings)
    → (s.local.password == s.local.confirm_password) ≡ true
    → let q = update_request (get_env s.world.api_url api_base_url) user s.local in
      (handle_submit user s.local s).1.world.log ≡ (
        if is_accepted user s.local s && truthy (id_of user)
        then requested (details_request s.world.api_url user) ∷ requested q ∷ s.world.log
        else requested q ∷ s.world.log)
unfolding handle_submit send_update
submit-log user s agree = grind (arith, reload_user-log)

-- With the password form open and the passwords agreeing, saving is offered exactly if the password
-- meets the requirements. Once the form is closed by its button, saving is offered whatever the
-- password is, and the request for the update still carries it.
pub cancel_lem :
    (t : String → String) (user : Option User) (s : St SettingsPage)
    → s.local.show_password_form ≡ true
    → s.local.settings.is_loading ≡ false
    → (s.local.settings.password == s.local.settings.confirm_password) ≡ true
    → let closed = (respond user toggle_form s.local s).1 in
      let out = respond user save closed.local closed in
      let inner : St UserSettings = record { local = s.local.settings; world = s.world } in
      let q = update_request (get_env s.world.api_url api_base_url) user s.local.settings in
      (Offers (user_settings t s.local) save
        ↔ (is_password_valid (units s.local.settings.password) ≡ true))
      × Offers (user_settings t closed.local) save
      × (out.0 ≡ done tt)
      × (out.1.world.log ≡ (
          if is_accepted user s.local.settings inner && truthy (id_of user)
          then requested (details_request s.world.api_url user) ∷ requested q ∷ s.world.log
          else requested q ∷ s.world.log))
unfolding respond
cancel_lem t user s opened idle agree =
    let inner : St UserSettings = record { local = s.local.settings; world = s.world } in
    let closed = (respond user toggle_form s.local s).1 in
    (
      (
        λ h. ground (arith, (Offers-save t s.local).0 h),
        λ h. (Offers-save t s.local).1 (ground arith),
      ),
      (Offers-save t closed.local).1 (ground arith),
      (submit_lem user s.local.settings inner).0,
      submit-log user inner agree,
    )
