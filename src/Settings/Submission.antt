-- ===== src/Settings/Submission.antt =====
-- What a submission of the account form tells the user.
use remote_labs.Prelude.{Bool, Option, arith, false, is_some, none, ◌&&◌, ◌==◌, ◌||◌, ◌≡◌}
use remote_labs.Js.Value.{Value, is_empty}
use remote_labs.Env.{api_base_url, get_env}
use remote_labs.Runtime.{St, User, accepted, done, id_of}
use remote_labs.Auth.{fetch_user_details}
use remote_labs.Settings.{UserSettings, handle_submit, reload_user, send_update, update_request}

-- The server's word on the update that a state sends.
abbrev pub is_accepted : Option User → UserSettings → St UserSettings → Bool
is_accepted user r s =
    accepted
      (s.world.net s.world.log (update_request (get_env s.world.api_url api_base_url) user r))

fetch_user_details-local :
    (v : Value) (s : St UserSettings) → (fetch_user_details v s).1.local ≡ s.local
unfolding fetch_user_details
fetch_user_details-local v s = ground arith

reload_user-local :
    (user : Option User) (s : St UserSettings) → (reload_user user s).1.local ≡ s.local
unfolding reload_user
reload_user-local user s = ground (arith, fetch_user_details-local (id_of user) s)

send_update-success :
    (user : Option User) (r : UserSettings) (s : St UserSettings)
    → s.local.success ≡ none
    → is_some (send_update user r s).1.local.success ≡ is_accepted user r s
unfolding send_update
send_update-success user r s h = grind (arith, reload_user-local)

-- A submission ends normally with the loading flag cleared. It says that the profile was updated
-- exactly when the passwords agree, or none is given, and the server accepted the update.
pub submit_lem :
    (user : Option User) (r : UserSettings) (s : St UserSettings)
    → let agree = is_empty r.password || r.password == r.confirm_password in
      let out = handle_submit user r s in
      (out.0 ≡ done tt)
      × (out.1.local.is_loading ≡ false)
      × (is_some out.1.local.success ≡ (agree && is_accepted user r s))
unfolding handle_submit
submit_lem user r s = grind (arith, send_update-success)
