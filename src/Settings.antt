-- ===== src/Settings.antt =====
-- The form of the user's own account: web-server/frontend/src/hooks/useUserSettings.ts.
pub mod Keys
pub mod Page
pub mod Submission
use remote_labs.Prelude.{
  Bool, List, Option, String, [], concat, false, if◌then◌else◌, none, not, some, suc, true, zero, ℕ,
  ◌&&◌, ◌++◌, ◌==◌, ◌∷◌,
}
use remote_labs.Js.Value.{Items, arr, cons, is_empty, nil, obj, str, truthy}
use remote_labs.Js.Text.{trim}
use remote_labs.Env.{api_base_url}
use remote_labs.Runtime.{
  Action, Request, User, api, error, fetch, fields, finally, id_of, json_request, keys_of, modify,
  skip, throw, translated, try_catch, when, ◌>>=◌, ◌>>◌,
}
use remote_labs.Auth.{fetch_user_details}

pub record UserSettings : Type 0 where
  pub password : String
  pub confirm_password : String
  pub is_loading : Bool
  pub error_text : Option String
  pub success : Option String
  pub ssh_keys : List String
  pub new_ssh_key : String

-- `xs.filter((_, i) => i !== index)`
abbrev pub without : {A : Type 0} → ℕ → List A → List A
without index [] = []
without zero (x ∷ xs) = xs
without (suc index) (x ∷ xs) = x ∷ without index xs

abbrev pub texts : List String → Items
texts [] = nil
texts (k ∷ ks) = cons (str k) (texts ks)

abbrev pub set_success : Option String → Action UserSettings (Unit {0})
set_success m = modify (λ l. record l { success = m })

abbrev pub set_error : Option String → Action UserSettings (Unit {0})
set_error m = modify (λ l. record l { error_text = m })

abbrev pub update_request : String → Option User → UserSettings → Request
update_request base user r = json_request "PUT" (concat base "/users/update") (
    some (
      obj (
        fields (
          ("userId", id_of user)
          ∷ ("password", str r.password)
          ∷ ("publicSshKeys", arr (texts r.ssh_keys))
          ∷ []))))

-- The effect that copies the keys of the user into the form; they are an array of texts or missing.
abbrev pub texts_of : Items → List String
texts_of nil = []
texts_of (cons (str k) vs) = k ∷ texts_of vs
texts_of (cons v vs) = texts_of vs

unfoldable pub sync_keys : Option User → Action UserSettings (Unit {0})
sync_keys user = elim (keys_of user) [
  | arr vs ↦ modify (λ l. record l { ssh_keys = texts_of vs })
  | v ↦ skip
]

-- The end of a submission that the server accepted.
unfoldable pub reload_user : Option User → Action UserSettings (Unit {0})
reload_user user = when (truthy (id_of user)) (fetch_user_details (id_of user))

-- The part of the submit handler in its `try`.
unfoldable pub send_update : Option User → UserSettings → Action UserSettings (Unit {0})
send_update user r = do
  base ← api api_base_url
  response ← fetch (update_request base user r)
  when (not response.is_ok) (throw (error "Failed to update user"))
  m ← translated "Profile updated successfully"
  modify (λ l. record l { success = some m; password = ""; confirm_password = "" })
  reload_user user

-- The submit handler; `r` is the state that was last rendered, `user` the one of the context then.
unfoldable pub handle_submit : Option User → UserSettings → Action UserSettings (Unit {0})
handle_submit user r = do
  modify (λ l. record l { is_loading = true; error_text = none; success = none })
  if not (is_empty r.password) && not (r.password == r.confirm_password)
      then (do
        e ← translated "Passwords do not match"
        modify (λ l. record l { error_text = some e; is_loading = false }))
      else finally
          (try_catch (send_update user r)
            (λ _. do e ← translated "Failed to update profile"; set_error (some e)))
          (modify (λ l. record l { is_loading = false }))

unfoldable pub handle_add_ssh_key : UserSettings → Action UserSettings (Unit {0})
handle_add_ssh_key r =
    when (not (is_empty (trim r.new_ssh_key))) (
      modify (λ l. record l { ssh_keys = r.ssh_keys ++ trim r.new_ssh_key ∷ []; new_ssh_key = "" }))

unfoldable pub handle_remove_ssh_key : ℕ → UserSettings → Action UserSettings (Unit {0})
handle_remove_ssh_key index r = modify (λ l. record l { ssh_keys = without index r.ssh_keys })
