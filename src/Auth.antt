-- ===== src/Auth.antt =====
-- The session of the user: web-server/frontend/src/context/AuthContext.tsx and
-- web-server/frontend/src/components/ProtectedRoute.tsx.
pub mod Session
pub mod Login
pub mod Restore
use remote_labs.Prelude.{Bool, Option, String, concat, false, if◌then◌else◌, none, some, true}
use remote_labs.Js.Value.{Value, arr, end, field, is_empty, nil, obj, or_else, str}
use remote_labs.Js.Text.{to_text}
use remote_labs.Env.{api_base_url, api_create_user, api_validate_user}
use remote_labs.Runtime.{
  Action, Auth, User, api, error, fetch, finally, get_prop, gets, json_request, navigate, pure,
  remove_cookie, set_auth, set_cookie, settle, throw, try_catch, ◌>>=◌, ◌>>◌,
}
use remote_labs.Cookies.{stored_user_id}

abbrev pub set_user : {L : Type 0} → Option User → Action L (Unit {0})
set_user u = set_auth (λ a. record a { user = u })

abbrev pub set_is_logged_in : {L : Type 0} → Bool → Action L (Unit {0})
set_is_logged_in b = set_auth (λ a. record a { is_logged_in = b })

abbrev pub set_is_loading : {L : Type 0} → Bool → Action L (Unit {0})
set_is_loading b = set_auth (λ a. record a { is_loading = b })

module _ {L : Type 0} where
  -- The fields that `fetchUserDetails` takes from the reply.
  unfoldable pub read_user : Value → Action L User
  read_user data' = do
    id ← get_prop "id" data'
    name ← get_prop "name" data'
    mail ← get_prop "mail" data'
    role ← get_prop "role" data'
    keys ← get_prop "publicSshKeys" data'
    pure (record {
      id = id;
      name = name;
      mail = mail;
      role = role;
      public_ssh_keys = or_else keys (arr nil);
    })

  unfoldable pub fetch_user_details : Value → Action L (Unit {0})
  unfolding read_user
  fetch_user_details user_id = do
    base ← api api_base_url
    response ← fetch (json_request "GET" (concat base (concat "/users/" (to_text user_id))) none)
    if response.is_ok
        then (do
          data' ← settle response.json
          user ← read_user data'
          set_user (some user)
          set_is_logged_in true)
        else throw (error "Failed to fetch user details")

  unfoldable pub handle_successful_auth : Value → Action L (Unit {0})
  handle_successful_auth user_id = do set_cookie (to_text user_id); fetch_user_details user_id

  -- `none` is `{}`, and `some text` is `{ error: text }`.
  unfoldable pub authenticate : String → Value → Action L (Option String)
  authenticate url body = do
    set_is_loading true
    response ← fetch (json_request "POST" url (some body))
    set_is_loading false
    if response.is_ok
        then (do
          data' ← settle response.json
          id ← get_prop "id" data'
          handle_successful_auth id
          navigate "/"
          pure none)
        else (do error_text ← settle response.text; pure (some error_text))

  unfoldable pub login : String → String → Action L (Option String)
  login mail password = do
    url ← api api_validate_user
    authenticate url (obj (field "mail" (str mail) (field "password" (str password) end)))

  unfoldable pub register : String → String → String → Action L (Option String)
  register name mail password = do
    set_is_loading true
    url ← api api_create_user
    response ← fetch (
        json_request "POST" url (
          some (
            obj (
              field "name" (str name)
                (field "mail" (str mail) (field "password" (str password) end))))))
    set_is_loading false
    if response.is_ok
        then pure none
        else do error_text ← settle response.text; pure (some error_text)

  unfoldable pub logout : Action L (Unit {0})
  logout = do set_user none; set_is_logged_in false; remove_cookie; navigate "/login"

  restore : Option String → Action L (Unit {0})
  restore none = set_is_loading false
  restore (some stored) =
      if is_empty stored
      then set_is_loading false
      else finally
          (try_catch (fetch_user_details (str stored))
            (λ _. do set_user none; set_is_logged_in false; remove_cookie))
          (set_is_loading false)

  -- The effect that runs once, when the provider is mounted.
  unfoldable pub on_mount : Action L (Unit {0})
  unfolding restore
  on_mount = do stored ← stored_user_id; restore stored

pub data View : Type 0 where
  nothing : View
  redirect : String → View
  children : View

-- `ProtectedRoute`
unfoldable pub protected_route : Auth → View
protected_route a =
    if a.is_loading then nothing else if a.is_logged_in then children else redirect "/login"
