-- ===== src/Auth/Login.antt =====
-- How a login of AuthContext.tsx ends: the loading flag, the error, the session and the cookie.
use remote_labs.Prelude.{Option, String, arith, false, is_some, none, some, true, ◌↔◌, ◌≡◌}
use remote_labs.Js.Value.{Value, end, field, obj, str}
use remote_labs.Env.{api_validate_user, get_env}
use remote_labs.Runtime.{Request, St, done, is_thrown, json_request}
use remote_labs.Auth.{
  authenticate, children, fetch_user_details, handle_successful_auth, login, nothing,
  protected_route,
}

-- The request that a login sends.
abbrev pub login_request : Option String → String → String → Request
login_request vite mail password =
    json_request "POST" (get_env vite api_validate_user)
      (some (obj (field "mail" (str mail) (field "password" (str password) end))))

module _ {L : Type 0} where
  -- The loading flag is left as it was.
  fetch_user_details-is_loading :
      (v : Value) (s : St L)
      → (fetch_user_details v s).1.world.auth.is_loading ≡ s.world.auth.is_loading
  unfolding fetch_user_details
  fetch_user_details-is_loading v s = ground arith

  pub fetch_user_details-done :
      (v : Value) (s : St L)
      → (fetch_user_details v s).0 ≡ done tt
      → ((fetch_user_details v s).1.world.auth.is_logged_in ≡ true)
        × (is_some (fetch_user_details v s).1.world.auth.user ≡ true)
  unfolding fetch_user_details
  fetch_user_details-done v s h = ground arith

  -- The cookie is not touched.
  pub fetch_user_details-jar :
      (v : Value) (s : St L) → (fetch_user_details v s).1.world.jar ≡ s.world.jar
  unfolding fetch_user_details
  fetch_user_details-jar v s = ground arith

  authenticate-is_loading :
      (url : String) (body : Value) (s : St L)
      → (authenticate url body s).1.world.auth.is_loading
        ≡ is_thrown (s.world.net s.world.log (json_request "POST" url (some body)))
  unfolding authenticate handle_successful_auth
  authenticate-is_loading url body s = grind (arith, fetch_user_details-is_loading)

  -- A login leaves the loading flag set exactly when its request got no response, and the
  -- protected pages are then blank.
  pub login_stuck :
      (mail password : String) (s : St L)
      → let a = (login mail password s).1.world.auth in
        let lost =
          is_thrown (s.world.net s.world.log (login_request s.world.api_url mail password)) in
        (a.is_loading ≡ lost) × ((protected_route a ≡ nothing) ↔ (lost ≡ true))
  unfolding login protected_route
  login_stuck mail password s =
      let e =
        authenticate-is_loading (get_env s.world.api_url api_validate_user)
          (obj (field "mail" (str mail) (field "password" (str password) end))) s in
      (e, ground arith)

  authenticate-done :
      (url : String) (body : Value) (s : St L)
      → (authenticate url body s).0 ≡ done none
      → let a = (authenticate url body s).1.world.auth in
        (a.is_logged_in ≡ true) × (is_some a.user ≡ true) × (a.is_loading ≡ false)
  unfolding authenticate handle_successful_auth
  authenticate-done url body s h =
      grind (arith, fetch_user_details-done, fetch_user_details-is_loading)

  -- When a login returns no error, a user is logged in and the protected pages are shown.
  login_success :
      (mail password : String) (s : St L)
      → (login mail password s).0 ≡ done none
      → let a = (login mail password s).1.world.auth in
        (a.is_logged_in ≡ true) × (is_some a.user ≡ true) × (protected_route a ≡ children)
  unfolding login protected_route
  login_success mail password s h = ground (arith, authenticate-done _ _ s h)

  -- When a login returns an error, nobody's session is changed: the user, the flag and the
  -- cookie are as they were.
  login_refused :
      (mail password : String) (s : St L) {text : String}
      → (login mail password s).0 ≡ done (some text)
      → let w = (login mail password s).1.world in
        (w.auth.user ≡ s.world.auth.user)
        × (w.auth.is_logged_in ≡ s.world.auth.is_logged_in)
        × (w.jar ≡ s.world.jar)
  unfolding login authenticate handle_successful_auth
  login_refused mail password s h = ground arith
