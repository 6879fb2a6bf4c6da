-- ===== src/Pages.antt =====
-- The pages and forms that an e-mail leads to or asks for: web-server/frontend/src/pages/
-- VerifyEmail.tsx and RenewSession.tsx, and components/forms/ForgotPasswordForm.tsx. A wait of a fixed
-- time is left out.
pub mod Links
use remote_labs.Prelude.{
  Bool, Option, String, [], concat, false, if◌then◌else◌, none, not, some, true, ◌||◌, ◌∷◌,
}
use remote_labs.Js.Value.{Value, is_empty, obj, or_else, str}
use remote_labs.Js.Text.{replace, to_text}
use remote_labs.Env.{api_base_url, api_renew_session, api_verify_email}
use remote_labs.Runtime.{
  Action, api, error, fetch, fields, finally, get_prop, gets, is_text, json_request, message_or,
  modify, navigate, plain_request, send, settle, skip, throw, try_catch, when, ◌>>=◌, ◌>>◌,
}

-- `attempted` is the reference `verificationAttempted`.
pub record VerifyEmail : Type 0 where
  pub loading : Bool
  pub error_text : Option String
  pub verified : Bool
  pub attempted : Bool

-- `searchParams.get('token')` that is neither missing nor empty
abbrev pub has_token : Option String → Bool
has_token none = false
has_token (some token) = not (is_empty token)

abbrev pub is_verified : Value → Bool
is_verified message =
    is_text "User verified successfully" message || is_text "User already verified" message

-- The `try` block.
unfoldable pub ask_to_verify : String → Action VerifyEmail (Unit {0})
ask_to_verify token = do
  pattern' ← api api_verify_email
  response ← fetch (json_request "GET" (replace pattern' "{token}" token) none)
  if response.is_ok then skip else (do
    error_data ← settle response.json
    e ← get_prop "error" error_data
    throw (error (to_text (or_else e (str "Verification failed")))))
  data' ← settle response.json
  message ← get_prop "message" data'
  if is_verified message
      then modify (λ l. record l { verified = true })
      else throw (error "Invalid response from server")

abbrev pub verify_token : Option String → Action VerifyEmail (Unit {0})
verify_token none =
    modify (λ l. record l { error_text = some "No verification token provided"; loading = false })
verify_token (some token) =
    if is_empty token
    then modify
        (λ l. record l { error_text = some "No verification token provided"; loading = false })
    else finally
        (try_catch (ask_to_verify token) (λ t. modify (λ l. record l {
          error_text = some (message_or "An error occurred during verification" t);
        })))
        (modify (λ l. record l { loading = false }))

unfoldable pub verify_email : Option String → Action VerifyEmail (Unit {0})
verify_email token = do
  attempted ← gets (λ s. s.local.attempted)
  if attempted then skip else (do modify (λ l. record l { attempted = true }); verify_token token)

-- The status of `RenewSession`.
pub data RenewStatus : Type 0 where
  idle waiting renewed failed_renewal : RenewStatus

pub record RenewSession : Type 0 where
  pub status : RenewStatus
  pub error_message : String

abbrev pub renew_effect : Option String → Action RenewSession (Unit {0})
renew_effect token =
    if has_token token
    then skip
    else modify (λ l. record l { status = failed_renewal; error_message = "No token provided" })

-- The visit to the dashboard follows two seconds later.
unfoldable pub renew_token : String → Action RenewSession (Unit {0})
renew_token token = do
  modify (λ l. record l { status = waiting })
  try_catch
      (do
        pattern' ← api api_renew_session
        response ← fetch (plain_request "PUT" (replace pattern' "{token}" token))
        when (not response.is_ok) (throw (error "Failed to renew session"))
        modify (λ l. record l { status = renewed })
        navigate "/dashboard")
      (λ _. modify (λ l. record l {
        status = failed_renewal;
        error_message = "Failed to renew session. Please try again.";
      }))

unfoldable pub handle_renew : Option String → Action RenewSession (Unit {0})
handle_renew none = skip
handle_renew (some token) = if is_empty token then skip else renew_token token

-- The button is disabled while a renewal is awaited and after one.
abbrev pub is_disabled : RenewStatus → Bool
is_disabled waiting = true
is_disabled renewed = true
is_disabled _ = false

unfoldable pub press_renew : Option String → Action RenewSession (Unit {0})
press_renew token = do
  status ← gets (λ s. s.local.status)
  if is_disabled status then skip else handle_renew token

pub record ForgotPassword : Type 0 where
  pub is_loading : Bool
  pub error_text : Option String
  pub success : Bool

-- `emailRef.current` is set once the form is mounted; `email` is its value.
unfoldable pub handle_forgotten : String → Action ForgotPassword (Unit {0})
handle_forgotten email = do
  modify (λ l. record l { is_loading = true; error_text = none })
  finally
      (try_catch
        (do
          base ← api api_base_url
          response ← fetch (
              json_request "POST" (concat base "/auth/forgot-password")
                (some (obj (fields (("email", str email) ∷ [])))))
          if response.is_ok then skip else (do
            data' ← settle response.json
            message ← get_prop "message" data'
            throw (error (to_text (or_else message (str "Failed to send reset email")))))
          modify (λ l. record l { success = true }))
        (λ t. modify (λ l. record l { error_text = some (message_or "An error occurred" t) })))
      (modify (λ l. record l { is_loading = false }))
