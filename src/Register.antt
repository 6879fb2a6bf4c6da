-- ===== src/Register.antt =====
-- The forms that open a session: web-server/frontend/src/hooks/forms/useRegisterForm.ts and
-- useLoginForm.ts, and the form of web-server/frontend/src/pages/ResetPassword.tsx. The inputs of a
-- form are arguments, `none` where the element is not mounted.
pub mod Mail
pub mod Forms
pub mod View
use remote_labs.Prelude.{
  Bool, List, Option, String, [], concat, false, if◌then◌else◌, is_some, length, ltb, nat_eq, none,
  not, some, true, ℕ, ◌&&◌, ◌==◌, ◌||◌, ◌∷◌,
}
use remote_labs.Js.Value.{is_empty, obj, or_else, str}
use remote_labs.Js.Text.{is_space, to_text, units}
use remote_labs.Env.{api_base_url}
use remote_labs.Runtime.{
  Action, api, error, fetch, fields, finally, get_prop, gets, json_request, message_or, modify,
  settle, show_alert, skip, throw, toast, translated, try_catch, ◌>>=◌, ◌>>◌,
}
use remote_labs.Auth.{login, register}
use remote_labs.Password.{is_password_valid}

-- `[^@\s]`
abbrev pub is_local : ℕ → Bool
is_local c = not (nat_eq c b'@') && not (is_space c)

abbrev pub units_eq : List ℕ → List ℕ → Bool
units_eq [] [] = true
units_eq (a ∷ as') (b ∷ bs) = nat_eq a b && units_eq as' bs
units_eq _ _ = false

abbrev pub domain : List ℕ
domain = units "@edu.tecnocampus.cat"

-- `/^[^@\s]+@edu\.tecnocampus\.cat$/`: the first part takes all that it can, and one unit at least.
unfoldable pub matches_from : Bool → List ℕ → Bool
matches_from some_read [] = false
matches_from some_read (c ∷ cs) =
    let more = matches_from true cs in
    if is_local c then more else some_read && units_eq (c ∷ cs) domain

unfoldable pub is_student_mail : List ℕ → Bool
unfolding matches_from
is_student_mail mail = matches_from false mail

pub record RegisterErrors : Type 0 where
  pub email : Option String
  pub password : Option String
  pub password_match : Option String

pub record RegisterForm : Type 0 where
  pub errors : RegisterErrors
  pub is_loading : Bool

-- The values in the four inputs.
pub record RegisterInputs : Type 0 where
  pub name : Option String
  pub email : Option String
  pub pwd : Option String
  pub pwd_check : Option String

abbrev pub no_errors : RegisterErrors
no_errors = record { email = none; password = none; password_match = none }

abbrev pub holds {ℓ} : {A : Type ℓ} → (A → Bool) → Option A → Bool
holds p none = false
holds p (some a) = p a

abbrev pub differ : Option String → Option String → Bool
differ (some a) (some b) = not (a == b)
differ _ _ = false

-- The three checks of the form, with the texts of their messages.
unfoldable pub validate : (String → String) → RegisterInputs → RegisterErrors
unfolding is_student_mail
validate t i = record {
  email =
      if holds (λ e. not (is_student_mail (units e))) i.email
      then some (t "Invalid email address, must be student email like: user@edu.tecnocampus.cat")
      else none;
  password =
      if holds (λ p. ltb (length (units p)) 6) i.pwd
      then some (t "Password must be at least 6 characters")
      else none;
  password_match = if differ i.pwd i.pwd_check then some (t "Passwords do not match") else none;
}

-- `Object.keys(newErrors).length > 0`
abbrev pub has_errors : RegisterErrors → Bool
has_errors e = is_some e.email || is_some e.password || is_some e.password_match

abbrev pub set_errors : RegisterErrors → Action RegisterForm (Unit {0})
set_errors e = modify (λ l. record l { errors = e })

abbrev pub set_is_loading : Bool → Action RegisterForm (Unit {0})
set_is_loading b = modify (λ l. record l { is_loading = b })

-- The end of the handler, on the result of `register`; an empty text is no error.
abbrev pub registered :
    Action RegisterForm (Unit {0}) → Option String → Action RegisterForm (Unit {0})
registered on_register result =
    if holds (λ e. not (is_empty e)) result
    then set_errors (record no_errors { email = result })
    else (do
      title ← translated "Registration successful"
      description ←
          translated
            "A verification email has been sent to your email address. Please verify your account before logging in."
      show_alert title description
      on_register)

-- The part behind the checks.
submit_register :
    Action RegisterForm (Unit {0})
    → Option String
    → Option String
    → Option String
    → Action RegisterForm (Unit {0})
submit_register on_register (some name) (some email) (some pwd) = do
  set_is_loading true
  result ← register name email pwd
  set_is_loading false
  registered on_register result
submit_register on_register _ _ _ = skip

unfoldable pub handle_register :
    Action RegisterForm (Unit {0}) → RegisterInputs → Action RegisterForm (Unit {0})
unfolding submit_register
handle_register on_register i = do
  set_errors no_errors
  t ← gets (λ s. s.world.translate)
  if has_errors (validate t i)
      then set_errors (validate t i)
      else submit_register on_register i.name i.email i.pwd

-- `useLoginForm`: its state is the error.
unfoldable pub handle_login :
    Action (Option String) (Unit {0})
    → Option String
    → Option String
    → Action (Option String) (Unit {0})
handle_login on_login (some email) (some pwd) = do
  modify (λ _. none)
  result ← login email pwd
  if holds (λ e. not (is_empty e)) result then modify (λ _. result) else (do
    description ← translated "You have been logged in successfully"
    toast (record { title = ""; description = description; variant = "" })
    on_login)
handle_login on_login _ _ = modify (λ _. none)

pub record ResetForm : Type 0 where
  pub is_loading : Bool
  pub error_text : Option String
  pub success : Bool
  pub password : String

-- `setError(text)`
abbrev pub set_error : Option String → Action ResetForm (Unit {0})
set_error e = modify (λ l. record l { error_text = e })

-- The submit handler of `ResetPassword`; `password` is the one of the last render.
unfoldable pub handle_reset : String → String → Option String → Action ResetForm (Unit {0})
handle_reset token password none = skip
handle_reset token password (some confirm_password) =
    if not (password == confirm_password)
    then (translated "Passwords do not match" >>= λ e. set_error (some e))
    else if not (is_password_valid (units password))
    then (translated "Password does not meet the requirements" >>= λ e. set_error (some e))
    else (do
      modify (λ l. record l { is_loading = true; error_text = none })
      finally
          (try_catch
            (do
              base ← api api_base_url
              response ← fetch (
                  json_request "POST" (concat base "/auth/reset-password")
                    (some (obj (fields (("token", str token) ∷ ("password", str password) ∷ [])))))
              if response.is_ok then skip else (do
                data' ← settle response.json
                message ← get_prop "message" data'
                throw (error (to_text (or_else message (str "Failed to reset password")))))
              modify (λ l. record l { success = true }))
            (λ t. set_error (some (message_or "An error occurred" t))))
          (modify (λ l. record l { is_loading = false })))
