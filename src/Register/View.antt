-- ===== src/Register/View.antt =====
-- The forms of a session as they are drawn: web-server/frontend/src/components/forms/RegisterForm.tsx,
-- LoginForm.tsx and ForgotPasswordForm.tsx, and components/LoginButton.tsx that opens them.
-- What an input with a reference holds is a part of the state here.
pub mod Offered
pub mod Reset
use remote_labs.Prelude.{
  Bool, Option, String, [], false, if◌then◌else◌, none, not, some, true, ◌||◌, ◌∷◌,
}
use remote_labs.Js.Text.{units}
use remote_labs.Markup.{
  Markup, all, attr, disabled, element, empty, on_change, on_click, on_submit, shown_if, shown_text,
  text,
}
use remote_labs.Pages.{ForgotPassword, has_token}
use remote_labs.Password.{is_password_valid}
use remote_labs.Register.{RegisterForm, RegisterInputs, ResetForm}

pub record SessionPage : Type 0 where
  pub login_open : Bool
  pub register_open : Bool
  pub login_error : Option String
  pub forgot_open : Bool
  pub forgot : ForgotPassword
  pub form : RegisterForm
  pub name : String
  pub email : String
  -- the state `password`, which the input shows
  pub password : String
  pub password_check : String

pub data SessionEvent : Type 0 where
  set_login_open set_register_open set_forgot_open : Bool → SessionEvent
  open_register submit_login submit_register submit_forgot log_out : SessionEvent
  set_name set_email set_password set_password_check : String → SessionEvent
  set_login_email set_login_password set_forgot_email : String → SessionEvent

-- What the references of the form hold when it is sent.
abbrev pub inputs_of : SessionPage → RegisterInputs
inputs_of p = record {
  name = some p.name;
  email = some p.email;
  pwd = some p.password;
  pwd_check = some p.password_check;
}

-- What the events that concern the dialogues alone do: the setters of `LoginButton` and `LoginForm`,
-- and `handleOpenRegister`.
abbrev pub press_dialog : SessionEvent → SessionPage → SessionPage
press_dialog (set_login_open b) p = record p { login_open = b }
press_dialog (set_register_open b) p = record p { register_open = b }
press_dialog (set_forgot_open b) p = record p { forgot_open = b }
press_dialog open_register p = record p { login_open = false; register_open = true }
press_dialog _ p = p

module _ {E : Type 0} where
  -- `{e && <CardDescription>{e}</CardDescription>}`
  abbrev pub message : Option String → Markup E
  message e = shown_text e (λ e. element "CardDescription" [] (text e))

  abbrev pub input : String → String → String → (String → E) → Markup E
  input id kind placeholder set =
      element "Input"
        (attr "id" id
          ∷ attr "type" kind
          ∷ attr "placeholder" placeholder
          ∷ on_change set
          ∷ attr "required" ""
          ∷ [])
        empty

module _ (t : String → String) where
  -- `RegisterForm`
  abbrev pub register_form : SessionPage → Markup SessionEvent
  register_form p = element "Card" [] (
      all (
        element "CardTitle" [] (text (t "Sign Up"))
        ∷ element "CardDescription" []
            (text (t "Enter your name, email and password below to sign up for an account"))
        ∷ element "form" (on_submit submit_register ∷ attr "noValidate" "" ∷ []) (
            all (
              element "Label" [] (text (t "Name"))
              ∷ input "name" "text" (t "Name Surname") set_name
              ∷ element "Label" [] (text (t "Email"))
              ∷ input "mail" "email" (t "Your email") set_email
              ∷ element "Label" [] (text (t "Password"))
              ∷ input "password" "password" "" set_password
              ∷ element "PasswordRequirements" (attr "password" p.password ∷ []) empty
              ∷ element "Label" [] (text (t "Confirm Password"))
              ∷ input "passwordCheck" "password" "" set_password_check
              ∷ message p.form.errors.email
              ∷ message p.form.errors.password
              ∷ message p.form.errors.password_match
              ∷ element "Button"
                  (attr "type" "submit"
                    ∷ disabled (p.form.is_loading || not (is_password_valid (units p.password)))
                    ∷ [])
                  (text (t "Sign Up"))
              ∷ []))
        ∷ []))

  -- `ForgotPasswordForm`
  abbrev pub forgot_password_form : ForgotPassword → Markup SessionEvent
  forgot_password_form f =
      if f.success
      then element "Card" [] (
          all (
            element "CardTitle" [] (text (t "Check Your Email"))
            ∷ element "CardDescription" [] (
                text (
                  t
                    "We are generating a secure token with a reset link that will be valid for 24 hours. The email may take a few minutes to arrive. If you request another reset link, a new token will be generated and the previous link will no longer be valid."))
            ∷ element "Button" (on_click (set_forgot_open false) ∷ []) (text (t "Close"))
            ∷ []))
      else element "Card" [] (
          all (
            element "CardTitle" [] (text (t "Forgot Password"))
            ∷ element "CardDescription" [] (
                text (
                  t "Enter your email address and we will send you a link to reset your password."))
            ∷ element "form" (on_submit submit_forgot ∷ []) (
                all (
                  element "Label" [] (text (t "Email"))
                  ∷ input "email" "email" (t "Your email") set_forgot_email
                  ∷ message f.error_text
                  ∷ element "Button" (attr "type" "submit" ∷ disabled f.is_loading ∷ [])
                      (text (t "Send Reset Link"))
                  ∷ element "Button" (attr "type" "button" ∷ on_click (set_forgot_open false) ∷ [])
                      (text (t "Cancel"))
                  ∷ []))
            ∷ []))

  -- `LoginForm`; `is_loading` is that of the session.
  abbrev pub login_form : Bool → SessionPage → Markup SessionEvent
  login_form is_loading p = all (
      element "CardTitle" [] (text (t "Log In"))
      ∷ element "CardDescription" []
          (text (t "Enter your email and password below to login to your account"))
      ∷ element "form" (on_submit submit_login ∷ []) (
          all (
            element "Label" [] (text (t "Email"))
            ∷ input "email" "email" (t "Your email") set_login_email
            ∷ element "Label" [] (text (t "Password"))
            ∷ input "password" "password" "" set_login_password
            ∷ element "Button" (on_click (set_forgot_open true) ∷ attr "type" "button" ∷ [])
                (text (t "Forgot Password?"))
            ∷ message p.login_error
            ∷ element "Button" (attr "type" "submit" ∷ disabled is_loading ∷ []) (text (t "Log In"))
            ∷ []))
      ∷ text (t "Don't have an account?")
      ∷ element "Button" (on_click open_register ∷ []) (text (t "Sign Up"))
      ∷ shown_if p.forgot_open (
          element "DialogContent" (on_click (set_forgot_open false) ∷ []) (
            all (
              element "DialogTitle" [] (text (t "Forgot Password"))
              ∷ element "DialogDescription" [] (
                  text (
                    t
                      "Enter your email address and we will send you a link to reset your password."))
              ∷ forgot_password_form p.forgot
              ∷ [])))
      ∷ [])

  -- `LoginButton`; a `DialogContent` has a button that closes it.
  abbrev pub login_button : Bool → Bool → SessionPage → Markup SessionEvent
  login_button is_logged_in is_loading p =
      if is_logged_in
      then element "Button" (on_click log_out ∷ []) (element "span" [] (text (t "Logout")))
      else all (
          element "Button" (on_click (set_login_open true) ∷ [])
            (element "span" [] (text (t "Log In")))
          ∷ shown_if p.login_open (
              element "DialogContent" (on_click (set_login_open false) ∷ []) (
                all (
                  element "DialogTitle" [] (text (t "Log In"))
                  ∷ element "DialogDescription" []
                      (text (t "Enter your username and password below to login to your account"))
                  ∷ login_form is_loading p
                  ∷ [])))
          ∷ shown_if p.register_open (
              element "DialogContent" (on_click (set_register_open false) ∷ []) (
                all (
                  element "DialogTitle" [] (text (t "Sign Up"))
                  ∷ element "DialogDescription" []
                      (text (t "Enter your username and password below to sign up for an account"))
                  ∷ register_form p
                  ∷ [])))
          ∷ [])
