-- ===== src/Register/View/Reset.antt =====
-- The page of a reset as it is drawn: web-server/frontend/src/pages/ResetPassword.tsx.
use remote_labs.Prelude.{Option, String, [], if◌then◌else◌, not, ◌||◌, ◌∷◌}
use remote_labs.Js.Text.{units}
use remote_labs.Markup.{Markup, all, attr, disabled, element, empty, on_click, on_submit, text}
use remote_labs.Pages.{has_token}
use remote_labs.Password.{is_password_valid}
use remote_labs.Register.{ResetForm}
use remote_labs.Register.View.{input, message}

pub data ResetEvent : Type 0 where
  submit_reset back_to_login : ResetEvent
  set_new_password set_confirm_password : String → ResetEvent

module _ (t : String → String) where
  -- A card of `ResetPassword` with the way back.
  abbrev pub back_card : String → String → Markup ResetEvent
  back_card title description = element "Card" [] (
      all (
        element "CardTitle" [] (text (t title))
        ∷ element "CardDescription" [] (text (t description))
        ∷ element "Button" (on_click back_to_login ∷ []) (text (t "Back to Login"))
        ∷ []))

  -- `ResetPassword`, with the parameter `token` of the address and its form.
  abbrev pub reset_password : Option String → ResetForm → Markup ResetEvent
  reset_password token l =
      if not (has_token token)
      then back_card "Invalid Reset Link" "This password reset link is invalid or has expired."
      else if l.success
      then back_card "Password Reset Successful"
          "Your password has been reset successfully. You can now log in with your new password."
      else element "Card" [] (
          all (
            element "CardTitle" [] (text (t "Reset Password"))
            ∷ element "CardDescription" [] (text (t "Enter your new password below."))
            ∷ element "form" (on_submit submit_reset ∷ []) (
                all (
                  element "Label" [] (text (t "New Password"))
                  ∷ input "password" "password" "" set_new_password
                  ∷ element "PasswordRequirements" (attr "password" l.password ∷ []) empty
                  ∷ element "Label" [] (text (t "Confirm Password"))
                  ∷ input "confirmPassword" "password" "" set_confirm_password
                  ∷ message l.error_text
                  ∷ element "Button"
                      (attr "type" "submit"
                        ∷ disabled (l.is_loading || not (is_password_valid (units l.password)))
                        ∷ [])
                      (text (t "Reset Password"))
                  ∷ []))
            ∷ []))
