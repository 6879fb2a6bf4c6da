-- ===== src/Tests/Inputs.antt =====
-- The forms, and the texts that they read and write.
use remote_labs.Prelude.{
  List, [], arith, false, length, none, refl, some, true, ℕ, ◌++◌, ◌↔◌, ◌∷◌, ◌≡◌, ◌≢◌, ◌≤◌,
}
use remote_labs.Js.Text.{units}
use remote_labs.Env.{base_url}
use remote_labs.Runtime.{Action, St, navigate}
use remote_labs.Tests.Samples.{accepting, st}
use remote_labs.Js.Text.Replace.{Lacks}
use remote_labs.Password.{between, is_password_valid, is_special}
use remote_labs.Password.Laws.{Has, is_password_valid_iff}
use remote_labs.Register.{
  RegisterForm, RegisterInputs, ResetForm, domain, has_errors, is_student_mail, matches_from,
  no_errors, validate,
}
use remote_labs.Register.Mail.{AreLocal, is_student_mail_iff}
use remote_labs.Settings.{UserSettings}
use remote_labs.Wireguard.{format_config}
use remote_labs.Wireguard.Format.{escape, format_config_lem}

abbrev form : St RegisterForm
form = st (record { errors = no_errors; is_loading = false }) accepting

abbrev inputs : RegisterInputs
inputs = record { name = some "Ada"; email = some "ada@b"; pwd = some "pw"; pwd_check = some "pw" }

abbrev registered_form : Action RegisterForm (Unit {0})
registered_form = navigate "/login"

abbrev reset : St ResetForm
reset =
    st (record { is_loading = false; error_text = none; success = false; password = "Abcdef1!" })
      accepting

abbrev account : St UserSettings
account =
    st
      (record {
        password = "";
        confirm_password = "";
        is_loading = false;
        error_text = none;
        success = none;
        ssh_keys = "old" ∷ [];
        new_ssh_key = " ssh ";
      })
      accepting

abbrev config_text : List ℕ
config_text = 65 ∷ 10 ∷ 66 ∷ []

password_test : is_password_valid (units "Abcdef1!") ≡ true
unfolding is_password_valid
password_test = refl

invalid_test : has_errors (validate (λ text. text) inputs) ≡ true
unfolding validate is_student_mail matches_from
invalid_test = refl

base-Lacks_brace : Lacks b'{' (base_url none)
base-Lacks_brace = ground arith

is_password_valid_iff_example : (is_password_valid (units "Abcdef1!") ≡ true) ↔ (
    (8 ≤ length (units "Abcdef1!"))
    × Has (λ c. between b'A' b'Z' c ≡ true) (units "Abcdef1!")
    × Has (λ c. between b'a' b'z' c ≡ true) (units "Abcdef1!")
    × Has (λ c. between b'0' b'9' c ≡ true) (units "Abcdef1!")
    × Has (λ c. is_special c ≡ true) (units "Abcdef1!"))
is_password_valid_iff_example = is_password_valid_iff (units "Abcdef1!")

is_student_mail_iff_example : (is_student_mail (units "a@edu.tecnocampus.cat") ≡ true) ↔ (
    (name : List ℕ) × AreLocal name
    × (name ≢ [])
    × ((units "a@edu.tecnocampus.cat") ≡ name ++ domain))
is_student_mail_iff_example = is_student_mail_iff (units "a@edu.tecnocampus.cat")

format_config_lem_example :
    (format_config (34 ∷ escape config_text ++ 34 ∷ []) ≡ config_text)
    × (format_config (34 ∷ escape config_text ++ 34 ∷ 10 ∷ []) ≡ config_text)
format_config_lem_example = format_config_lem config_text ((refl, (refl, (refl, tt)))) refl
