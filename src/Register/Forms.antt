-- ===== src/Register/Forms.antt =====
-- What the forms send: nothing unless their checks pass, and what a submission ends with.
use remote_labs.Prelude.{
  Option, String, [], arith, concat, false, if◌then◌else◌, some, true, ◌&&◌, ◌==◌, ◌∷◌, ◌≡◌,
}
use remote_labs.Js.Value.{obj, str}
use remote_labs.Js.Text.{units}
use remote_labs.Env.{api_base_url, get_env}
use remote_labs.Runtime.{Action, Request, St, accepted, done, fields, json_request, requested}
use remote_labs.Password.{is_password_valid}
use remote_labs.Register.{
  RegisterForm, RegisterInputs, ResetForm, handle_register, handle_reset, has_errors, validate,
}

-- A registration whose checks fail ends normally, shows their messages and does nothing else,
-- whatever would follow a successful one.
register_invalid :
    (on_register : Action RegisterForm (Unit {0})) (i : RegisterInputs) (s : St RegisterForm)
    → has_errors (validate s.world.translate i) ≡ true
    → let r = handle_register on_register i s in
      (r.0 ≡ done tt)
      × (r.1.world ≡ s.world)
      × (r.1.local.errors ≡ validate s.world.translate i)
      × (r.1.local.is_loading ≡ s.local.is_loading)
unfolding handle_register
register_invalid on_register i s h = ground (arith, h)

-- The request of a reset.
abbrev pub reset_request : Option String → String → String → Request
reset_request vite token password =
    json_request "POST" (concat (get_env vite api_base_url) "/auth/reset-password")
      (some (obj (fields (("token", str token) ∷ ("password", str password) ∷ []))))

-- A reset of a form that is neither loading nor done ends normally and does not leave the form
-- loading. It asks the server only for a password that is repeated and meets all requirements,
-- and shows success exactly if the server accepts it.
pub reset_lem :
    (token password confirm_password : String) (s : St ResetForm)
    → s.local.is_loading ≡ false
    → s.local.success ≡ false
    → let r = handle_reset token password (some confirm_password) s in
      let q = reset_request s.world.api_url token password in
      let is_sound = password == confirm_password && is_password_valid (units password) in
      (r.0 ≡ done tt)
      × (r.1.local.is_loading ≡ false)
      × (r.1.world.log ≡ (if is_sound then requested q ∷ s.world.log else s.world.log))
      × (r.1.local.success ≡ (is_sound && accepted (s.world.net s.world.log q)))
unfolding handle_reset
reset_lem token password confirm_password s loading success = ground (arith, loading, success)
