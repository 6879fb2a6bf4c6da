-- ===== src/Pages/Links.antt =====
-- What the pages show in the end.
use remote_labs.Prelude.{
  Option, String, [], arith, concat, false, if◌then◌else◌, is_some, length, none, not, some, suc,
  ◌+◌, ◌∷◌, ◌≡◌,
}
use remote_labs.Js.Value.{obj, str}
use remote_labs.Env.{api_base_url, get_env}
use remote_labs.Runtime.{St, accepted, done, fields, is_thrown, json_request, requests}
use remote_labs.Pages.{
  ForgotPassword, VerifyEmail, ask_to_verify, handle_forgotten, has_token, verify_email,
}

-- The `try` block fails exactly if it does not verify, and sends one request.
ask_to_verify_lem :
    (token : String) (s : St VerifyEmail)
    → s.local.verified ≡ false
    → let out = ask_to_verify token s in
      (is_thrown out.0 ≡ not out.1.local.verified)
      × (out.1.local.error_text ≡ s.local.error_text)
      × (out.1.local.attempted ≡ s.local.attempted)
      × (length (requests out.1.world.log) ≡ suc (length (requests s.world.log)))
unfolding ask_to_verify
ask_to_verify_lem token s v = ground arith

ask_to_verify-attempted :
    (token : String) (s : St VerifyEmail)
    → (ask_to_verify token s).1.local.attempted ≡ s.local.attempted
unfolding ask_to_verify
ask_to_verify-attempted token s = ground arith

verify_email-ends :
    (token : Option String) (s : St VerifyEmail)
    → s.local.attempted ≡ false
    → s.local.verified ≡ false
    → s.local.error_text ≡ none
    → let out = verify_email token s in
      (out.0 ≡ done tt)
      × (out.1.local.loading ≡ false)
      × (is_some out.1.local.error_text ≡ not out.1.local.verified)
      × (length (requests out.1.world.log)
          ≡ length (requests s.world.log) + (if has_token token then 1 else 0))
unfolding verify_email
verify_email-ends none s a v e = ground arith
verify_email-ends (some token) s a v e = grind (arith, ask_to_verify_lem)

verify_email_twice :
    (token token' : Option String) (s : St VerifyEmail)
    → let out = verify_email token s in verify_email token' out.1 ≡ (done tt, out.1)
unfolding verify_email
verify_email_twice none token' s = grind arith
verify_email_twice (some token) token' s = grind (arith, ask_to_verify-attempted)

-- The first run of the effect of `VerifyEmail`, for a page that shows neither a verified address nor
-- an error, ends normally with the page loaded and exactly one of the two; it sends one request, and
-- without a token none. A second run, with whatever token, does nothing.
pub verify_email_lem :
    (token token' : Option String) (s : St VerifyEmail)
    → s.local.attempted ≡ false
    → s.local.verified ≡ false
    → s.local.error_text ≡ none
    → let out = verify_email token s in
      (out.0 ≡ done tt)
      × (out.1.local.loading ≡ false)
      × (is_some out.1.local.error_text ≡ not out.1.local.verified)
      × (length (requests out.1.world.log)
          ≡ length (requests s.world.log) + (if has_token token then 1 else 0))
      × (verify_email token' out.1 ≡ (done tt, out.1))
verify_email_lem token token' s a v e =
    let (d, l, x, q) = verify_email-ends token s a v e in
    (d, l, x, q, verify_email_twice token token' s)

-- If no success was shown before, a request for a new password ends normally with the loading over and
-- exactly one of success and an error: success exactly if the server accepts the one mail that was
-- typed.
pub handle_forgotten_lem :
    (email : String) (s : St ForgotPassword)
    → s.local.success ≡ false
    → let out = handle_forgotten email s in
      (out.0 ≡ done tt)
      × (out.1.local.is_loading ≡ false)
      × (is_some out.1.local.error_text ≡ not out.1.local.success)
      × (out.1.local.success
          ≡ accepted (
              s.world.net s.world.log (
                json_request "POST"
                  (concat (get_env s.world.api_url api_base_url) "/auth/forgot-password")
                  (some (obj (fields (("email", str email) ∷ [])))))))
unfolding handle_forgotten
handle_forgotten_lem email s h = ground arith
