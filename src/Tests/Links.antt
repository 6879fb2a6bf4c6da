-- ===== src/Tests/Links.antt =====
-- The pages behind a link of a mail, and the one that asks for such a mail.
use remote_labs.Prelude.{
  [], concat, false, if◌then◌else◌, is_some, length, none, not, refl, some, true, ◌+◌, ◌∷◌, ◌≡◌,
}
use remote_labs.Js.Value.{obj, str}
use remote_labs.Env.{api_base_url, get_env}
use remote_labs.Runtime.{St, accepted, done, fields, json_request, requests}
use remote_labs.Tests.Samples.{accepting, refusing, st}
use remote_labs.Pages.{ForgotPassword, VerifyEmail, handle_forgotten, has_token, verify_email}
use remote_labs.Pages.Links.{handle_forgotten_lem, verify_email_lem}

abbrev opened_page : St VerifyEmail
opened_page =
    st (record { loading = true; error_text = none; verified = false; attempted = false }) refusing

verify_email_lem_example :
    let out = verify_email (some "t") opened_page in
    (out.0 ≡ done tt)
    × (out.1.local.loading ≡ false)
    × (is_some out.1.local.error_text ≡ not out.1.local.verified)
    × (length (requests out.1.world.log)
        ≡ length (requests opened_page.world.log) + (if has_token (some "t") then 1 else 0))
    × (verify_email none out.1 ≡ (done tt, out.1))
verify_email_lem_example = verify_email_lem (some "t") none opened_page refl refl refl

abbrev forgotten : St ForgotPassword
forgotten = st (record { is_loading = false; error_text = none; success = false }) accepting

handle_forgotten_lem_example :
    let out = handle_forgotten "a@b" forgotten in
    (out.0 ≡ done tt)
    × (out.1.local.is_loading ≡ false)
    × (is_some out.1.local.error_text ≡ not out.1.local.success)
    × (out.1.local.success
        ≡ accepted (
            forgotten.world.net forgotten.world.log (
              json_request "POST"
                (concat (get_env forgotten.world.api_url api_base_url) "/auth/forgot-password")
                (some (obj (fields (("email", str "a@b") ∷ [])))))))
handle_forgotten_lem_example = handle_forgotten_lem "a@b" forgotten refl
