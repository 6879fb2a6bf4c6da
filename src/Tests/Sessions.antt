-- ===== src/Tests/Sessions.antt =====
-- The session: its forms, its restoration and the cookie.
use remote_labs.Prelude.{
  List, Option, String, [], concat, false, is_some, none, refl, some, true, ◌&&◌, ◌↔◌, ◌∷◌, ◌≡◌,
  ◌⊎◌,
}
use remote_labs.Js.Value.{is_empty, str}
use remote_labs.Js.Text.{split, strip_prefix, to_text}
use remote_labs.Env.{path}
use remote_labs.Runtime.{
  St, World, cookie_removed, cookie_set, done, error, is_thrown, requested, thrown,
}
use remote_labs.Tests.Samples.{accepting, down, refusing, st}
use remote_labs.Routes.{app, login_page, page}
use remote_labs.Routes.Guards.{after_all-app, is_allowed, is_public}
use remote_labs.Auth.{
  authenticate, fetch_user_details, handle_successful_auth, login, nothing, on_mount,
  protected_route, read_user,
}
use remote_labs.Auth.Session.{
  AuthOp, IsConsistent, after_all, after_all-IsConsistent, logged_in, logged_out, mounted,
}
use remote_labs.Auth.Login.{login_request, login_stuck}
use remote_labs.Auth.Restore.{details_request, on_mount_ends, on_mount_lem, session_restored}
use remote_labs.Cookies.{drop_spaces, find_part, get_user_id_from_cookie}
use remote_labs.Cookies.Jar.{get_user_id_lem, in_front}

abbrev here : World → St (Unit {0})
here w = st tt w

abbrev ops : List AuthOp
ops = mounted ∷ logged_in "a@b" "secret" ∷ logged_out ∷ []

cookie_test : get_user_id_from_cookie "lang=en; userId=u1" ≡ some "u1"
unfolding get_user_id_from_cookie split drop_spaces find_part strip_prefix
cookie_test = refl

logged_in_test : (login "a@b" "secret" (here accepting)).0 ≡ done none
unfolding login authenticate handle_successful_auth fetch_user_details read_user
logged_in_test = refl

refused_test : (login "a@b" "secret" (here refusing)).0 ≡ done (some "refused")
unfolding login authenticate
refused_test = refl

stored_test : get_user_id_from_cookie "userId=u1" ≡ some "u1"
unfolding get_user_id_from_cookie split drop_spaces find_part strip_prefix
stored_test = refl

abbrev picks : List String → String → Option String
picks routes path = some path

refl_page :
    app picks (after_all (logged_out ∷ []) (here accepting)).world.auth "/login" ≡ page login_page
unfolding app
refl_page = refl

saved_test :
    get_user_id_from_cookie (concat "userId=" (to_text (str "u1"))) ≡ some (to_text (str "u1"))
unfolding to_text
saved_test = stored_test

text_test : is_empty (to_text (str "u1")) ≡ false
unfolding to_text
text_test = refl

after_all-IsConsistent_example : IsConsistent (after_all ops (here accepting))
after_all-IsConsistent_example = after_all-IsConsistent ops (here accepting) refl

after_all-app_example :
    let a = (after_all (logged_out ∷ []) (here accepting)).world.auth in
    (is_allowed a login_page ≡ true) × (is_public login_page ≡ false → is_some a.user ≡ true)
after_all-app_example =
    after_all-app picks (logged_out ∷ []) (here accepting) "/login" login_page refl refl_page

login_stuck_example :
    let a = (login "a@b" "secret" (here down)).1.world.auth in
    let lost = is_thrown (
      (here down).world.net
        (here down).world.log
        (login_request (here down).world.api_url "a@b" "secret")) in
    (a.is_loading ≡ lost) × ((protected_route a ≡ nothing) ↔ (lost ≡ true))
login_stuck_example = login_stuck "a@b" "secret" (here down)

-- A page whose cookies have a text that cannot be decoded.
abbrev unreadable : World
unreadable = record accepting {
  decode_uri = λ text. thrown (error "URI malformed");
  auth = record { is_logged_in = false; user = none; is_loading = true };
}

on_mount_ends_example :
    let lost = is_thrown (unreadable.decode_uri unreadable.jar) in
    let out = on_mount (here unreadable) in
    (is_thrown out.0 ≡ lost)
    × (out.1.world.auth.is_loading ≡ (lost && unreadable.auth.is_loading))
    × ((protected_route out.1.world.auth ≡ nothing)
        ↔ ((lost ≡ true) × (unreadable.auth.is_loading ≡ true)))
on_mount_ends_example = on_mount_ends (here unreadable)

on_mount_lem_example :
    let w = (on_mount (here accepting)).1.world in
    let seen =
      requested (details_request (here accepting).world.api_url "u1")
      ∷ (here accepting).world.log in
    ((w.auth.is_logged_in ≡ true)
      × (is_some w.auth.user ≡ true)
      × (w.log ≡ seen)
      × (w.jar ≡ (here accepting).world.jar))
    ⊎ ((w.auth.is_logged_in ≡ false)
        × (w.auth.user ≡ none)
        × (w.log ≡ cookie_removed ∷ seen)
        × (w.jar ≡ (here accepting).world.jar_remove (here accepting).world.jar))
on_mount_lem_example = on_mount_lem (here accepting) "userId=u1" "u1" refl stored_test refl

session_restored_example :
    let s' = (handle_successful_auth (str "u1") (here accepting)).1 in
    let q = requested (details_request (here accepting).world.api_url (to_text (str "u1"))) in
    (s'.world.log ≡ q ∷ cookie_set (to_text (str "u1")) ∷ (here accepting).world.log)
    × (((on_mount s').1.world.log ≡ q ∷ s'.world.log)
        ⊎ ((on_mount s').1.world.log ≡ cookie_removed ∷ q ∷ s'.world.log))
session_restored_example =
    session_restored (str "u1") (here accepting) (concat "userId=" (to_text (str "u1"))) text_test
      refl saved_test

get_user_id_lem_example :
    (get_user_id_from_cookie (in_front ([]) (concat "userId=" "u1")) ≡ some "u1")
    × (get_user_id_from_cookie
          (in_front ([]) (concat (concat "userId=" "u1") (String.◌∷◌ ";" " lang=en")))
        ≡ some "u1")
get_user_id_lem_example = get_user_id_lem ([]) "u1" " lang=en" tt ((refl, (refl, tt)))
