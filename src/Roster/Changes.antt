-- ===== src/Roster/Changes.antt =====
-- A change of a list succeeds when the server accepts it, and the list is then read again.
use remote_labs.Prelude.{Bool, Option, String, arith, concat, false, if◌then◌else◌, true, ◌∷◌, ◌≡◌}
use remote_labs.Js.Text.{replace}
use remote_labs.Env.{
  Endpoint, api_base_url, api_enroll_user_in_subject, api_remove_user_from_subject, get_env,
}
use remote_labs.Runtime.{
  Outcome, Request, Result, St, accepted, done, is_thrown, plain_request, requested, succeeded,
}
use remote_labs.Roster.{
  Roster, add_user, change, delete_user, fetch_subject_users, fetch_users, remove_user,
}

abbrev pub is_succeeded : Outcome Result → Bool
is_succeeded (done succeeded) = true
is_succeeded _ = false

-- What `q` has changed: it ends normally, with success exactly if the server accepted `q`; then the
-- list is asked for again by `reload`, and otherwise the hook's state is as it was.
abbrev pub Changes : Request → Request → (Outcome Result × St Roster) → St Roster → Type 0
Changes q reload r s =
    let verdict = accepted (s.world.net s.world.log q) in
    (is_thrown r.0 ≡ false)
    × (is_succeeded r.0 ≡ verdict)
    × (r.1.world.log ≡ (
        if verdict
        then requested reload ∷ requested q ∷ s.world.log
        else requested q ∷ s.world.log))
    × ((verdict ≡ false) → r.1.local ≡ s.local)

abbrev pub users_request : Option String → String → Request
users_request vite subject_id =
    plain_request "GET"
      (concat (get_env vite api_base_url) (concat "/subjects/" (concat subject_id "/users")))

fetch_subject_users-done :
    (id : String) (s : St Roster)
    → ((fetch_subject_users id s).0 ≡ done tt)
      × ((fetch_subject_users id s).1.world.log
          ≡ requested (users_request s.world.api_url id) ∷ s.world.log)
unfolding fetch_subject_users
fetch_subject_users-done id s = ground arith

pub fetch_users-done :
    (s : St Roster)
    → ((fetch_users s).0 ≡ done tt)
      × ((fetch_users s).1.world.log
          ≡ requested (plain_request "GET" (concat (get_env s.world.api_url api_base_url) "/users"))
            ∷ s.world.log)
unfolding fetch_users
fetch_users-done s = ground arith

-- Enrolling a user in a subject, removing one from it and deleting an account each succeed exactly
-- if the server accepts the request; the list is then read again, and otherwise nothing is changed.
pub changes_lem :
    (subject_id user : String) (s : St Roster)
    → let url = λ (e : Endpoint).
      replace (replace (get_env s.world.api_url e) "{subjectId}" subject_id) "{userEmail}" user in
      let base = get_env s.world.api_url api_base_url in
      Changes
        (plain_request "PUT" (url api_enroll_user_in_subject))
        (users_request s.world.api_url subject_id)
        (add_user subject_id user s)
        s
      × Changes
          (plain_request "DELETE" (url api_remove_user_from_subject))
          (users_request s.world.api_url subject_id)
          (remove_user subject_id user s)
          s
      × Changes
          (plain_request "DELETE" (concat base (concat "/users/delete/" user)))
          (plain_request "GET" (concat base "/users"))
          (delete_user user s)
          s
unfolding add_user remove_user delete_user change
changes_lem subject_id user s = (
  grind (arith, fetch_subject_users-done),
  grind (arith, fetch_subject_users-done),
  grind (arith, fetch_users-done),
)
