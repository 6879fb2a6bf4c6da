-- ===== src/Roster/Members/Laws.antt =====
-- What the panel of a subject's users shows.
use remote_labs.Prelude.{
  All, Bool, List, Option, String, [], arith, eq_iff, false, if◌then◌else◌, is_some, length, none,
  not, refl, true, ◌+◌, ◌==◌, ◌||◌, ◌∷◌, ◌≡◌,
}
use remote_labs.Js.Value.{Value, arr, bool, null, num, obj, str, undefined}
use remote_labs.Js.Text.{replace}
use remote_labs.Env.{Endpoint, api_enroll_user_in_subject, api_remove_user_from_subject, get_env}
use remote_labs.Runtime.{
  Request, St, User, accepted, done, id_of, is_text, is_thrown, plain_request,
}
use remote_labs.Roster.{Roster, add_user, remove_user}
use remote_labs.Roster.Changes.{changes_lem, is_succeeded}
use remote_labs.Roster.Members.{
  Members, SubjectUser, current_member, handle_add_user, handle_remove, is_current, other_members,
}

-- The address of a user of a subject, filled in.
abbrev pub member_url_request : Endpoint → String → String → String → Option String → Request
member_url_request e method subject_id email vite =
    plain_request method
      (replace (replace (get_env vite e) "{subjectId}" subject_id) "{userEmail}" email)

add_user-verdict :
    (subject_id email : String) (s : St Roster)
    → let out = add_user subject_id email s in
      (is_thrown out.0 ≡ false)
      × (is_succeeded out.0
          ≡ accepted (
              s.world.net s.world.log (
                member_url_request api_enroll_user_in_subject "PUT" subject_id email
                  s.world.api_url)))
add_user-verdict subject_id email s = let c = (changes_lem subject_id email s).0 in (c.0, c.1)

remove_user-verdict :
    (subject_id email : String) (s : St Roster)
    → let out = remove_user subject_id email s in
      (is_thrown out.0 ≡ false)
      × (is_succeeded out.0
          ≡ accepted (
              s.world.net s.world.log (
                member_url_request api_remove_user_from_subject "DELETE" subject_id email
                  s.world.api_url)))
remove_user-verdict subject_id email s = let c = (changes_lem subject_id email s).1 in (c.0, c.1)

-- Adding a user ends normally. The form is emptied and hidden exactly if the server accepts the
-- enrolment; otherwise it stays with what was typed, and shows an error.
handle_add_user_lem :
    (subject_id : String) (s : St Members)
    → let out = handle_add_user subject_id s.local s in
      let email = s.local.add_email in
      let verdict = accepted (
        s.world.net s.world.log
          (member_url_request api_enroll_user_in_subject "PUT" subject_id email s.world.api_url)) in
      (out.0 ≡ done tt)
      × (out.1.local.add_loading ≡ false)
      × (out.1.local.add_email ≡ (if verdict then "" else email))
      × (out.1.local.show_add ≡ (if verdict then false else s.local.show_add))
      × (is_some out.1.local.add_error ≡ not verdict)
unfolding handle_add_user
handle_add_user_lem subject_id s = grind (arith, add_user-verdict)

-- Removing a user ends normally with no row marked, and shows an error exactly if the server does not
-- accept it; the form for adding one is left alone.
pub handle_remove_lem :
    (subject_id user_mail : String) (s : St Members)
    → let out = handle_remove subject_id user_mail s in
      let verdict = accepted (
        s.world.net s.world.log (
          member_url_request api_remove_user_from_subject "DELETE" subject_id user_mail
            s.world.api_url)) in
      (out.0 ≡ done tt)
      × (out.1.local.remove_loading ≡ none)
      × (is_some out.1.local.remove_error ≡ not verdict)
      × (out.1.local.add_email ≡ s.local.add_email)
unfolding handle_remove
handle_remove_lem subject_id user_mail s = grind (arith, remove_user-verdict)

-- The identifiers are different.
abbrev pub has_id : String → List SubjectUser → Bool
has_id id [] = false
has_id id (u ∷ us) = u.id == id || has_id id us

abbrev pub UniqueIds : List SubjectUser → Type 0
UniqueIds [] = Unit
UniqueIds (u ∷ us) = (has_id u.id us ≡ false) × UniqueIds us

text_apart :
    (w : Value) (a b : String) → is_text a w ≡ true → (b == a) ≡ false → is_text b w ≡ false
text_apart (str t) a b c h = ground (arith, eq_iff t a, eq_iff t b, eq_iff b a)
text_apart undefined a b c h = refl
text_apart null a b c h = refl
text_apart (bool x) a b c h = refl
text_apart (num n) a b c h = refl
text_apart (arr vs) a b c h = refl
text_apart (obj fs) a b c h = refl

-- Two rows of different identifiers are not both of the signed-in user.
apart :
    (user : Option User) (u v : SubjectUser)
    → is_current user u ≡ true
    → (v.id == u.id) ≡ false
    → is_current user v ≡ false
apart user u v c h = text_apart (id_of user) u.id v.id c h

-- No further row is of the signed-in user, whose identifier is a text.
others-all :
    (user : Option User) (u : SubjectUser) (us : List SubjectUser)
    → is_current user u ≡ true
    → has_id u.id us ≡ false
    → other_members user us ≡ us
others-all user u [] c h = refl
others-all user u (v ∷ vs) c h = ground (arith, others-all user u vs c, apart user u v c)

-- Where the identifiers are different, the panel shows each user once: the signed-in one on its own
-- if it is a member, and all others, none of which is the signed-in one.
pub members_split :
    (user : Option User) (us : List SubjectUser)
    → UniqueIds us
    → (length us
        ≡ length (other_members user us) + (if is_some (current_member user us) then 1 else 0))
      × All (λ u. is_current user u ≡ false) (other_members user us)
members_split user [] d = (refl, tt)
members_split user (u ∷ us) d = (
  ground (arith, members_split user us d.1, others-all user u us),
  ground (arith, members_split user us d.1),
)
