-- ===== src/Subject/Listing.antt =====
-- The subjects of a user with their professors: web-server/frontend/src/hooks/useSubjects.ts.
pub mod Joined
pub mod Answer
pub mod Rows
pub mod Settled
use remote_labs.Prelude.{
  Bool, List, Option, String, [], concat, false, if◌then◌else◌, map, none, not, some, ◌∷◌,
}
use remote_labs.Js.Value.{Value, null, obj, prop, prop?, put_field, str, truthy}
use remote_labs.Js.Text.{to_text}
use remote_labs.Env.{api_base_url, get_env}
use remote_labs.Runtime.{
  Action, Outcome, Reply, Request, Thrown, User, api, as_list, done, error, fetch, finally, gets,
  id_of, json_request, message_or, modify, pure, send, settle, spread, throw, thrown, try_catch,
  when, ◌>>=◌, ◌>>◌,
}
use remote_labs.Cookies.{stored_user_id}

pub record Subjects : Type 0 where
  pub subjects : List Value
  pub loading : Bool
  pub error_text : Option String

-- `getUserIdFromCookie()` as a value
abbrev pub id_or_null : Option String → Value
id_or_null none = null
id_or_null (some id) = str id

-- `user?.id || getUserIdFromCookie()`
abbrev pub user_id_of : Option User → Action Subjects Value
user_id_of user =
    if truthy (id_of user)
    then pure (id_of user)
    else do stored ← stored_user_id; pure (id_or_null stored)

abbrev pub professor_request : Option String → Value → Request
professor_request vite mail =
    json_request "GET" (concat (get_env vite api_base_url) (concat "/users/" (to_text mail))) none

-- The part of each `async` function up to its `await`: a subject whose mail cannot be read rejects
-- without a request.
abbrev pub ask_professor : Value → Action Subjects (Value × Outcome Reply)
ask_professor subject s = elim (prop "professorMail" subject) [
  | none ↦ (done (subject, thrown (error (s.world.type_error "professorMail"))), s)
  | some mail ↦
      (send (professor_request s.world.api_url mail) >>= λ answer. pure (subject, answer)) s
]

unfoldable pub ask_professors : List Value → Action Subjects (List (Value × Outcome Reply))
ask_professors [] = pure []
ask_professors (subject ∷ subjects) = do
  answer ← ask_professor subject
  answers ← ask_professors subjects
  pure (answer ∷ answers)

-- The subject with the name and the mail of its professor's account.
abbrev pub with_professor : (String → String) → Value → Value → Outcome Value
with_professor type_error subject professor = elim (prop "name" professor) [
  | none ↦ thrown (error (type_error "name"))
  | some name ↦ done (
      obj (
        put_field "professorMail" (prop? "mail" professor)
          (put_field "professorName" name (spread subject))))
]

-- The rest of the `async` function, on its answer.
abbrev pub joined : (String → String) → Value × Outcome Reply → Outcome Value
joined type_error (subject, thrown t) = thrown t
joined type_error (subject, done r) =
    if r.is_ok
    then elim r.json [ thrown t ↦ thrown t | done v ↦ with_professor type_error subject v ]
    else done subject

abbrev pub first_thrown : List (Outcome Value) → Option Thrown
first_thrown [] = none
first_thrown (done v ∷ xs) = first_thrown xs
first_thrown (thrown t ∷ xs) = some t

abbrev pub values : List (Outcome Value) → List Value
values [] = []
values (done v ∷ xs) = v ∷ values xs
values (thrown t ∷ xs) = values xs

abbrev pub subjects_request : Option String → Value → Request
subjects_request vite user_id =
    json_request "GET"
      (concat (get_env vite api_base_url) (concat "/users/" (concat (to_text user_id) "/subjects")))
      none

-- The list of the user's subjects, up to its `map`.
abbrev pub read_subjects_of : Value → Action Subjects (List Value)
read_subjects_of user_id = do
  when (not (truthy user_id)) (throw (error "User ID not found"))
  vite ← gets (λ s. s.world.api_url)
  response ← fetch (subjects_request vite user_id)
  when (not response.is_ok) (throw (error "Network response was not ok"))
  subjects_data ← settle response.json
  as_list "map" subjects_data

unfoldable pub read_subjects : Option User → Action Subjects (List Value)
read_subjects user = do user_id ← user_id_of user; read_subjects_of user_id

-- `arrive` is the order in which the functions of a `Promise.all` end; the first to reject decides.
module _ (arrive : List (Outcome Value) → List (Outcome Value)) where
  unfoldable pub promise_all : List (Outcome Value) → Outcome (List Value)
  promise_all xs = elim (first_thrown (arrive xs)) [ some t ↦ thrown t | none ↦ done (values xs) ]

  -- The professors' accounts, asked for and joined to the subjects.
  unfoldable pub join_professors : List Value → Action Subjects (List Value)
  join_professors subjects = do
    answers ← ask_professors subjects
    type_error ← gets (λ s. s.world.type_error)
    settle (promise_all (map (joined type_error) answers))

  -- The `try` block of `fetchSubjects`.
  unfoldable pub load_subjects : Option User → Action Subjects (Unit {0})
  load_subjects user = do
    subjects ← read_subjects user
    rows ← join_professors subjects
    modify (λ l. record l { subjects = rows })

  unfoldable pub fetch_subjects : Option User → Action Subjects (Unit {0})
  fetch_subjects user =
      finally
        (try_catch (load_subjects user) (λ t.
          modify (λ l. record l { error_text = some (message_or "An unknown error occurred" t) })))
        (modify (λ l. record l { loading = false }))
