-- ===== src/Subject/Reads.antt =====
-- Reading subjects: web-server/frontend/src/hooks/useAllSubjects.ts, useSubject.ts, and the search of
-- components/controlplane/SubjectsList.tsx.
use remote_labs.Prelude.{
  Bool, List, Option, String, arith, concat, false, filter, if◌then◌else◌, is_some, none, not, some,
  true, ◌||◌, ◌≡◌,
}
use remote_labs.Js.Value.{Value, is_empty}
use remote_labs.Js.Text.{includes}
use remote_labs.Env.{api_base_url, api_get_subjects, get_env}
use remote_labs.Runtime.{
  Action, Outcome, Reply, St, User, api, done, error, fetch, finally, json_request, message_or,
  modify, settle, throw, thrown, toast, try_catch, when, ◌>>=◌, ◌>>◌,
}

pub record AllSubjects : Type 0 where
  pub subjects : Value
  pub loading : Bool
  pub error_text : Option String

-- `useAllSubjects`; the error of an earlier run is not cleared.
abbrev pub load_all : Action AllSubjects (Unit {0})
load_all =
    finally
      (try_catch
        (do
          base ← api api_base_url
          response ← fetch (json_request "GET" (concat base "/subjects") none)
          when (not response.is_ok) (throw (error "Failed to fetch subjects"))
          data' ← settle response.json
          modify (λ l. record l { subjects = data' }))
        (λ t. modify (λ l. record l { error_text = some (message_or "An error occurred" t) })))
      (modify (λ l. record l { loading = false }))

unfoldable pub fetch_all_subjects : Option User → Action AllSubjects (Unit {0})
fetch_all_subjects none =
    modify (λ l. record l { error_text = some "User not authenticated"; loading = false })
fetch_all_subjects (some user) = load_all

pub record OneSubject : Type 0 where
  pub subject : Option Value
  pub loading : Bool

-- The effect of `useSubject`.
unfoldable pub fetch_subject : String → Action OneSubject (Unit {0})
fetch_subject id =
    if is_empty id
    then modify (λ l. record l { loading = false })
    else finally
        (try_catch
          (do
            base ← api api_get_subjects
            response ← fetch (json_request "GET" (concat base (concat "/" id)) none)
            when (not response.is_ok) (throw (error "Failed to fetch subject details"))
            subject_data ← settle response.json
            modify (λ l. record l { subject = some subject_data }))
          (λ _. toast (record {
            title = "Error";
            description = "Failed to load subject details";
            variant = "destructive";
          })))
        (modify (λ l. record l { loading = false }))

-- The rows that `SubjectsList` reads the names of.
pub record SubjectRow : Type 0 where
  pub id : String
  pub name : String
  pub subject_code : String
  pub professor_name : String
  pub professor_mail : String

-- `lower` is `toLowerCase`.
abbrev pub filtered_subjects : (String → String) → String → List SubjectRow → List SubjectRow
filtered_subjects lower search_query subjects =
    filter (λ s. includes (lower s.name) (lower search_query)) subjects

-- What was read from an accepted answer, if it could be read.
abbrev pub body_read : Outcome Reply → Option Value
body_read (thrown t) = none
body_read (done r) = if r.is_ok then elim r.json [ done v ↦ some v | thrown t ↦ none ] else none

abbrev pub read_or : {A : Type 0} → A → Option A → A
read_or a none = a
read_or a (some b) = b

-- Reading all subjects ends normally and loaded, whoever reads. The list is the one in the server's
-- answer if that is readable; if not, or if nobody is signed in, it stays and an error is shown.
-- An error that was shown before is never taken back.
fetch_all_subjects_lem :
    (user : Option User) (s : St AllSubjects)
    → let out = fetch_all_subjects user s in
      let q = json_request "GET" (concat (get_env s.world.api_url api_base_url) "/subjects") none in
      let answer = if is_some user then body_read (s.world.net s.world.log q) else none in
      (out.0 ≡ done tt)
      × (out.1.local.loading ≡ false)
      × (out.1.local.subjects ≡ read_or s.local.subjects answer)
      × (is_some out.1.local.error_text ≡ (is_some s.local.error_text || not (is_some answer)))
unfolding fetch_all_subjects
fetch_all_subjects_lem none s = ground arith
fetch_all_subjects_lem (some user) s = ground arith

-- Reading one subject ends normally and loaded, with what a readable answer holds or else as before;
-- an empty identifier asks for nothing.
fetch_subject_lem :
    (id : String) (s : St OneSubject)
    → let out = fetch_subject id s in
      let q =
        json_request "GET"
          (concat (get_env s.world.api_url api_get_subjects) (concat "/" id))
          none in
      (out.0 ≡ done tt)
      × (out.1.local.loading ≡ false)
      × (is_empty id ≡ false
          → out.1.local.subject ≡ elim (body_read (s.world.net s.world.log q)) [
            | none ↦ s.local.subject
            | some v ↦ some v
          ])
      × (is_empty id ≡ true → out.1.world ≡ s.world)
unfolding fetch_subject
fetch_subject_lem id s = ground arith
