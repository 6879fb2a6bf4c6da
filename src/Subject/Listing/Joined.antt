-- ===== src/Subject/Listing/Joined.antt =====
-- What the list of subjects shows at its end.
use remote_labs.Prelude.{List, Option, [], arith, false, is_some, refl, true, ◌∷◌, ◌≡◌}
use remote_labs.Js.Value.{Value}
use remote_labs.Runtime.{Outcome, St, User, done, is_thrown}
use remote_labs.Subject.Listing.{
  Subjects, ask_professor, ask_professors, fetch_subjects, join_professors, load_subjects,
  read_subjects,
}
use remote_labs.Cookies.{stored_user_id}

ask_professor-local : (v : Value) (s : St Subjects) → (ask_professor v s).1.local ≡ s.local
ask_professor-local v s = ground arith

ask_professors-local : (vs : List Value) (s : St Subjects) → (ask_professors vs s).1.local ≡ s.local
unfolding ask_professors
ask_professors-local [] s = refl
ask_professors-local (v ∷ vs) s =
    grind (arith, ask_professors-local vs (ask_professor v s).1, ask_professor-local v s)

read_subjects-local :
    (user : Option User) (s : St Subjects) → (read_subjects user s).1.local ≡ s.local
unfolding read_subjects stored_user_id
read_subjects-local user s = ground arith

module _ (arrive : List (Outcome Value) → List (Outcome Value)) where
  join_professors-local :
      (vs : List Value) (s : St Subjects) → (join_professors arrive vs s).1.local ≡ s.local
  unfolding join_professors
  join_professors-local vs s = grind (arith, ask_professors-local)

  load_subjects_lem :
      (user : Option User) (s : St Subjects)
      → let r = load_subjects arrive user s in
        (r.1.local.error_text ≡ s.local.error_text)
        × (r.1.local.loading ≡ s.local.loading)
        × ((is_thrown r.0 ≡ true) → r.1.local.subjects ≡ s.local.subjects)
  unfolding load_subjects
  load_subjects_lem user s = grind (arith, read_subjects-local, join_professors-local)

  -- A load ends normally and with the loading over. A failure shows an error and leaves the subjects;
  -- a success leaves the error of an earlier load.
  pub fetch_subjects_lem :
      (user : Option User) (s : St Subjects)
      → let r = fetch_subjects arrive user s in
        let failed' = is_thrown (load_subjects arrive user s).0 in
        (r.0 ≡ done tt)
        × (r.1.local.loading ≡ false)
        × ((failed' ≡ true)
            → (is_some r.1.local.error_text ≡ true) × (r.1.local.subjects ≡ s.local.subjects))
        × ((failed' ≡ false) → r.1.local.error_text ≡ s.local.error_text)
  unfolding fetch_subjects
  fetch_subjects_lem user s = grind (arith, load_subjects_lem)
