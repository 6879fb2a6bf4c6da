-- ===== src/Subject/Listing/Answer.antt =====
-- The list of subjects that useSubjects.ts reads from an accepted answer.
use remote_labs.Prelude.{
  Bool-cases, List, Option, arith, not, sym, inl, inr, refl, subst, true, ◌≡◌,
}
use remote_labs.Js.Value.{Value, list_of, arr, Items, truthy}
use remote_labs.Runtime.{
  Outcome, Reply, St, User, and_then-done, as_list, done, done_inj, error, note, requested, throw,
  when, ◌>>◌, and_then, settle, thrown, ◌>>=◌,
}
use remote_labs.Cookies.{stored_user_id}
use remote_labs.Subject.Listing.{
  Subjects, read_subjects_of, read_subjects, subjects_request, user_id_of,
}

body_lem :
    (json : Outcome Value) (subjects : List Value) (s : St Subjects)
    → (and_then json (as_list "map") s).0 ≡ done subjects
    → (items : Items) × ((json ≡ done (arr items)) × (subjects ≡ list_of items))
body_lem (thrown t) subjects s h = absurd (cc h)
body_lem (done (arr vs)) subjects s h = (vs, (refl, sym (done_inj (list_of vs) subjects h)))
body_lem (done v) subjects s h = absurd (cc h)

-- The list is that of an accepted answer about the user.
abbrev pub IsRead : Outcome Reply → List Value → Type 0
IsRead answer subjects =
    (reply : Reply) × ((items : Items) × ((answer ≡ done reply)
        × (reply.is_ok ≡ true)
        × (reply.json ≡ done (arr items))
        × (subjects ≡ list_of items)))

answer_lem :
    (answer : Outcome Reply) (subjects : List Value) (s : St Subjects)
    → (and_then answer
        (λ response.
          when (not response.is_ok) (throw (error "Network response was not ok"))
          >> (settle response.json >>= λ subjects_data. as_list "map" subjects_data))
        s).0
      ≡ done subjects
    → IsRead answer subjects
answer_lem (thrown t) subjects s h = absurd (cc h)
answer_lem (done r) subjects s h = elim (Bool-cases r.is_ok) [
  | inl e ↦
      let (items, (j, same)) = body_lem r.json subjects s (ground (arith, e, h)) in
      (r, (items, (refl, e, j, same)))
  | inr e ↦ absurd (ground (arith, e, h))
]

read_subjects_of_lem :
    (user_id : Value) (subjects : List Value) (s : St Subjects)
    → (read_subjects_of user_id s).0 ≡ done subjects
    → IsRead (s.world.net s.world.log (subjects_request s.world.api_url user_id)) subjects
read_subjects_of_lem user_id subjects s h = elim (Bool-cases (truthy user_id)) [
  | inl e ↦
      let q = subjects_request s.world.api_url user_id in
      answer_lem (s.world.net s.world.log q) subjects
        (record s { world = note (requested q) s.world }) (ground (arith, e, h))
  | inr e ↦ absurd (ground (arith, e, h))
]

user_id_of-state : (user : Option User) (s : St Subjects) → (user_id_of user s).1 ≡ s
unfolding stored_user_id
user_id_of-state user s = ground arith

pub read_subjects-net :
    (user : Option User) (s : St Subjects)
    → ((read_subjects user s).1.world.net ≡ s.world.net)
      × ((read_subjects user s).1.world.api_url ≡ s.world.api_url)
unfolding read_subjects stored_user_id
read_subjects-net user s = ground arith

pub read_subjects_lem :
    (user : Option User) (subjects : List Value) (s : St Subjects)
    → (read_subjects user s).0 ≡ done subjects
    → (user_id : Value) × (((user_id_of user s).0 ≡ done user_id)
        × IsRead (s.world.net s.world.log (subjects_request s.world.api_url user_id)) subjects)
unfolding read_subjects
read_subjects_lem user subjects s h =
    let (user_id, e, rest) =
      and_then-done (user_id_of user s).0 (λ user_id. read_subjects_of user_id)
        (user_id_of user s).1 h in
    let rest' =
      subst (λ s'. (read_subjects_of user_id s').0 ≡ done subjects) (user_id_of-state user s)
        rest in
    (user_id, (e, read_subjects_of_lem user_id subjects s rest'))
