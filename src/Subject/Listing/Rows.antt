-- ===== src/Subject/Listing/Rows.antt =====
-- The rows that useSubjects.ts makes of the subjects it reads.
use mathlib.Core.List.{Perm}
use remote_labs.Prelude.{
  Bool-cases, List, Option, Option-cases, String, [], ap, arith, false, inl, inr, map, refl, some,
  subst, true, ◌∙◌, ◌∷◌, ◌≡◌, ◌⊎◌,
}
use remote_labs.Js.Value.{Value, obj, prop, prop?, put_field}
use remote_labs.Runtime.{
  Event, Outcome, Reply, Request, St, User, and_then-done, done, done_inj, gets, modify, pure,
  settle, spread, thrown, ◌>>=◌,
}
use remote_labs.Subject.Listing.{
  Subjects, ask_professor, ask_professors, join_professors, joined, load_subjects,
  professor_request, promise_all, read_subjects, subjects_request, user_id_of, with_professor,
}
use remote_labs.Subject.Listing.Answer.{IsRead, read_subjects-net, read_subjects_lem}
use remote_labs.Subject.Listing.Settled.{promise_all_lem}

-- The subject with the professor's name and mail.
abbrev pub IsJoined : Value → Value → Value → Type 0
IsJoined subject professor row =
    (name : Value) × ((prop "name" professor ≡ some name)
      × (row
          ≡ obj (
              put_field "professorMail" (prop? "mail" professor)
                (put_field "professorName" name (spread subject)))))

-- What the answer about the professor makes of a subject.
abbrev pub IsAnswered : Reply → Value → Value → Type 0
IsAnswered reply subject row =
    ((reply.is_ok ≡ false) × (row ≡ subject))
    ⊎ ((reply.is_ok ≡ true)
        × ((professor : Value) × ((reply.json ≡ done professor) × IsJoined subject professor row)))

module _ (net : List Event → Request → Outcome Reply) (vite : Option String) where
  -- The row is the subject, with its professor if the server gives the account.
  abbrev pub IsRow : Value → Value → Type 0
  IsRow subject row =
      (mail : Value) × ((prop "professorMail" subject ≡ some mail)
        × ((log : List Event) × ((reply : Reply) × ((net log (professor_request vite mail)
                  ≡ done reply)
                × IsAnswered reply subject row))))

  -- The rows are those of the subjects, in order.
  abbrev pub AreRows : List Value → List Value → Type 0
  AreRows [] [] = Unit
  AreRows [] (r ∷ rs) = ⊥
  AreRows (v ∷ vs) [] = ⊥
  AreRows (v ∷ vs) (r ∷ rs) = IsRow v r × AreRows vs rs

with_professor_lem :
    (type_error : String → String) (subject professor row : Value)
    → with_professor type_error subject professor ≡ done row
    → IsJoined subject professor row
with_professor_lem type_error subject professor row h =
    elim (Option-cases (prop "name" professor)) [
      | inl e ↦ absurd (ground (arith, e, h))
      | inr (name, e) ↦ (name, (e, ground (arith, e, h)))
    ]

read_lem :
    (type_error : String → String) (subject row : Value) (json : Outcome Value)
    → elim json [ thrown t ↦ thrown t | done v ↦ with_professor type_error subject v ] ≡ done row
    → (professor : Value) × ((json ≡ done professor) × IsJoined subject professor row)
read_lem type_error subject row (thrown t) h = absurd (cc h)
read_lem type_error subject row (done v) h =
    (v, (refl, with_professor_lem type_error subject v row h))

joined_lem :
    (type_error : String → String) (subject row : Value) (answer : Outcome Reply)
    → joined type_error (subject, answer) ≡ done row
    → (reply : Reply) × ((answer ≡ done reply) × IsAnswered reply subject row)
joined_lem type_error subject row (thrown t) h = absurd (cc h)
joined_lem type_error subject row (done r) h = elim (Bool-cases r.is_ok) [
  | inl e ↦ (r, (refl, inr (e, read_lem type_error subject row r.json (ground (arith, e, h)))))
  | inr e ↦ (r, (refl, inl (e, ground (arith, e, h))))
]

ask_professor-IsRow :
    (type_error : String → String) (subject row : Value) (s : St Subjects)
    (a : Value × Outcome Reply)
    → (ask_professor subject s).0 ≡ done a
    → joined type_error a ≡ done row
    → IsRow s.world.net s.world.api_url subject row
ask_professor-IsRow type_error subject row s a h j =
    elim (Option-cases (prop "professorMail" subject)) [
      | inl e ↦ absurd (ground (arith, e, h, j))
      | inr (mail, e) ↦
          let (reply, (f, m)) =
            joined_lem type_error subject row
              (s.world.net s.world.log (professor_request s.world.api_url mail))
              (ground (arith, e, h, j)) in
          (mail, (e, (s.world.log, (reply, (f, m)))))
    ]

ask_professor-net :
    (subject : Value) (s : St Subjects)
    → ((ask_professor subject s).1.world.net ≡ s.world.net)
      × ((ask_professor subject s).1.world.api_url ≡ s.world.api_url)
ask_professor-net subject s = ground arith

split_rows :
    (x : Outcome Value) (xs : List (Outcome Value)) (rows : List Value)
    → x ∷ xs ≡ map done rows
    → (r : Value) × ((rs : List Value) × ((rows ≡ r ∷ rs) × (x ≡ done r) × (xs ≡ map done rs)))
split_rows x xs [] h = absurd (cc h)
split_rows x xs (r ∷ rs) h = (r, (rs, (refl, cc h, cc h)))

ask_professors-AreRows :
    (type_error : String → String) (subjects rows : List Value) (s : St Subjects)
    (answers : List (Value × Outcome Reply))
    → (ask_professors subjects s).0 ≡ done answers
    → map (joined type_error) answers ≡ map done rows
    → AreRows s.world.net s.world.api_url subjects rows
unfolding ask_professors
ask_professors-AreRows type_error [] [] s answers h j = tt
ask_professors-AreRows type_error [] (r ∷ rs) s answers h j =
    absurd (ground (arith, done_inj [] answers h, j))
ask_professors-AreRows type_error (v ∷ vs) rows s answers h j =
    let s' = (ask_professor v s).1 in
    let (a, e, rest) =
      and_then-done (ask_professor v s).0 (λ a. ask_professors vs >>= λ as'. pure (a ∷ as')) s' h in
    let (as', e', last) =
      and_then-done (ask_professors vs s').0 (λ as'. pure (a ∷ as')) (ask_professors vs s').1
        rest in
    let (r, (rs, (same, first, others))) =
      split_rows (joined type_error a) (map (joined type_error) as') rows
        (ap (map (joined type_error)) (done_inj (a ∷ as') answers last) ∙ j) in
    let there = ask_professors-AreRows type_error vs rs s' as' e' others in
    rw same (
      ask_professor-IsRow type_error v r s a e first,
      subst (λ n. AreRows n s.world.api_url vs rs) (ask_professor-net v s).0
          (subst (λ u. AreRows s'.world.net u vs rs) (ask_professor-net v s).1 there),
    )

-- The subjects of an accepted answer about the user, and the rows that are made of them.
abbrev pub IsList : Option User → St Subjects → List Value → Type 0
IsList user s rows =
    (user_id : Value) × ((subjects : List Value) × (((user_id_of user s).0 ≡ done user_id)
        × IsRead (s.world.net s.world.log (subjects_request s.world.api_url user_id)) subjects
        × AreRows s.world.net s.world.api_url subjects rows))

module _ (arrive : List (Outcome Value) → List (Outcome Value))
    (any_order : (zs : List (Outcome Value)) → Perm (arrive zs) zs) where
  -- What `Promise.all` gives are the rows of the subjects.
  pub join_professors-AreRows :
      (subjects rows : List Value) (s : St Subjects)
      → (join_professors arrive subjects s).0 ≡ done rows
      → AreRows s.world.net s.world.api_url subjects rows
  unfolding join_professors
  join_professors-AreRows subjects rows s h =
      let (answers, e, rest) =
        and_then-done (ask_professors subjects s).0
          (λ answers. gets (λ s. s.world.type_error) >>= λ type_error.
            settle (promise_all arrive (map (joined type_error) answers)))
          (ask_professors subjects s).1 h in
      ask_professors-AreRows (ask_professors subjects s).1.world.type_error subjects rows s answers
        e
        ((promise_all_lem arrive
            (map (joined (ask_professors subjects s).1.world.type_error) answers) rows any_order).0
          rest)

  -- A load that succeeds holds the rows.
  pub load_subjects-IsList :
      (user : Option User) (s : St Subjects)
      → (load_subjects arrive user s).0 ≡ done tt
      → IsList user s (load_subjects arrive user s).1.local.subjects
  unfolding load_subjects
  load_subjects-IsList user s h =
      let s' = (read_subjects user s).1 in
      let (subjects, e, rest) =
        and_then-done (read_subjects user s).0
          (λ subjects.
            join_professors arrive subjects >>= λ rows. modify (λ l. record l { subjects = rows }))
          s' h in
      let (rows, e', last) =
        and_then-done (join_professors arrive subjects s').0
          (λ rows. modify (λ l. record l { subjects = rows }))
          (join_professors arrive subjects s').1 rest in
      let (user_id, (k, m)) = read_subjects_lem user subjects s e in
      let made = join_professors-AreRows subjects rows s' e' in
      let made' =
        subst (λ n. AreRows n s.world.api_url subjects rows) (read_subjects-net user s).0
          (subst (λ u. AreRows s'.world.net u subjects rows) (read_subjects-net user s).1 made) in
      rw (e, e') (user_id, (subjects, (k, m, made')))
