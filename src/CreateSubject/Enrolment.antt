-- ===== src/CreateSubject/Enrolment.antt =====
-- Whom the creation of a subject enrols, and which failures it keeps.
use mathlib.Core.List.{Perm, Permᴰ, append-nil, append_assoc}
use mathlib.Core.List.Permᴰ
use mathlib.Core.Logic.{∥∥₁_map}
use remote_labs.Prelude.{
  Bool, Bool-cases, List, Option, String, [], ap, arith, eq_iff, false, filter, if◌then◌else◌, inl,
  inr, map, not, refl, subst, true, ℕ, ◌++◌, ◌+◌, ◌==◌, ◌∙◌, ◌∷◌, ◌≡◌,
}
use remote_labs.Js.Value.{Value, str}
use remote_labs.Runtime.{
  Event, Outcome, Reply, Request, St, accepted, done, message_or, note, requested, thrown,
}
use remote_labs.CreateSubject.{
  CreateSubject, EnrollmentError, all_professor_emails, enroll_request, enrolled, enrolled_all,
  is_mail, send_all,
}
use remote_labs.CreateSubject.Handler.{enroll_all}

-- What one answer leaves in the list of errors.
abbrev pub failure_of : Value → Outcome Reply → List EnrollmentError
failure_of email (done r) =
    if r.is_ok then [] else record { email = email; error_text = "Failed to enroll user" } ∷ []
failure_of email (thrown t) =
    record { email = email; error_text = message_or "Failed to enroll user" t } ∷ []

abbrev pub failures : List (Value × Outcome Reply) → List EnrollmentError
failures [] = []
failures ((email, answer) ∷ rest) = failure_of email answer ++ failures rest

-- The list of errors grows, and nothing else changes.
abbrev pub with_failures :
    {P : Type 0} → List EnrollmentError → St (CreateSubject P) → St (CreateSubject P)
with_failures es s = record s {
  local = record s.local { enrollment_errors = s.local.enrollment_errors ++ es };
}

enrolled_lem :
    {P : Type 0}
    → (email : Value) (answer : Outcome Reply) (s : St (CreateSubject P))
    → (b : Bool) × (enrolled email answer s ≡ (done b, with_failures (failure_of email answer) s))
unfolding enrolled
enrolled_lem email (thrown t) s = (false, refl)
enrolled_lem email (done r) s = elim (Bool-cases r.is_ok) [
  | inl accepted ↦ (true, rw accepted (rw append-nil refl))
  | inr refused ↦ (false, rw refused refl)
]

pub enrolled_all_lem :
    {P : Type 0}
    → (answers : List (Value × Outcome Reply)) (s : St (CreateSubject P))
    → enrolled_all answers s ≡ (done tt, with_failures (failures answers) s)
unfolding enrolled_all
enrolled_all_lem [] s = rw append-nil refl
enrolled_all_lem ((email, answer) ∷ rest) s =
    let (b, e) = enrolled_lem email answer s in
    rw e (
      enrolled_all_lem rest (with_failures (failure_of email answer) s)
      ∙ ap (λ es. (done tt, record s { local = record s.local { enrollment_errors = es } }))
          (append_assoc s.local.enrollment_errors (failure_of email answer) (failures rest)))

-- The answers to the requests of one `Promise.all`, each with the log before it, and the log after.
abbrev pub answers_of :
    (List Event → Request → Outcome Reply)
    → Option String
    → Value
    → List Event
    → List Value
    → List (Value × Outcome Reply)
answers_of net vite subject_id log [] = []
answers_of net vite subject_id log (email ∷ emails) =
    let q = enroll_request vite subject_id email in
    (email, net log q) ∷ answers_of net vite subject_id (requested q ∷ log) emails

abbrev pub log_after : Option String → Value → List Event → List Value → List Event
log_after vite subject_id log [] = log
log_after vite subject_id log (email ∷ emails) =
    log_after vite subject_id (requested (enroll_request vite subject_id email) ∷ log) emails

pub send_all_lem :
    {P : Type 0}
    → (subject_id : Value) (emails : List Value) (s : St (CreateSubject P))
    → send_all subject_id emails s ≡ (
      done (answers_of s.world.net s.world.api_url subject_id s.world.log emails),
      record s {
        world = record s.world { log = log_after s.world.api_url subject_id s.world.log emails };
      },
    )
unfolding send_all
send_all_lem subject_id [] s = refl
send_all_lem subject_id (email ∷ emails) s =
    let q = enroll_request s.world.api_url subject_id email in
    rw (send_all_lem subject_id emails (record s { world = note (requested q) s.world })) refl

append_swap : (xs ys zs : List EnrollmentError) → Permᴰ (xs ++ (ys ++ zs)) (ys ++ (xs ++ zs))
append_swap xs ys zs =
    rw (← append_assoc xs ys zs, ← append_assoc ys xs zs)
      (Permᴰ.append_right zs (Permᴰ.append_comm xs ys))

abbrev pair_failure : Value × Outcome Reply → List EnrollmentError
pair_failure x = failure_of x.0 x.1

failures-Permᴰ :
    {xs ys : List (Value × Outcome Reply)} → Permᴰ xs ys → Permᴰ (failures xs) (failures ys)
failures-Permᴰ Permᴰ.nil = Permᴰ.nil
failures-Permᴰ (Permᴰ.cons {a} {l₁} {l₂} e p) =
    subst (λ x. Permᴰ (pair_failure a ++ failures l₁) (pair_failure x ++ failures l₂)) e
      (Permᴰ.append_left (pair_failure a) (failures-Permᴰ p))
failures-Permᴰ (Permᴰ.swap {a} {b} {a' = c} {l} e e') =
    subst
      (λ x.
        Permᴰ (pair_failure a ++ (pair_failure b ++ failures l))
          (pair_failure c ++ (pair_failure x ++ failures l)))
      e
      (subst
        (λ x.
          Permᴰ (pair_failure a ++ (pair_failure b ++ failures l))
            (pair_failure x ++ (pair_failure a ++ failures l)))
        e' (append_swap (pair_failure a) (pair_failure b) (failures l)))
failures-Permᴰ (Permᴰ.trans p q) = Permᴰ.trans (failures-Permᴰ p) (failures-Permᴰ q)

-- The enrolment of a list of addresses sends one request for each, in the order of the list, and
-- never fails; in whatever order the answers arrive, the list of errors gains exactly the refused
-- and the unanswered ones, and nothing else of the hook changes.
pub enroll_all_lem :
    {P : Type 0}
    → (arrive : List (Value × Outcome Reply) → List (Value × Outcome Reply)) (subject_id : Value)
      (emails : List Value) (s : St (CreateSubject P))
    → ((xs : List (Value × Outcome Reply)) → Perm (arrive xs) xs)
    → let answers = answers_of s.world.net s.world.api_url subject_id s.world.log emails in
      (es : List EnrollmentError) × Perm es (failures answers)
      × (enroll_all arrive subject_id emails s ≡ (
        done tt,
        with_failures es (record s {
          world = record s.world { log = log_after s.world.api_url subject_id s.world.log emails };
        }),
      ))
unfolding enroll_all
enroll_all_lem arrive subject_id emails s any_order =
    let answers = answers_of s.world.net s.world.api_url subject_id s.world.log emails in
    (
      failures (arrive answers),
      ∥∥₁_map (any_order answers) failures-Permᴰ,
      rw (send_all_lem subject_id emails s) (enrolled_all_lem (arrive answers) _),
    )

-- How often an address is in a list.
abbrev pub times : String → List Value → ℕ
times e [] = 0
times e (v ∷ vs) = (if is_mail v e then 1 else 0) + times e vs

times_others :
    (mail e : String) (emails : List String)
    → times e (map str (filter (λ x. not (is_mail (str mail) x)) emails))
      ≡ (if mail == e then 0 else times e (map str emails))
times_others mail e [] = ground arith
times_others mail e (x ∷ emails) =
    ground (arith, eq_iff mail e, eq_iff x mail, eq_iff e x, times_others mail e emails)

-- Whom step 2 enrols: the user exactly once, whether or not the user is among the professors given,
-- and every other address as often as it was given.
all_professor_emails_lem :
    (mail e : String) (emails : List String)
    → times e (all_professor_emails (str mail) emails)
      ≡ (if mail == e then 1 else times e (map str emails))
all_professor_emails_lem mail e emails =
    ground (arith, eq_iff mail e, eq_iff e mail, times_others mail e emails)
