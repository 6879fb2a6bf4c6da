-- ===== src/CreateSubject/Sheet/Entries.antt =====
-- What the sheet's fields can hold, over every sequence of events.
use remote_labs.Prelude.{
  All, All-filter, Bool, List, Option, String, [], arith, eq_iff, every, false, filter, refl, true,
  subst, ◌++◌, ◌==◌, ◌||◌, ◌∷◌, ◌≡◌,
}
use remote_labs.Js.Value.{Value}
use remote_labs.Js.Text.{units}
use remote_labs.Runtime.{Keeps, Outcome, Reply, St, User}
use remote_labs.CreateSubject.{CreateSubjectParams}
use remote_labs.CreateSubject.Sheet.Submitted.{handle_submit-Keeps}
use remote_labs.CreateSubject.Sheet.{
  Sheet, SheetForm, SheetInput, cleared, entered, handle_add_email, handle_remove_email,
  handle_subject_code_change, handle_submit, includes_text, is_digit, is_professor_mail, params_of,
}

abbrev pub Distinct : List String → Type 0
Distinct [] = Unit
Distinct (x ∷ xs) = (includes_text x xs ≡ false) × Distinct xs

-- The professors' addresses are addresses of the university, each once, and the code is digits.
pub record IsSound (f : SheetForm) : Type 0 where
  pub mails : All (λ e. is_professor_mail e ≡ true) f.professor_emails
  pub distinct : Distinct f.professor_emails
  pub digits : every is_digit (units f.subject_code) ≡ true

includes_text-append :
    (e a : String) (xs : List String)
    → includes_text e (xs ++ a ∷ []) ≡ (includes_text e xs || a == e)
includes_text-append e a [] = ground arith
includes_text-append e a (x ∷ xs) = ground (arith, includes_text-append e a xs)

Distinct-append :
    (a : String) (xs : List String)
    → Distinct xs
    → includes_text a xs ≡ false
    → Distinct (xs ++ a ∷ [])
Distinct-append a [] d h = ground arith
Distinct-append a (x ∷ xs) d h =
    ground (arith, includes_text-append x a xs, Distinct-append a xs d.1, eq_iff x a, eq_iff a x)

includes_text-filter :
    (p : String → Bool) (e : String) (xs : List String)
    → includes_text e xs ≡ false
    → includes_text e (filter p xs) ≡ false
includes_text-filter p e [] h = refl
includes_text-filter p e (x ∷ xs) h = ground (arith, includes_text-filter p e xs)

Distinct-filter : (p : String → Bool) (xs : List String) → Distinct xs → Distinct (filter p xs)
Distinct-filter p [] d = tt
Distinct-filter p (x ∷ xs) d = ground (arith, Distinct-filter p xs d.1, includes_text-filter p x xs)

All-append :
    (a : String) (xs : List String)
    → All (λ e. is_professor_mail e ≡ true) xs
    → is_professor_mail a ≡ true
    → All (λ e. is_professor_mail e ≡ true) (xs ++ a ∷ [])
All-append a [] h k = (k, tt)
All-append a (x ∷ xs) h k = (h.0, All-append a xs h.1 k)

pub handle_add_email-IsSound :
    (s : St Sheet)
    → IsSound s.local.parent
    → IsSound (handle_add_email s.local.parent s).1.local.parent
unfolding handle_add_email
handle_add_email-IsSound s h = ground (
  arith,
  All-append s.local.parent.email_input s.local.parent.professor_emails,
  Distinct-append s.local.parent.email_input s.local.parent.professor_emails,
)

pub handle_remove_email-IsSound :
    (e : String) (s : St Sheet)
    → IsSound s.local.parent
    → IsSound (handle_remove_email s.local.parent e s).1.local.parent
unfolding handle_remove_email
handle_remove_email-IsSound e s h = record {
  mails = All-filter _ _ s.local.parent.professor_emails h.mails;
  distinct = Distinct-filter _ s.local.parent.professor_emails h.distinct;
  digits = h.digits;
}

pub handle_subject_code_change-IsSound :
    (value : String) (s : St Sheet)
    → IsSound s.local.parent
    → IsSound (handle_subject_code_change value s).1.local.parent
unfolding handle_subject_code_change
handle_subject_code_change-IsSound value s h = ground (arith, h)

pub entered-IsSound : (i : SheetInput) (f : SheetForm) → IsSound f → IsSound (entered i f)
entered-IsSound i f h = ground (arith, h)

-- The submission: the hook changes the form only through the callback, which clears it.
cleared-IsSound : (f : SheetForm) → IsSound (cleared f)
cleared-IsSound f = record { mails = tt; distinct = tt; digits = refl }

-- Only fields that are submitted count.
IsSound-params : (f g : SheetForm) → params_of f ≡ params_of g → IsSound f → IsSound g
IsSound-params f g e h = record {
  mails =
      subst (λ (p : CreateSubjectParams). All (λ e. is_professor_mail e ≡ true) p.professor_emails)
        e h.mails;
  distinct = subst (λ (p : CreateSubjectParams). Distinct p.professor_emails) e h.distinct;
  digits =
      subst (λ (p : CreateSubjectParams). every is_digit (units p.subject_code) ≡ true) e h.digits;
}

pub handle_submit-IsSound :
    (arrive : List (Value × Outcome Reply) → List (Value × Outcome Reply)) (user : Option User)
    (r : SheetForm)
    → Keeps (λ l. IsSound l.parent) (handle_submit arrive user r)
handle_submit-IsSound = handle_submit-Keeps IsSound IsSound-params cleared-IsSound
