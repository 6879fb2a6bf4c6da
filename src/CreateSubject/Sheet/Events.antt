-- ===== src/CreateSubject/Sheet/Events.antt =====
-- The sheet over every sequence of its events.
use remote_labs.Prelude.{List, Option, String, [], ◌∷◌}
use remote_labs.Js.Value.{Value}
use remote_labs.Runtime.{Outcome, Reply, St, User}
use remote_labs.CreateSubject.Sheet.{
  Sheet, SheetInput, entered, handle_add_email, handle_remove_email, handle_subject_code_change,
  handle_submit, set_form,
}
use remote_labs.CreateSubject.Sheet.Entries.{
  IsSound, entered-IsSound, handle_add_email-IsSound, handle_remove_email-IsSound,
  handle_subject_code_change-IsSound, handle_submit-IsSound,
}

-- An event of the sheet; each handler runs on the form that is shown then.
pub data SheetEvent : Type 0 where
  typed : SheetInput → SheetEvent
  code_typed email_removed : String → SheetEvent
  email_added : SheetEvent
  submitted : Option User → SheetEvent

module _ (arrive : List (Value × Outcome Reply) → List (Value × Outcome Reply)) where
  abbrev pub react : SheetEvent → St Sheet → St Sheet
  react (typed i) s = (set_form (entered i) s).1
  react (code_typed v) s = (handle_subject_code_change v s).1
  react (email_removed e) s = (handle_remove_email s.local.parent e s).1
  react email_added s = (handle_add_email s.local.parent s).1
  react (submitted user) s = (handle_submit arrive user s.local.parent s).1

  abbrev pub react_all : List SheetEvent → St Sheet → St Sheet
  react_all [] s = s
  react_all (e ∷ es) s = react_all es (react e s)

  react-IsSound :
      (e : SheetEvent) (s : St Sheet) → IsSound s.local.parent → IsSound (react e s).local.parent
  react-IsSound (typed i) s h = entered-IsSound i s.local.parent h
  react-IsSound (code_typed v) s h = handle_subject_code_change-IsSound v s h
  react-IsSound (email_removed e) s h = handle_remove_email-IsSound e s h
  react-IsSound email_added s h = handle_add_email-IsSound s h
  react-IsSound (submitted user) s h = (handle_submit-IsSound arrive user s.local.parent).at s h

  -- If the professors of the form are distinct addresses of the university and the code is digits,
  -- this is so after any sequence of inputs and submissions, whatever the server answers.
  pub react_all-IsSound :
      (es : List SheetEvent) (s : St Sheet)
      → IsSound s.local.parent
      → IsSound (react_all es s).local.parent
  react_all-IsSound [] s h = h
  react_all-IsSound (e ∷ es) s h = react_all-IsSound es (react e s) (react-IsSound e s h)
