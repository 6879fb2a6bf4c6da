-- ===== src/Subject/View.antt =====
-- The subjects as they are drawn: web-server/frontend/src/pages/Subjects.tsx,
-- components/SubjectCard.tsx, components/controlplane/SubjectsList.tsx, and components/subject/
-- DeleteSubjectButton.tsx and SubjectInfo.tsx, with what each press does. The rows are what the
-- components read of the values that the server sent.
pub mod Loaded
use remote_labs.Prelude.{
  Bool, List, Option, String, [], arith, concat, false, if◌then◌else◌, none, not, some, true, ◌∷◌,
  ◌≡◌, ◌⊎◌, ◌↔◌,
}
use remote_labs.Js.Value.{is_empty}
use remote_labs.Runtime.{Action, User, navigate, reload, modify}
use remote_labs.Markup.{
  Markup, Offers, OffersIn, all, attr, disabled, each, element, empty, on_change, on_click,
  shown_if, shown_text, text,
}
use remote_labs.Markup.Laws.{each-none}
use remote_labs.Chrome.{use_user_role}
use remote_labs.Subject.Reads.{SubjectRow, filtered_subjects}
use remote_labs.Subject.Removal.{
  DeleteSubjectButton, handle_cancel, handle_delete, handle_open_change,
}

pub data SubjectEvent : Type 0 where
  reload_pressed : SubjectEvent
  subject_opened searched : String → SubjectEvent

-- What a press does; the state is the search of `SubjectsList`.
abbrev pub press_subject : SubjectEvent → Action String (Unit {0})
press_subject reload_pressed = reload
press_subject (subject_opened id) = navigate (concat "/subjects/" id)
press_subject (searched v) = modify (λ _. v)

-- `SubjectCard` of the page of subjects
abbrev pub subject_card : SubjectRow → Markup SubjectEvent
subject_card s = element "Card" (on_click (subject_opened s.id) ∷ []) (
    all (
      element "CardTitle" [] (text s.name)
      ∷ element "p" [] (text (concat "Code: " s.subject_code))
      ∷ element "p" [] (
          text (
            concat "Professor: "
              (concat s.professor_name (concat " (" (concat s.professor_mail ")")))))
      ∷ []))

abbrev pub no_subjects : Markup SubjectEvent
no_subjects = element "Card" [] (
    all (
      element "CardTitle" [] (text "No Subjects Found")
      ∷ element "p" [] (
          text
            "You are not currently enrolled in any subjects. Subject professors are responsible for granting access to their students. Please contact your professor to get access to the relevant subjects.")
      ∷ []))

-- `error ? … : …`
abbrev pub unless_error :
    Option String → Markup SubjectEvent → Markup SubjectEvent → Markup SubjectEvent
unless_error none m n = n
unless_error (some e) m n = if is_empty e then n else m

-- `Subjects`
abbrev pub subjects_page :
    Option User → Bool → Option String → List SubjectRow → Markup SubjectEvent
subjects_page user loading error_text subjects = all (
    element "h1" [] (text "Subjects")
    ∷ element "Button" (on_click reload_pressed ∷ []) (text "Refresh")
    ∷ shown_if (use_user_role user) (element "CreateSubjectSheet" [] empty)
    ∷ (if loading
        then element "div" [] (text "Loading...")
        else unless_error error_text no_subjects (each subject_card subjects))
    ∷ [])

-- The card of the control plane
abbrev pub plane_card : SubjectRow → Markup SubjectEvent
plane_card s = element "Card" (on_click (subject_opened s.id) ∷ []) (
    all (
      element "CardTitle" [] (text s.name)
      ∷ element "p" [] (text (concat "Code: " s.subject_code))
      ∷ element "p" [] (text (concat "Professor: " s.professor_name))
      ∷ element "p" [] (text (concat "Email: " s.professor_mail))
      ∷ []))

abbrev pub found_subjects : List SubjectRow → Markup SubjectEvent
found_subjects [] = element "p" [] (text "No subjects found")
found_subjects (s ∷ ss) = each plane_card (s ∷ ss)

-- `SubjectsList`; `lower` is `toLowerCase`.
abbrev pub subjects_list :
    (String → String) → Bool → Option String → String → List SubjectRow → Markup SubjectEvent
subjects_list lower loading error_text search_query subjects =
    if loading
    then element "div" [] (text "Loading subjects...")
    else unless_error error_text
        (shown_text error_text (λ e. text (concat "Error loading subjects: " e)))
        (all (
          element "h2" [] (text "Subjects")
          ∷ element "Input"
              (attr "type" "search"
                ∷ attr "placeholder" "Search by subject name..."
                ∷ attr "value" search_query
                ∷ on_change searched
                ∷ [])
              empty
          ∷ found_subjects (filtered_subjects lower search_query subjects)
          ∷ []))

-- `DeleteSubjectButton`
pub data DeletionEvent : Type 0 where
  dialog_changed : Bool → DeletionEvent
  deletion_cancelled deletion_confirmed : DeletionEvent

unfoldable pub respond :
    Option (Action DeleteSubjectButton (Unit {0}))
    → String
    → DeletionEvent
    → Action DeleteSubjectButton (Unit {0})
respond on_success subject_id (dialog_changed b) = handle_open_change b
respond on_success subject_id deletion_cancelled = handle_cancel
respond on_success subject_id deletion_confirmed = handle_delete on_success subject_id

-- `failure` is the text of the hook's error, if it has one.
abbrev pub delete_subject_button : Option String → DeleteSubjectButton → Markup DeletionEvent
delete_subject_button failure l = all (
    element "Button" (on_click (dialog_changed true) ∷ disabled l.is_loading ∷ [])
      (shown_if (not l.is_loading) (text "Delete Subject"))
    ∷ shown_if l.is_dialog_open (
        element "AlertDialogContent" [] (
          if l.deletion_success
          then element "div" [] (text "Deleting subject...")
          else all (
              element "AlertDialogTitle" [] (text "Confirm Deletion")
              ∷ element "AlertDialogDescription" []
                  (text "Are you sure you want to delete this subject?")
              ∷ shown_text failure (λ e. element "div" [] (text e))
              ∷ element "Button" (on_click deletion_cancelled ∷ disabled l.is_loading ∷ [])
                  (text "Cancel")
              ∷ element "Button" (on_click deletion_confirmed ∷ disabled l.is_loading ∷ [])
                  (text (if l.is_loading then "Deleting..." else "Delete"))
              ∷ [])))
    ∷ [])

-- `SubjectInfo`
abbrev pub subject_info : Option User → SubjectRow → Markup DeletionEvent
subject_info user s = element "Card" [] (
    all (
      element "CardTitle" [] (text s.name)
      ∷ shown_if (use_user_role user)
          (element "DeleteSubjectButton" (attr "subjectId" s.id ∷ []) empty)
      ∷ element "p" [] (text (concat "Code: " s.subject_code))
      ∷ element "p" [] (
          text (
            concat "Professor: "
              (concat s.professor_name (concat " (" (concat s.professor_mail ")")))))
      ∷ []))

-- A subject of the identifier is in the list.
abbrev pub HasSubject : String → List SubjectRow → Type 0
HasSubject id [] = ⊥
HasSubject id (s ∷ ss) = (s.id ≡ id) ⊎ HasSubject id ss

cards-HasSubject :
    (card : SubjectRow → Markup SubjectEvent) (id : String) (ss : List SubjectRow)
    → ((s : SubjectRow) → OffersIn none (card s) (subject_opened id) ↔ (s.id ≡ id))
    → OffersIn none (each card ss) (subject_opened id) ↔ HasSubject id ss
cards-HasSubject card id [] k = (λ h. h, λ h. h)
cards-HasSubject card id (s ∷ ss) k = (
  λ h. ground (arith, (k s).0, (cards-HasSubject card id ss k).0),
  λ h. ground (arith, (k s).1, (cards-HasSubject card id ss k).1),
)

-- The text of an error that is shown.
abbrev pub shows_error : Option String → Bool
shows_error none = false
shows_error (some e) = not (is_empty e)

-- The page of subjects leads to a subject exactly if it is listed, nothing is loading and no error is
-- held: with an error, also one of an earlier load, the subjects that were read are not shown.
pub Offers-subject_opened :
    (user : Option User) (loading : Bool) (error_text : Option String) (id : String)
    (subjects : List SubjectRow)
    → Offers (subjects_page user loading error_text subjects) (subject_opened id)
      ↔ ((loading ≡ false) × (shows_error error_text ≡ false) × HasSubject id subjects)
Offers-subject_opened user loading error_text id subjects = (
  λ h. ground (
    arith,
    (cards-HasSubject subject_card id subjects (λ s. (λ o. ground arith, λ o. ground arith))).0,
  ),
  λ h. ground (
    arith,
    (cards-HasSubject subject_card id subjects (λ s. (λ o. ground arith, λ o. ground arith))).1,
  ),
)

-- A deletion can be confirmed exactly while the dialogue is open, nothing is loading and no deletion
-- has succeeded: no second request follows an accepted one.
Offers-deletion_confirmed :
    (failure : Option String) (l : DeleteSubjectButton)
    → Offers (delete_subject_button failure l) deletion_confirmed
      ↔ ((l.is_dialog_open ≡ true) × (l.is_loading ≡ false) × (l.deletion_success ≡ false))
Offers-deletion_confirmed failure l = (λ h. ground arith, λ h. ground arith)
