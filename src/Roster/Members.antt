-- ===== src/Roster/Members.antt =====
-- The panel of a subject's users: web-server/frontend/src/components/subject/
-- SubjectUsersManager.tsx. Its state holds that of `useSubjectUsers`; what the table lists is a copy of
-- the hook's list.
pub mod Laws
pub mod Panel
pub mod Removal
use remote_labs.Prelude.{
  Bool, List, Option, String, [], concat, false, filter, if◌then◌else◌, none, not, some, true, ◌==◌,
  ◌||◌, ◌∷◌,
}
use remote_labs.Js.Value.{Value, text_or}
use remote_labs.Runtime.{
  Action, Result, User, failed, id_of, is_text, modify, succeeded, toast, zoom, ◌>>=◌, ◌>>◌,
}
use remote_labs.Roster.{Roster, add_user, remove_user}
use remote_labs.Vm.Table.{VmListItem, remove}

pub record SubjectUser : Type 0 where
  pub id : String
  pub name : String
  pub mail : String
  pub role : String

pub record Members : Type 0 where
  pub users : Roster
  pub local_users : Value
  pub show_add : Bool
  pub add_email : String
  pub add_loading : Bool
  pub add_error : Option String
  pub remove_loading : Option String
  pub remove_error : Option String

abbrev pub in_users : {A : Type 0} → Action Roster A → Action Members A
in_users = zoom (λ l. l.users) (λ u l. record l { users = u })

-- The effect on the hook's list.
abbrev pub sync_users : Action Members (Unit {0})
sync_users = modify (λ l. record l { local_users = l.users.rows })

-- `vms.some((vm) => vm.userMail === userMail)`
abbrev pub has_instances : List VmListItem → String → Bool
has_instances [] user_mail = false
has_instances (vm ∷ vms) user_mail = vm.user_mail == user_mail || has_instances vms user_mail

abbrev pub report_removal : Result → Action Members (Unit {0})
report_removal succeeded =
    toast
      (record { title = "User removed"; description = "User removed from subject."; variant = "" })
report_removal (failed e) = do
  modify (λ l. record l { remove_error = some (text_or e "Unknown error") })
  toast (record {
    title = "Error";
    description = text_or e "Failed to remove user";
    variant = "destructive";
  })

unfoldable pub handle_remove : String → String → Action Members (Unit {0})
handle_remove subject_id user_mail = do
  modify (λ l. record l { remove_loading = some user_mail; remove_error = none })
  result ← in_users (remove_user subject_id user_mail)
  modify (λ l. record l { remove_loading = none })
  report_removal result

-- `email` is the address that was last rendered.
abbrev pub report_addition : String → Result → Action Members (Unit {0})
report_addition email succeeded = do
  modify (λ l. record l { add_email = ""; show_add = false })
  toast (record {
    title = "User added";
    description = concat "User " (concat email " enrolled successfully.");
    variant = "";
  })
report_addition email (failed e) = do
  modify (λ l. record l { add_error = some (text_or e "Unknown error") })
  toast (record {
    title = "Error";
    description = text_or e "Failed to add user";
    variant = "destructive";
  })

unfoldable pub handle_add_user : String → Members → Action Members (Unit {0})
handle_add_user subject_id r = do
  modify (λ l. record l { add_loading = true; add_error = none })
  result ← in_users (add_user subject_id r.add_email)
  modify (λ l. record l { add_loading = false })
  report_addition r.add_email result

-- `u.id === currentUser?.id`
abbrev pub is_current : Option User → SubjectUser → Bool
is_current user u = is_text u.id (id_of user)

-- `localUsers.find(…)`
abbrev pub current_member : Option User → List SubjectUser → Option SubjectUser
current_member user [] = none
current_member user (u ∷ us) = if is_current user u then some u else current_member user us

-- `localUsers.filter(…)`
abbrev pub other_members : Option User → List SubjectUser → List SubjectUser
other_members user us = filter (λ u. not (is_current user u)) us
