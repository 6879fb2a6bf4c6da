-- ===== src/Roster/Accounts.antt =====
-- The panel of all accounts: web-server/frontend/src/components/controlplane/UserManager.tsx. Its
-- state holds that of `useUsers`, and of `useUserInstances` for the selected account.
pub mod Panel
pub mod Offered
use remote_labs.Prelude.{
  Bool, List, Option, String, false, filter, if◌then◌else◌, none, some, true, ◌==◌,
}
use remote_labs.Js.Value.{is_empty, text_or}
use remote_labs.Js.Text.{includes}
use remote_labs.Runtime.{Action, Result, failed, modify, skip, succeeded, toast, zoom, ◌>>=◌, ◌>>◌}
use remote_labs.Roster.{Roster, delete_user, fetch_instances, fetch_users}
use remote_labs.Roster.Members.{SubjectUser}

pub record Accounts : Type 0 where
  pub users : Roster
  pub instances : Roster
  pub selected_user_id : Option String
  pub is_refreshing : Bool
  pub search_query : String
  pub delete_loading : Option String
  pub user_to_delete : Option String

abbrev pub in_accounts : {A : Type 0} → Action Roster A → Action Accounts A
in_accounts = zoom (λ l. l.users) (λ u l. record l { users = u })

abbrev pub in_instances : {A : Type 0} → Action Roster A → Action Accounts A
in_instances = zoom (λ l. l.instances) (λ i l. record l { instances = i })

-- `selectedUserId && refreshInstances()`
abbrev pub refresh_selected : Option String → Action Accounts (Unit {0})
refresh_selected none = skip
refresh_selected (some id) = if is_empty id then skip else in_instances (fetch_instances id)

-- The two loads of the `Promise.all` write different states and neither throws, so their
-- order is not seen: the first request is sent first.
unfoldable pub handle_refresh : Option String → Action Accounts (Unit {0})
handle_refresh selected = do
  modify (λ l. record l { is_refreshing = true })
  in_accounts fetch_users
  refresh_selected selected
  modify (λ l. record l { is_refreshing = false })

abbrev pub is_selected : Option String → String → Bool
is_selected none user_id = false
is_selected (some id) user_id = id == user_id

-- `selected` is what was last rendered.
unfoldable pub handle_user_click : Option String → String → Action Accounts (Unit {0})
handle_user_click selected user_id = modify (λ l. record l {
  selected_user_id = if is_selected selected user_id then none else some user_id;
})

abbrev pub report_account : Result → Action Accounts (Unit {0})
report_account succeeded = toast (record {
  title = "User deleted";
  description = "User has been deleted successfully.";
  variant = "";
})
report_account (failed e) = toast (record {
  title = "Error";
  description = text_or e "Failed to delete user";
  variant = "destructive";
})

unfoldable pub handle_delete_user : String → Action Accounts (Unit {0})
handle_delete_user user_id = do
  modify (λ l. record l { delete_loading = some user_id })
  result ← in_accounts (delete_user user_id)
  modify (λ l. record l { delete_loading = none; user_to_delete = none })
  report_account result

-- `lower` is `toLowerCase`.
abbrev pub filtered_users : (String → String) → String → List SubjectUser → List SubjectUser
filtered_users lower search_query users =
    filter (λ u. includes (lower u.mail) (lower search_query)) users
