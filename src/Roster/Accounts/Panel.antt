-- ===== src/Roster/Accounts/Panel.antt =====
-- What the panel of all accounts returns: the markup of web-server/frontend/src/components/
-- controlplane/UserManager.tsx. The buttons of a machine are those of Vm/Buttons; what they set off
-- here is the callback that they are given.
pub mod Machines
use remote_labs.Prelude.{
  Bool, List, Option, String, [], concat, false, if◌then◌else◌, length, nat_eq, none, not, some,
  true, ℕ, zero, ◌&&◌, ◌==◌, ◌||◌, ◌∷◌, filter,
}
use remote_labs.Js.Value.{arr, is_empty, nil, num}
use remote_labs.Js.Text.{to_text}
use remote_labs.Runtime.{Action, User, gets, modify, skip, ◌>>=◌, ◌>>◌}
use remote_labs.Markup.{
  Markup, all, attr, disabled, each, element, empty, on_change, on_click, shown_if, text,
}
use remote_labs.Vm.Table.{is_professor_or_admin}
use remote_labs.Roster.Members.{SubjectUser, is_current}
use remote_labs.Roster.Accounts.{
  Accounts, filtered_users, handle_delete_user, handle_refresh, handle_user_click, is_selected,
  refresh_selected,
}
use remote_labs.Roster.Accounts.Panel.Machines.{
  is_given, no_rows, status_color, status_display, is_in, can_start_instance, size_or,
  machine_button, instance_row, instances_table, failure_or, instances_part, UserInstance, Notation,
  AccountsEvent, refresh, cancel_delete, called_back, set_search_query, click_user, ask_delete,
  confirm_delete,
}

-- The effect of `useUserInstances` on a change of the selected account.
abbrev pub sync_instances : Option String → Action Accounts (Unit {0})
sync_instances selected =
    if is_given selected
    then refresh_selected selected
    else modify
        (λ l. record l { instances = record l.instances { rows = arr nil; loading = false } })

-- `userToDelete && handleDeleteUser(userToDelete)`
abbrev pub delete_asked : String → Action Accounts (Unit {0})
delete_asked id = if is_empty id then skip else handle_delete_user id

-- The handlers; `r` is the state that was last rendered.
unfoldable pub respond : AccountsEvent → Accounts → Action Accounts (Unit {0})
respond refresh r = handle_refresh r.selected_user_id
respond cancel_delete r = modify (λ l. record l { user_to_delete = none })
respond called_back r = refresh_selected r.selected_user_id
respond (set_search_query v) r = modify (λ l. record l { search_query = v })
respond (click_user id) r = do
  handle_user_click r.selected_user_id id
  selected ← gets (λ s. s.local.selected_user_id)
  sync_instances selected
respond (ask_delete id) r = modify (λ l. record l { user_to_delete = some id })
respond (confirm_delete id) r = delete_asked id

-- The press of the button in a row does not reach the row.
abbrev pub user_row :
    Option User → List UserInstance → Accounts → SubjectUser → Markup AccountsEvent
user_row user instances l u = element "TableRow" (on_click (click_user u.id) ∷ []) (
    all (
      element "TableCell" [] (text u.name)
      ∷ element "TableCell" [] (text u.mail)
      ∷ element "TableCell" [] (text u.role)
      ∷ element "TableCell" [] (
          element "Button"
            (on_click (ask_delete u.id)
              ∷ disabled (
                  is_selected l.delete_loading u.id || not (no_rows instances) || is_current user u)
              ∷ [])
            empty)
      ∷ []))

-- The confirmation. Both of its buttons close it by `onOpenChange`, which the deletion does as well.
abbrev pub confirmation : Option String → Markup AccountsEvent
confirmation none = empty
confirmation (some id) = shown_if (not (is_empty id)) (
    element "AlertDialog" [] (
      all (
        element "AlertDialogTitle" [] (text "Are you sure?")
        ∷ element "AlertDialogDescription" [] (
            text
              "This action cannot be undone. This will permanently delete the user and all associated data.")
        ∷ element "AlertDialogCancel" (on_click cancel_delete ∷ []) (text "Cancel")
        ∷ element "AlertDialogAction" (on_click (confirm_delete id) ∷ []) (text "Delete")
        ∷ [])))

-- `UserManager`; `users` and `instances` are the lists of the two hooks.
abbrev pub user_manager :
    Notation → Option User → List SubjectUser → List UserInstance → Accounts → Markup AccountsEvent
user_manager n user users instances l =
    if l.users.loading
    then element "div" [] (text "Loading users...")
    else failure_or n l.users.error_text (
        element "div" [] (
          all (
            element "h2" [] (text "Users")
            ∷ element "Button" (on_click refresh ∷ disabled l.is_refreshing ∷ [])
                (text (if l.is_refreshing then "Refreshing..." else "Refresh"))
            ∷ element "Input"
                (attr "placeholder" "Search by email..."
                  ∷ attr "value" l.search_query
                  ∷ on_change set_search_query
                  ∷ [])
                empty
            ∷ element "Table" [] (
                all (
                  element "TableHeader" [] (
                    all (
                      element "TableHead" [] (text "Name")
                      ∷ element "TableHead" [] (text "Email")
                      ∷ element "TableHead" [] (text "Role")
                      ∷ element "TableHead" [] (text "Actions")
                      ∷ []))
                  ∷ element "TableBody" [] (
                      each (user_row user instances l)
                        (filtered_users n.lower l.search_query users))
                  ∷ []))
            ∷ confirmation l.user_to_delete
            ∷ shown_if (is_given l.selected_user_id) (instances_part n user instances l)
            ∷ [])))
