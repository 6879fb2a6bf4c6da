-- ===== src/Roster/Members/Panel.antt =====
-- What the panel of a subject's users returns: the markup of web-server/frontend/src/
-- components/subject/SubjectUsersManager.tsx.
use remote_labs.Prelude.{
  Bool, List, Option, String, [], concat, false, if◌then◌else◌, none, not, some, ◌==◌, ◌||◌, ◌∷◌,
}
use remote_labs.Js.Value.{is_empty}
use remote_labs.Runtime.{Action, User, modify}
use remote_labs.Markup.{
  Markup, all, attr, disabled, each, element, empty, on_change, on_click, on_submit, shown_if,
  shown_text, text,
}
use remote_labs.Vm.Table.{VmListItem}
use remote_labs.Roster.Members.{
  Members, SubjectUser, current_member, handle_add_user, handle_remove, has_instances,
  other_members,
}

pub data MembersEvent : Type 0 where
  toggle_add submit_add : MembersEvent
  set_add_email : String → MembersEvent
  remove_member : String → MembersEvent

-- The handlers; `r` is the state that was last rendered.
unfoldable pub respond : String → MembersEvent → Members → Action Members (Unit {0})
respond subject_id toggle_add r = modify (λ l. record l { show_add = not l.show_add })
respond subject_id submit_add r = handle_add_user subject_id r
respond subject_id (set_add_email v) r = modify (λ l. record l { add_email = v })
respond subject_id (remove_member user_mail) r = handle_remove subject_id user_mail

-- `o === text`
abbrev pub is_removing : Option String → String → Bool
is_removing none mail = false
is_removing (some m) mail = m == mail

abbrev pub add_form : Members → Markup MembersEvent
add_form l = element "form" (on_submit submit_add ∷ []) (
    all (
      element "Input"
        (attr "type" "email"
          ∷ attr "placeholder" "Enter user email to add"
          ∷ attr "value" l.add_email
          ∷ on_change set_add_email
          ∷ attr "required" ""
          ∷ [])
        empty
      ∷ element "Button"
          (attr "type" "submit" ∷ disabled (l.add_loading || is_empty l.add_email) ∷ [])
          (text (if l.add_loading then "Adding..." else "Add"))
      ∷ shown_text l.add_error (λ e. element "span" [] (text e))
      ∷ []))

abbrev pub current_row : Option SubjectUser → Markup MembersEvent
current_row none = empty
current_row (some u) = element "div" [] (
    all (
      element "span" [] (text "You:")
      ∷ element "span" [] (text (concat u.name (concat " (" (concat u.mail ")"))))
      ∷ element "span" [] (text u.role)
      ∷ element "span" [] (text "(You cannot remove yourself)")
      ∷ []))

abbrev pub member_row : List VmListItem → Members → SubjectUser → Markup MembersEvent
member_row vms l u = element "TableRow" [] (
    all (
      element "TableCell" [] (text u.name)
      ∷ element "TableCell" [] (text u.mail)
      ∷ element "TableCell" [] (text u.role)
      ∷ element "TableCell" [] (
          all (
            element "Button"
              (on_click (remove_member u.mail)
                ∷ disabled (has_instances vms u.mail || is_removing l.remove_loading u.mail)
                ∷ attr "title" (
                    if has_instances vms u.mail
                    then "User has instances in this subject"
                    else "Remove from subject")
                ∷ [])
              (text (if is_removing l.remove_loading u.mail then "Removing..." else "Remove"))
            ∷ shown_text l.remove_error
                (λ e. shown_if (is_removing l.remove_loading u.mail) (element "span" [] (text e)))
            ∷ []))
      ∷ []))

-- `SubjectUsersManager`; `us` is the list `localUsers`.
abbrev pub subject_users_manager :
    List VmListItem → Option User → List SubjectUser → Members → Markup MembersEvent
subject_users_manager vms user us l = element "div" [] (
    all (
      element "h2" [] (
        all (
          text "Users"
          ∷ element "Button" (on_click toggle_add ∷ attr "aria-label" "Add user" ∷ []) empty
          ∷ []))
      ∷ shown_if l.show_add (add_form l)
      ∷ current_row (current_member user us)
      ∷ shown_if l.users.loading (element "div" [] (text "Loading users..."))
      ∷ shown_text l.users.error_text (λ e. element "div" [] (text e))
      ∷ element "Table" [] (
          all (
            element "TableHeader" [] (
              all (
                element "TableHead" [] (text "Name")
                ∷ element "TableHead" [] (text "Email")
                ∷ element "TableHead" [] (text "Role")
                ∷ element "TableHead" [] (text "Actions")
                ∷ []))
            ∷ element "TableBody" [] (each (member_row vms l) (other_members user us))
            ∷ []))
      ∷ []))
