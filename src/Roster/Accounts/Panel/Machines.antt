-- ===== src/Roster/Accounts/Panel/Machines.antt =====
-- The machines of the selected account in web-server/frontend/src/components/controlplane/
-- UserManager.tsx, and the events of that panel.
use remote_labs.Prelude.{
  Bool, List, Option, String, [], concat, false, if◌then◌else◌, length, nat_eq, none, not, some,
  true, ℕ, zero, ◌&&◌, ◌==◌, ◌||◌, ◌∷◌, filter,
}
use remote_labs.Js.Value.{is_empty, num}
use remote_labs.Js.Text.{to_text}
use remote_labs.Runtime.{User}
use remote_labs.Markup.{Markup, all, attr, each, element, empty, on_click, shown_if, text}
use remote_labs.Vm.Table.{is_professor_or_admin}
use remote_labs.Roster.Accounts.{Accounts}

-- `UserInstance` of useUsers.ts, less a description that is never read.
pub record UserInstance : Type 0 where
  pub instance_id : String
  pub status : String
  pub subject_name : String
  pub created_at : String
  pub template_vcpu_count : ℕ
  pub template_vram_mb : ℕ
  pub template_size_mb : ℕ

pub data AccountsEvent : Type 0 where
  refresh cancel_delete called_back : AccountsEvent
  set_search_query click_user ask_delete confirm_delete : String → AccountsEvent

-- `!!s`
abbrev pub is_given : Option String → Bool
is_given none = false
is_given (some s) = not (is_empty s)

abbrev pub no_rows : {A : Type 0} → List A → Bool
no_rows [] = true
no_rows xs = false

-- The language's case mappings, a date in the user's notation, and a number of megabytes in gigabytes.
pub record Notation : Type 0 where
  pub lower : String → String
  pub upper : String → String
  pub local_date : String → String
  pub gigabytes : ℕ → String

module _ (n : Notation) where
  abbrev pub status_color : String → String
  status_color status =
      if n.lower status == "running"
      then "text-green-600"
      else if n.lower status == "idle"
      then "text-blue-600"
      else if n.lower status == "paused"
      then "text-yellow-600"
      else if n.lower status == "in shutdown"
      then "text-orange-600"
      else if n.lower status == "crashed"
      then "text-red-600"
      else if n.lower status == "shut off"
      then "text-gray-600"
      else if n.lower status == "pmsuspended"
      then "text-purple-600"
      else "text-gray-600"

  abbrev pub status_display : String → String
  status_display status =
      if n.lower status == "running"
      then "RUNNING"
      else if n.lower status == "idle"
      then "IDLE"
      else if n.lower status == "paused"
      then "PAUSED"
      else if n.lower status == "in shutdown"
      then "SHUTTING DOWN"
      else if n.lower status == "crashed"
      then "CRASHED"
      else if n.lower status == "shut off"
      then "SHUT OFF"
      else if n.lower status == "pmsuspended"
      then "SUSPENDED"
      else n.upper status

  abbrev pub is_in : String → UserInstance → Bool
  is_in status i = n.lower i.status == status

  abbrev pub can_start_instance : Option User → List UserInstance → UserInstance → Bool
  can_start_instance user instances i =
      is_professor_or_admin user
      || nat_eq (length (filter (is_in "running") instances)) zero
      || is_in "running" i

  -- `n ? … : 'XX'`
  abbrev pub size_or : ℕ → String
  size_or mb = if nat_eq mb zero then "XX" else concat (n.gigabytes mb) " GB"

  abbrev pub machine_button : String → UserInstance → Markup AccountsEvent
  machine_button tag i =
      element tag (attr "instanceId" i.instance_id ∷ on_click called_back ∷ []) empty

  abbrev pub instance_row : Option User → List UserInstance → UserInstance → Markup AccountsEvent
  instance_row user instances i = element "TableRow" [] (
      all (
        element "TableCell" (attr "className" (status_color i.status) ∷ [])
          (text (status_display i.status))
        ∷ element "TableCell" [] (text i.subject_name)
        ∷ element "TableCell" [] (text (n.local_date i.created_at))
        ∷ element "TableCell" [] (
            all (
              element "span" [] (text "vCPUs:")
              ∷ element "span" [] (
                  text (
                    if nat_eq i.template_vcpu_count zero
                    then "XX"
                    else to_text (num i.template_vcpu_count)))
              ∷ element "span" [] (text "RAM:")
              ∷ element "span" [] (text (size_or i.template_vram_mb))
              ∷ element "span" [] (text "Disk:")
              ∷ element "span" [] (text (size_or i.template_size_mb))
              ∷ []))
        ∷ element "TableCell" [] (
            all (
              shown_if (is_in "shut off" i && can_start_instance user instances i)
                (machine_button "VMStartButton" i)
              ∷ shown_if (is_in "running" i) (machine_button "VMStopButton" i)
              ∷ shown_if (is_in "shut off" i) (machine_button "VMDeleteButton" i)
              ∷ []))
        ∷ []))

  -- The table of the machines of the selected account.
  abbrev pub instances_table : Option User → List UserInstance → Markup AccountsEvent
  instances_table user instances =
      if no_rows instances
      then element "div" [] (text "This user has no instances.")
      else element "Table" [] (
          all (
            element "TableHeader" [] (
              all (
                element "TableHead" [] (text "Status")
                ∷ element "TableHead" [] (text "Subject")
                ∷ element "TableHead" [] (text "Created")
                ∷ element "TableHead" [] (text "Resources")
                ∷ element "TableHead" [] (text "Actions")
                ∷ []))
            ∷ element "TableBody" [] (each (instance_row user instances) instances)
            ∷ []))

  abbrev pub failure_or : Option String → Markup AccountsEvent → Markup AccountsEvent
  failure_or none m = m
  failure_or (some e) m = if is_empty e then m else element "div" [] (text (concat "Error: " e))

  abbrev pub instances_part : Option User → List UserInstance → Accounts → Markup AccountsEvent
  instances_part user instances l = element "div" [] (
      all (
        element "h2" [] (text "User Instances")
        ∷ (if l.instances.loading
            then element "div" [] (text "Loading instances...")
            else failure_or l.instances.error_text (instances_table user instances))
        ∷ []))
