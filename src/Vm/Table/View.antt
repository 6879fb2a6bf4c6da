-- ===== src/Vm/Table/View.antt =====
-- The tables of machines as they are drawn, with what each press does: web-server/frontend/src/
-- components/vm/VMsTable.tsx and components/subject/SubjectInstancesManager.tsx. A button of a row is
-- an element of its component's name; what it sets off is the callback that the table gave it.
pub mod Visits
use remote_labs.Prelude.{
  Bool, List, Option, String, [], concat, false, if◌then◌else◌, nat_eq, true, ℕ, ◌∷◌,
}
use remote_labs.Js.Value.{is_empty, num}
use remote_labs.Js.Text.{to_text}
use remote_labs.Runtime.{Action, User}
use remote_labs.Markup.{Markup, all, attr, disabled, each, element, empty, on_click, text}
use remote_labs.Vm.Instances.{InstancesManager, report, handle_refresh as refresh_instances}
use remote_labs.Vm.Table.{
  Control, VmListItem, VmsTable, config, controls, get_status_color, get_status_display,
  handle_refresh, remove, start, stop,
}
use remote_labs.Vm.Table.Replay.{Update, deleted, started, stopped, update}

pub data TableEvent : Type 0 where
  reported : Update → TableEvent
  refresh : TableEvent

-- `onRefresh` is that of the parent.
unfoldable pub respond : Action VmsTable (Unit {0}) → TableEvent → Action VmsTable (Unit {0})
respond on_refresh (reported u) = update u
respond on_refresh refresh = handle_refresh on_refresh

unfoldable pub respond_instances :
    {H : Type 0} → Action H (Unit {0}) → TableEvent → Action (InstancesManager H) (Unit {0})
respond_instances on_refresh (reported u) = report u
respond_instances on_refresh refresh = refresh_instances on_refresh

-- How a browser writes dates and numbers of gigabytes.
pub record Writing : Type 0 where
  pub lower : String → String
  pub upper : String → String
  pub local_date : String → String
  pub gigabytes : ℕ → String

abbrev pub control_button : VmListItem → Control → Markup TableEvent
control_button vm start =
    element "VMStartButton"
      (attr "instanceId" vm.instance_id ∷ on_click (reported (started vm.instance_id)) ∷ []) empty
control_button vm stop =
    element "VMStopButton"
      (attr "instanceId" vm.instance_id ∷ on_click (reported (stopped vm.instance_id)) ∷ []) empty
control_button vm config =
    element "WireguardConfigButton" (attr "instanceId" vm.instance_id ∷ []) empty
control_button vm remove =
    element "VMDeleteButton"
      (attr "instanceId" vm.instance_id ∷ on_click (reported (deleted vm.instance_id)) ∷ []) empty

-- `n || 'XX'` and `n ? … : 'XX'`
abbrev pub count_or : ℕ → String
count_or n = if nat_eq n 0 then "XX" else to_text (num n)

abbrev pub gigabytes_or : Writing → ℕ → String
gigabytes_or w mb = if nat_eq mb 0 then "XX" else concat (w.gigabytes mb) " GB"

-- `s || other`
abbrev pub or_text : String → String → String
or_text s other = if is_empty s then other else s

abbrev pub resources : Writing → VmListItem → Markup TableEvent
resources w vm = all (
    element "span" [] (text "vCPUs:")
    ∷ element "span" [] (text (count_or vm.template_vcpu_count))
    ∷ element "span" [] (text "RAM:")
    ∷ element "span" [] (text (gigabytes_or w vm.template_vram_mb))
    ∷ element "span" [] (text "Disk:")
    ∷ element "span" [] (text (gigabytes_or w vm.template_size_mb))
    ∷ [])

abbrev pub vm_row : Writing → Option User → List VmListItem → VmListItem → Markup TableEvent
vm_row w user vms vm = element "TableRow" [] (
    all (
      element "span" (attr "className" (get_status_color w.lower w.upper vm.status) ∷ [])
        (text (get_status_display w.lower w.upper vm.status))
      ∷ element "TableCell" [] (text vm.subject_name)
      ∷ element "TableCell" [] (text (w.local_date vm.created_at))
      ∷ resources w vm
      ∷ element "TableCell" [] (text (or_text vm.template_description "No description available"))
      ∷ element "TableCell" [] (each (control_button vm) (controls w.lower user vms vm))
      ∷ []))

abbrev pub table_head : List String → Markup TableEvent
table_head = each (λ s. element "TableHead" [] (text s))

abbrev pub refresh_part : String → Bool → Markup TableEvent
refresh_part title is_refreshing = all (
    element "h2" [] (text title)
    ∷ element "Button" (on_click refresh ∷ disabled is_refreshing ∷ [])
        (text (if is_refreshing then "Refreshing..." else "Refresh"))
    ∷ [])

-- `VMsTable`
abbrev pub vms_table : Writing → Option User → VmsTable → Markup TableEvent
vms_table w user l = all (
    refresh_part "Your Virtual Machines" l.is_refreshing
    ∷ table_head (
        "Status" ∷ "Subject" ∷ "Created At" ∷ "Resources" ∷ "Template Description" ∷ "Actions" ∷ [])
    ∷ each (vm_row w user l.vms) l.vms
    ∷ [])

-- A row of `SubjectInstancesManager`; `described` is the field `template_description`.
abbrev pub instance_buttons : VmListItem → Control → Markup TableEvent
instance_buttons vm config = empty
instance_buttons vm c = control_button vm c

abbrev pub vm_instance_row :
    Writing → (VmListItem → String) → Option User → List VmListItem → VmListItem → Markup TableEvent
vm_instance_row w described user vms vm = element "TableRow" [] (
    all (
      element "span" (attr "className" (get_status_color w.lower w.upper vm.status) ∷ [])
        (text (get_status_display w.lower w.upper vm.status))
      ∷ element "TableCell" [] (text (or_text vm.user_mail "-"))
      ∷ element "TableCell" []
          (text (if is_empty vm.created_at then "-" else w.local_date vm.created_at))
      ∷ resources w vm
      ∷ element "TableCell" [] (
          text
            (or_text vm.template_description (or_text (described vm) "No description available")))
      ∷ element "TableCell" [] (each (instance_buttons vm) (controls w.lower user vms vm))
      ∷ []))

-- `SubjectInstancesManager`, with the flag `loading` of its hook.
abbrev pub subject_instances_manager :
    {H : Type 0}
    → Writing
    → (VmListItem → String)
    → Option User
    → Bool
    → InstancesManager H
    → Markup TableEvent
subject_instances_manager w described user vms_loading l = all (
    refresh_part "Subject Instances" l.is_refreshing
    ∷ (if vms_loading
        then element "div" [] (text "Loading instances...")
        else all (
            table_head (
              "Status" ∷ "User Email" ∷ "Created At" ∷ "Resources" ∷ "Template Description"
              ∷ "Actions" ∷ [])
            ∷ each (vm_instance_row w described user l.instances) l.instances
            ∷ []))
    ∷ [])
