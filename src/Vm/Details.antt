-- ===== src/Vm/Details.antt =====
-- The card of one machine: web-server/frontend/src/components/vm/VMDetails.tsx, and what its buttons do
-- to it.
use remote_labs.Prelude.{
  Bool, Option, String, arith, false, if◌then◌else◌, none, some, true, ◌==◌, ◌≡◌,
}
use remote_labs.Runtime.{Action, St, modify}
use remote_labs.Vm.{delete_vm, start_vm, stop_vm}
use remote_labs.Vm.Buttons.{
  Within, handle_start as press_start, handle_stop as press_stop, handle_delete as press_delete,
}
use remote_labs.Vm.Table.{VmListItem}

pub record VmDetails : Type 0 where
  pub vm : VmListItem
  pub deleted : Bool

unfoldable pub handle_start : Action VmDetails (Unit {0})
handle_start = modify (λ l. record l { vm = record l.vm { status = "running" } })

unfoldable pub handle_stop : Action VmDetails (Unit {0})
handle_stop = modify (λ l. record l { vm = record l.vm { status = "shut off" } })

unfoldable pub handle_delete : Action VmDetails (Unit {0})
handle_delete = modify (λ l. record l { deleted = true })

-- `lower` is `toLowerCase`.
abbrev pub get_status_color : (String → String) → String → String
get_status_color lower status =
    if lower status == "running"
    then "bg-green-500"
    else if lower status == "stopped"
    then "bg-yellow-500"
    else if lower status == "error"
    then "bg-red-500"
    else "bg-gray-500"

-- What is rendered: nothing, or the machine with its status and the colour of that.
abbrev pub shown_card : (String → String) → VmDetails → Option (VmListItem × String)
shown_card lower l = if l.deleted then none else some (l.vm, get_status_color lower l.vm.status)

-- The buttons of the card update it whatever the server answers: after a press it shows the machine
-- as running or shut off, or is gone, also where the request was refused or never answered.
pressed_card :
    (lower : String → String) (id : String) (s : St (Within VmDetails))
    → s.local.parent.deleted ≡ false
    → let vm = s.local.parent.vm in
      (shown_card lower (press_start id (some handle_start) s).1.local.parent
        ≡ some (record vm { status = "running" }, get_status_color lower "running"))
      × (shown_card lower (press_stop id (some handle_stop) s).1.local.parent
          ≡ some (record vm { status = "shut off" }, get_status_color lower "shut off"))
      × (shown_card lower (press_delete id (some handle_delete) s).1.local.parent ≡ none)
unfolding press_start press_stop press_delete start_vm stop_vm delete_vm handle_start handle_stop
    handle_delete
pressed_card lower id s h = ground arith
