-- ===== src/Vm/Table/Pressed.antt =====
-- The button of a row and the table that it updates: the two components together.
use remote_labs.Prelude.{String, arith, false, filter, not, some, ◌==◌, ◌≡◌}
use remote_labs.Runtime.{St, done}
use remote_labs.Vm.{delete_vm, start_vm, stop_vm}
use remote_labs.Vm.Buttons.{
  Within, handle_start as press_start, handle_stop as press_stop, handle_delete as press_delete,
}
use remote_labs.Vm.Table.{VmsTable, handle_delete, handle_start, handle_stop, with_status}

-- A pressed button is released: the page and the button are no longer loading, and no exception
-- comes out, whatever the server answers.
pressed_ends :
    (id : String) (s : St (Within VmsTable))
    → let r = press_start id (some (handle_start id)) s in
      let r' = press_stop id (some (handle_stop id)) s in
      let r'' = press_delete id (some (handle_delete id)) s in
      (r.0 ≡ done tt)
      × (r.1.world.busy ≡ false)
      × (r.1.local.button.local_loading ≡ false)
      × (r'.0 ≡ done tt)
      × (r'.1.world.busy ≡ false)
      × (r'.1.local.button.local_loading ≡ false)
      × (r''.0 ≡ done tt)
      × (r''.1.world.busy ≡ false)
      × (r''.1.local.button.local_loading ≡ false)
unfolding press_start press_stop press_delete start_vm stop_vm delete_vm handle_start handle_stop
    handle_delete
pressed_ends id s = ground arith

-- The table is updated whatever the server answers: after a press of a button it shows the machine
-- as running, shut off or gone, also where the request was refused or never answered.
pub pressed_updates :
    (id : String) (s : St (Within VmsTable))
    → let vms = s.local.parent.vms in
      ((press_start id (some (handle_start id)) s).1.local.parent.vms
        ≡ with_status id "running" vms)
      × ((press_stop id (some (handle_stop id)) s).1.local.parent.vms
          ≡ with_status id "shut off" vms)
      × ((press_delete id (some (handle_delete id)) s).1.local.parent.vms
          ≡ filter (λ vm. not (vm.instance_id == id)) vms)
unfolding press_start press_stop press_delete start_vm stop_vm delete_vm handle_start handle_stop
    handle_delete
pressed_updates id s = ground arith
