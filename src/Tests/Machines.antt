-- ===== src/Tests/Machines.antt =====
-- The rows of the table of machines, their buttons and the requests behind them.
use remote_labs.Vm.Buttons.{
  Within, handle_start as press_start, handle_stop as press_stop, handle_delete as press_delete,
}
use remote_labs.Prelude.{
  String, [], false, filter, nat_eq, not, refl, some, true, ◌&&◌, ◌==◌, ◌||◌, ◌∷◌, ◌≡◌,
}
use remote_labs.Runtime.{St, done}
use remote_labs.Tests.Samples.{accepting, down, refusing, row, st, student}
use remote_labs.Vm.{VmActions}
use remote_labs.Vm.Table.{
  Control, VmsTable, config, controls, handle_delete, handle_start, handle_stop, has_status,
  is_professor_or_admin, remove, running_vms_count, start, stop, with_status,
}
use remote_labs.Vm.Table.Rows.{controls_lem, offers}
use remote_labs.Vm.Table.Pressed.{pressed_updates}
use remote_labs.Vm.Table.Replay.{deleted, replay, started, row_of, update_all, update_all-replay}

abbrev pub same : String → String
same text = text

abbrev the_table : VmsTable
the_table = record { vms = row ∷ []; is_refreshing = false }

abbrev pub table : St VmsTable
table = st the_table accepting

abbrev pressed : St (Within VmsTable)
pressed =
    st
      (record {
        parent = the_table;
        button = record {
          actions = record { is_loading = false };
          local_loading = false;
          show_confirm_dialog = false;
        };
      })
      down

abbrev actions : St VmActions
actions = st (record { is_loading = false }) refusing

controls_test : controls same student (row ∷ []) row ≡ Control.start ∷ config ∷ remove ∷ []
unfolding controls
controls_test = refl

controls_lem_example :
    let cs = controls same student (row ∷ []) row in
    let off = has_status same "shut off" row in
    (offers start cs
      ≡ (off && (is_professor_or_admin student || nat_eq (running_vms_count same (row ∷ [])) 0)))
    × (offers stop cs ≡ has_status same "running" row)
    × (offers remove cs ≡ off)
    × (offers config cs ≡ true)
controls_lem_example = controls_lem same student (row ∷ []) row

update_all-replay_example :
    ((update_all (started "i1" ∷ deleted "i2" ∷ []) table).0 ≡ done tt)
    × (row_of (update_all (started "i1" ∷ deleted "i2" ∷ []) table).1.local.vms
        ≡ replay (started "i1" ∷ deleted "i2" ∷ []) (row_of table.local.vms))
update_all-replay_example = update_all-replay (started "i1" ∷ deleted "i2" ∷ []) table

pressed_updates_example :
    let vms = pressed.local.parent.vms in
    ((press_start "i1" (some (handle_start "i1")) pressed).1.local.parent.vms
      ≡ with_status "i1" "running" vms)
    × ((press_stop "i1" (some (handle_stop "i1")) pressed).1.local.parent.vms
        ≡ with_status "i1" "shut off" vms)
    × ((press_delete "i1" (some (handle_delete "i1")) pressed).1.local.parent.vms
        ≡ filter (λ vm. not (vm.instance_id == "i1")) vms)
pressed_updates_example = pressed_updates "i1" pressed
