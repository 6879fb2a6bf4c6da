-- ===== src/Vm/Table/Replay.antt =====
-- The local updates of VMsTable.tsx as a whole: the table implements a finite map from machines to
-- rows.
use remote_labs.Prelude.{
  List, Option, String, [], arith, eq_iff, filter, fun_ext, if◌then◌else◌, none, not, refl, some,
  ◌==◌, ◌∷◌, ◌≡◌,
}
use remote_labs.Runtime.{Action, St, done, skip, ◌>>◌}
use remote_labs.Vm.Table.{
  VmListItem, VmsTable, handle_delete, handle_start, handle_stop, with_status,
}

-- What the buttons of the rows report.
pub data Update : Type 0 where
  started stopped deleted : String → Update

abbrev pub update : Update → Action VmsTable (Unit {0})
update (started id) = handle_start id
update (stopped id) = handle_stop id
update (deleted id) = handle_delete id

abbrev pub update_all : List Update → Action VmsTable (Unit {0})
update_all [] = skip
update_all (u ∷ us) = do update u; update_all us

-- The abstract state, and what a report does to it.
abbrev pub RowMap : Type 0
RowMap = String → Option VmListItem

abbrev pub restated : String → Option VmListItem → Option VmListItem
restated status none = none
restated status (some vm) = some (record vm { status = status })

abbrev pub with_update : Update → RowMap → RowMap
with_update (started id) f j = if id == j then restated "running" (f j) else f j
with_update (stopped id) f j = if id == j then restated "shut off" (f j) else f j
with_update (deleted id) f j = if id == j then none else f j

abbrev pub replay : List Update → RowMap → RowMap
replay [] f = f
replay (u ∷ us) f = replay us (with_update u f)

-- The first row of a machine, if the table has one.
abbrev pub row_of : List VmListItem → RowMap
row_of [] j = none
row_of (vm ∷ vms) j = if vm.instance_id == j then some vm else row_of vms j

row_of-with_status :
    (id status j : String) (vms : List VmListItem)
    → row_of (with_status id status vms) j
      ≡ (if id == j then restated status (row_of vms j) else row_of vms j)
row_of-with_status id status j [] = ground arith
row_of-with_status id status j (vm ∷ vms) = ground (
  arith,
  eq_iff id j,
  eq_iff vm.instance_id id,
  eq_iff vm.instance_id j,
  row_of-with_status id status j vms,
)

row_of-removed :
    (id j : String) (vms : List VmListItem)
    → row_of (filter (λ vm. not (vm.instance_id == id)) vms) j
      ≡ (if id == j then none else row_of vms j)
row_of-removed id j [] = ground arith
row_of-removed id j (vm ∷ vms) =
    ground (
      arith,
      eq_iff id j,
      eq_iff vm.instance_id id,
      eq_iff vm.instance_id j,
      row_of-removed id j vms,
    )

update-with_update :
    (u : Update) (s : St VmsTable)
    → ((update u s).0 ≡ done tt)
      × (row_of (update u s).1.local.vms ≡ with_update u (row_of s.local.vms))
unfolding handle_start handle_stop handle_delete
update-with_update (started id) s =
    (refl, fun_ext (λ j. row_of-with_status id "running" j s.local.vms))
update-with_update (stopped id) s =
    (refl, fun_ext (λ j. row_of-with_status id "shut off" j s.local.vms))
update-with_update (deleted id) s = (refl, fun_ext (λ j. row_of-removed id j s.local.vms))

-- After any reports the table shows what the abstract map from machines to whole rows, the first of each, holds: a
-- start or a stop replaces the status, and nothing else, in the row of its machine if that is there, a
-- deletion takes the machine out, and the row of every other machine stays as it is.
pub update_all-replay :
    (us : List Update) (s : St VmsTable)
    → ((update_all us s).0 ≡ done tt)
      × (row_of (update_all us s).1.local.vms ≡ replay us (row_of s.local.vms))
update_all-replay [] s = (refl, refl)
update_all-replay (u ∷ us) s =
    let (d, e) = update-with_update u s in grind (arith, d, e, update_all-replay us (update u s).1)
