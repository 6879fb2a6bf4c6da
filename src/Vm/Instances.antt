-- ===== src/Vm/Instances.antt =====
-- The table of a subject's machines: web-server/frontend/src/components/subject/
-- SubjectInstancesManager.tsx. Its state holds that of `useSubjectVMs`.
use remote_labs.Prelude.{
  Bool, List, String, [], ap, arith, false, filter, not, refl, true, ◌==◌, ◌∷◌, ◌≡◌,
}
use remote_labs.Runtime.{Action, St, done, modify, skip, zoom, ◌>>◌}
use remote_labs.Vm.Table.{
  VmListItem, VmsTable, with_status, handle_start as start_row, handle_stop as stop_row,
  handle_delete as delete_row,
}
use remote_labs.Vm.Table.Replay.{Update, deleted, started, stopped, update, update_all}

pub record InstancesManager (H : Type 0) : Type 0 where
  pub hook : H
  pub instances : List VmListItem
  pub is_refreshing : Bool

module _ {H : Type 0} where
  unfoldable pub handle_delete : String → Action (InstancesManager H) (Unit {0})
  handle_delete instance_id =
      modify (λ l. record l {
        instances = filter (λ vm. not (vm.instance_id == instance_id)) l.instances;
      })

  unfoldable pub handle_start : String → Action (InstancesManager H) (Unit {0})
  handle_start instance_id =
      modify (λ l. record l { instances = with_status instance_id "running" l.instances })

  unfoldable pub handle_stop : String → Action (InstancesManager H) (Unit {0})
  handle_stop instance_id =
      modify (λ l. record l { instances = with_status instance_id "shut off" l.instances })

  -- `refresh` is that of the hook.
  unfoldable pub handle_refresh : Action H (Unit {0}) → Action (InstancesManager H) (Unit {0})
  handle_refresh refresh = do
    modify (λ l. record l { is_refreshing = true })
    zoom (λ l. l.hook) (λ h l. record l { hook = h }) refresh
    modify (λ l. record l { is_refreshing = false })

  abbrev pub report : Update → Action (InstancesManager H) (Unit {0})
  report (started id) = handle_start id
  report (stopped id) = handle_stop id
  report (deleted id) = handle_delete id

  abbrev pub report_all : List Update → Action (InstancesManager H) (Unit {0})
  report_all [] = skip
  report_all (u ∷ us) = do report u; report_all us

-- A report has the same effect on the rows as in the table of a user's machines.
report-update :
    {H : Type 0} (u : Update) (s : St (InstancesManager H)) (t : St VmsTable)
    → s.local.instances ≡ t.local.vms
    → ((report u s).0 ≡ done tt)
      × ((update u t).0 ≡ done tt)
      × ((report u s).1.local.instances ≡ (update u t).1.local.vms)
unfolding handle_start handle_stop handle_delete start_row stop_row delete_row
report-update (started id) s t e = (refl, refl, ap (with_status id "running") e)
report-update (stopped id) s t e = (refl, refl, ap (with_status id "shut off") e)
report-update (deleted id) s t e = (refl, refl, ap (filter (λ vm. not (vm.instance_id == id))) e)

-- The two tables of machines behave alike: with the same rows at first, after the same reports they
-- show the same rows.
report_all-update_all :
    {H : Type 0} (us : List Update) (s : St (InstancesManager H)) (t : St VmsTable)
    → s.local.instances ≡ t.local.vms
    → ((report_all us s).0 ≡ done tt)
      × ((report_all us s).1.local.instances ≡ (update_all us t).1.local.vms)
report_all-update_all [] s t e = (refl, e)
report_all-update_all (u ∷ us) s t e =
    let (d, d', k) = report-update u s t e in
    grind (arith, d, d', report_all-update_all us (report u s).1 (update u t).1 k)
