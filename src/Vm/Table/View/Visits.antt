-- ===== src/Vm/Table/View/Visits.antt =====
-- The table of a user's machines over every visit: one machine of a student runs at a time.
use remote_labs.Prelude.{
  Bool, Bool-cases, List, Option, String, [], arith, eq_iff, false, filter, inl, inr, nat_eq, none,
  not, subst, true, ◌==◌, ◌∷◌, ◌≡◌,
}
use remote_labs.Runtime.{Action, Keeps, St, User, modify, ◌>>◌, Keeps-seq}
use remote_labs.Markup.{Offers, OffersIn, each}
use remote_labs.Markup.Visit.{Visit, after, opened}
use remote_labs.Vm.Table.{
  Control, VmListItem, VmsTable, config, controls, handle_delete, handle_refresh, handle_start,
  handle_stop, has_status, is_professor_or_admin, remove, running_vms_count, start, stop,
  with_status,
}
use remote_labs.Vm.Table.Replay.{deleted, started, stopped}
use remote_labs.Vm.Table.Rows.{controls_lem, offers}
use remote_labs.Vm.Table.View.{
  TableEvent, Writing, control_button, refresh, reported, respond, vm_row, vms_table,
}

-- No machine but that of the identifier runs.
abbrev pub RunsOnly : (String → String) → String → List VmListItem → Type 0
RunsOnly lower id [] = Unit {0}
RunsOnly lower id (vm ∷ vms) =
    (has_status lower "running" vm ≡ true → vm.instance_id ≡ id) × RunsOnly lower id vms

-- All rows that run are of one machine.
abbrev pub RunsOne : (String → String) → VmsTable → Type 0
RunsOne lower t = (id : String) × RunsOnly lower id t.vms

module _ (lower : String → String) where
  RunsOnly-started :
      (id : String) (vms : List VmListItem)
      → nat_eq (running_vms_count lower vms) 0 ≡ true
      → RunsOnly lower id (with_status id "running" vms)
  RunsOnly-started id [] h = tt
  RunsOnly-started id (vm ∷ vms) h = elim (Bool-cases (has_status lower "running" vm)) [
    | inl r ↦ absurd (ground (arith, r, h))
    | inr r ↦ elim (Bool-cases (vm.instance_id == id)) [
      | inl e ↦ rw e (λ _. (eq_iff vm.instance_id id).0 e, RunsOnly-started id vms (fewer r h))
      | inr n ↦ rw n (λ y. absurd (cc (r, y)), RunsOnly-started id vms (fewer r h))
    ]
  ]
    where
      fewer :
          has_status lower "running" vm ≡ false
          → nat_eq (running_vms_count lower (vm ∷ vms)) 0 ≡ true
          → nat_eq (running_vms_count lower vms) 0 ≡ true
      fewer r k = ground (arith, r, k)

  RunsOnly-stopped :
      (id j : String) (vms : List VmListItem)
      → lower "shut off" ≡ "shut off"
      → RunsOnly lower id vms
      → RunsOnly lower id (with_status j "shut off" vms)
  RunsOnly-stopped id j [] e h = h
  RunsOnly-stopped id j (vm ∷ vms) e (h, hs) = elim (Bool-cases (vm.instance_id == j)) [
    | inl s ↦ rw s (rw e (λ y. absurd (cc y)), RunsOnly-stopped id j vms e hs)
    | inr n ↦ rw n (h, RunsOnly-stopped id j vms e hs)
  ]

  RunsOnly-removed :
      (id j : String) (vms : List VmListItem)
      → RunsOnly lower id vms
      → RunsOnly lower id (filter (λ vm. not (vm.instance_id == j)) vms)
  RunsOnly-removed id j [] h = h
  RunsOnly-removed id j (vm ∷ vms) (h, hs) = elim (Bool-cases (vm.instance_id == j)) [
    | inl s ↦ rw s (RunsOnly-removed id j vms hs)
    | inr n ↦ rw n (h, RunsOnly-removed id j vms hs)
  ]

-- The buttons of a row.
buttons-start :
    (vm : VmListItem) (id : String) (cs : List Control)
    → OffersIn none (each (control_button vm) cs) (reported (started id))
    → (vm.instance_id ≡ id) × (offers start cs ≡ true)
buttons-start vm id [] h = absurd h
buttons-start vm id (start ∷ cs) h = ground (arith, buttons-start vm id cs)
buttons-start vm id (stop ∷ cs) h = ground (arith, buttons-start vm id cs)
buttons-start vm id (config ∷ cs) h = ground (arith, buttons-start vm id cs)
buttons-start vm id (remove ∷ cs) h = ground (arith, buttons-start vm id cs)

module _ (w : Writing) (user : Option User) (student : is_professor_or_admin user ≡ false) where
  rows-start :
      (id : String) (all_vms vms : List VmListItem)
      → OffersIn none (each (vm_row w user all_vms) vms) (reported (started id))
      → nat_eq (running_vms_count w.lower all_vms) 0 ≡ true
  rows-start id all_vms [] h = absurd h
  rows-start id all_vms (vm ∷ vms) h = ground (
    arith,
    buttons-start vm id (controls w.lower user all_vms vm),
    (controls_lem w.lower user all_vms vm).0,
    student,
    rows-start id all_vms vms,
  )

  -- A start is offered only while no machine runs.
  offered-start :
      (id : String) (l : VmsTable)
      → Offers (vms_table w user l) (reported (started id))
      → nat_eq (running_vms_count w.lower l.vms) 0 ≡ true
  offered-start id l h = ground (arith, rows-start id l.vms l.vms)

  module _ (on_refresh : Action VmsTable (Unit {0})) (off : w.lower "shut off" ≡ "shut off")
      (fresh : Keeps (RunsOne w.lower) on_refresh) where
    abbrev set_refreshing : Bool → Action VmsTable (Unit {0})
    set_refreshing b = modify (λ t. record t { is_refreshing = b })

    refresh-Keeps : Keeps (RunsOne w.lower) (handle_refresh on_refresh)
    unfolding handle_refresh
    refresh-Keeps =
        Keeps-seq (set_refreshing true) (do on_refresh; set_refreshing false)
          (record { at = λ s h. h })
          (Keeps-seq on_refresh (set_refreshing false) fresh (record { at = λ s h. h }))

    respond-RunsOne :
        (e : TableEvent) (s : St VmsTable)
        → Offers (vms_table w user s.local) e
        → RunsOne w.lower s.local
        → RunsOne w.lower (respond on_refresh e s).1.local
    unfolding respond handle_start handle_stop handle_delete
    respond-RunsOne (reported (started id)) s o h =
        (id, RunsOnly-started w.lower id s.local.vms (offered-start id s.local o))
    respond-RunsOne (reported (stopped j)) s o (id, h) =
        (id, RunsOnly-stopped w.lower id j s.local.vms off h)
    respond-RunsOne (reported (deleted j)) s o (id, h) =
        (id, RunsOnly-removed w.lower id j s.local.vms h)
    respond-RunsOne refresh s o h = refresh-Keeps.at s h

    -- In any visit of the table by a user who is neither professor nor administrator, all rows shown
    -- as running are of one machine, if that is so at first and a refresh keeps it so. The case
    -- mapping leaves the status of a stopped machine as it is.
    pub Visit-RunsOne :
        {s t : St VmsTable}
        → RunsOne w.lower s.local
        → Visit (vms_table w user) (λ e _. respond on_refresh e) s t
        → RunsOne w.lower t.local
    Visit-RunsOne h opened = h
    Visit-RunsOne h (after {t = t} v e offered ends) =
        subst (λ (u : St VmsTable). RunsOne w.lower u.local) ends
          (respond-RunsOne e t offered (Visit-RunsOne h v))
