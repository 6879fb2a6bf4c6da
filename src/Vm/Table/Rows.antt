-- ===== src/Vm/Table/Rows.antt =====
-- Which buttons the rows of VMsTable.tsx offer, and what the local updates do to the rows.
use remote_labs.Prelude.{
  Bool, Bool-cases, List, Option, String, [], arith, eq_iff, false, if◌then◌else◌, inl, inr,
  is_some, nat_eq, none, refl, some, true, ◌&&◌, ◌++◌, ◌<◌, ◌==◌, ◌||◌, ◌∷◌, ◌≡◌,
}
use remote_labs.Runtime.{St, User}
use remote_labs.Vm.Table.{
  Control, VmListItem, VmsTable, config, controls, handle_start, has_status, is_professor_or_admin,
  remove, running_vms_count, start, stop, with_status,
}

abbrev pub control_eq : Control → Control → Bool
control_eq start start = true
control_eq stop stop = true
control_eq config config = true
control_eq remove remove = true
control_eq _ _ = false

abbrev pub offers : Control → List Control → Bool
offers c [] = false
offers c (d ∷ ds) = control_eq d c || offers c ds

-- A text is one status at most.
off-ne-running : (s : String) → (s == "shut off") ≡ true → (s == "running") ≡ false
off-ne-running s h = rw ((eq_iff s "shut off").0 h) refl

controls_of_tests :
    (off run staff idle : Bool)
    → (off ≡ true → run ≡ false)
    → let cs =
        (if off && (staff || idle || run) then start ∷ [] else [])
        ++ (if run then stop ∷ [] else [])
        ++ config ∷ []
        ++ (if off then remove ∷ [] else []) in
      (offers start cs ≡ (off && (staff || idle)))
      × (offers stop cs ≡ run)
      × (offers remove cs ≡ off)
      × (offers config cs ≡ true)
controls_of_tests false false staff idle h = (refl, refl, refl, refl)
controls_of_tests false true staff idle h = (refl, refl, refl, refl)
controls_of_tests true true staff idle h = absurd (cc (h refl))
controls_of_tests true false true idle h = (refl, refl, refl, refl)
controls_of_tests true false false true h = (refl, refl, refl, refl)
controls_of_tests true false false false h = (refl, refl, refl, refl)

-- A machine can be started exactly where it is shut off and its viewer is a professor or an
-- administrator or has no machine running, stopped exactly where it runs, and deleted exactly where
-- it is shut off; its configuration is always offered.
pub controls_lem :
    (lower : String → String) (user : Option User) (vms : List VmListItem) (vm : VmListItem)
    → let cs = controls lower user vms vm in
      let off = has_status lower "shut off" vm in
      (offers start cs
        ≡ (off && (is_professor_or_admin user || nat_eq (running_vms_count lower vms) 0)))
      × (offers stop cs ≡ has_status lower "running" vm)
      × (offers remove cs ≡ off)
      × (offers config cs ≡ true)
unfolding controls
controls_lem lower user vms vm =
    controls_of_tests (has_status lower "shut off" vm) (has_status lower "running" vm)
      (is_professor_or_admin user) (nat_eq (running_vms_count lower vms) 0)
      (off-ne-running (lower vm.status))

-- The status that the table shows for a machine, if it is there.
abbrev pub status_of : String → List VmListItem → Option String
status_of id [] = none
status_of id (vm ∷ vms) = if vm.instance_id == id then some vm.status else status_of id vms

-- Somebody in the table runs.
has_running :
    (lower : String → String) (id : String) (vms : List VmListItem)
    → lower "running" ≡ "running"
    → is_some (status_of id vms) ≡ true
    → 0 < running_vms_count lower (with_status id "running" vms)
has_running lower id [] e h = absurd (cc h)
has_running lower id (vm ∷ vms) e h = elim (Bool-cases (vm.instance_id == id)) [
  | inl same ↦ rw same (rw e (omega arith))
  | inr differ ↦ rw differ (ground (arith, has_running lower id vms e))
]

-- For a viewer who is neither professor nor administrator, once a machine of the table is shown
-- as started, no row has a start button. The case mapping leaves `running` as it is.
pub one_at_a_time :
    (lower : String → String) (user : Option User) (id : String) (s : St VmsTable) (vm : VmListItem)
    → lower "running" ≡ "running"
    → is_professor_or_admin user ≡ false
    → is_some (status_of id s.local.vms) ≡ true
    → offers start (controls lower user (handle_start id s).1.local.vms vm) ≡ false
unfolding handle_start
one_at_a_time lower user id s vm e student there =
    let shown = with_status id "running" s.local.vms in
    ground (arith, (controls_lem lower user shown vm).0, has_running lower id s.local.vms e there)
