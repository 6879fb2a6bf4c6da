-- ===== src/Vm/Table.antt =====
-- The table of a user's machines: web-server/frontend/src/components/vm/VMsTable.tsx and the type of
-- its rows in web-server/frontend/src/types/vm.ts. The Unicode case mappings of the language are
-- parameters.
pub mod Rows
pub mod Pressed
pub mod Replay
pub mod View
use remote_labs.Prelude.{
  Bool, List, Option, String, [], false, filter, if◌then◌else◌, length, nat_eq, none, not, some,
  true, ℕ, ◌&&◌, ◌++◌, ◌==◌, ◌||◌, ◌∷◌,
}
use remote_labs.Js.Value.{str}
use remote_labs.Runtime.{Action, User, modify, ◌>>=◌, ◌>>◌}

-- The type also has an optional `template_description`, which this component never reads.
pub record VmListItem : Type 0 where
  pub instance_id : String
  pub status : String
  pub user_id : String
  pub subject_id : String
  pub template_id : String
  pub created_at : String
  pub user_mail : String
  pub subject_name : String
  pub template_description : String
  pub template_vcpu_count : ℕ
  pub template_vram_mb : ℕ
  pub template_size_mb : ℕ
  pub template_os : String

pub record VmsTable : Type 0 where
  pub vms : List VmListItem
  pub is_refreshing : Bool

-- What the last cell of a row offers.
pub data Control : Type 0 where
  start stop config remove : Control

-- `setVMs((prev) => prev.map(…))` with a new status for one machine.
abbrev pub with_status : String → String → List VmListItem → List VmListItem
with_status id status [] = []
with_status id status (vm ∷ vms) =
    (if vm.instance_id == id then record vm { status = status } else vm) ∷ with_status id status vms

unfoldable pub handle_delete : String → Action VmsTable (Unit {0})
handle_delete id = modify (λ t. record t { vms = filter (λ vm. not (vm.instance_id == id)) t.vms })

unfoldable pub handle_start : String → Action VmsTable (Unit {0})
handle_start id = modify (λ t. record t { vms = with_status id "running" t.vms })

unfoldable pub handle_stop : String → Action VmsTable (Unit {0})
handle_stop id = modify (λ t. record t { vms = with_status id "shut off" t.vms })

-- The effect on the rows that the parent gives.
abbrev pub sync_vms : List VmListItem → Action VmsTable (Unit {0})
sync_vms initial_vms = modify (λ t. record t { vms = initial_vms })

unfoldable pub handle_refresh : Action VmsTable (Unit {0}) → Action VmsTable (Unit {0})
handle_refresh on_refresh = do
  modify (λ t. record t { is_refreshing = true })
  on_refresh
  modify (λ t. record t { is_refreshing = false })

-- `user?.role === role`
abbrev pub has_role : String → Option User → Bool
has_role role none = false
has_role role (some u) = elim u.role [ str r ↦ r == role | _ ↦ false ]

abbrev pub is_professor_or_admin : Option User → Bool
is_professor_or_admin user = has_role "professor" user || has_role "admin" user

module _ (lower upper : String → String) where
  pub get_status_color : String → String
  get_status_color status =
      if lower status == "running"
      then "text-green-600"
      else if lower status == "idle"
      then "text-blue-600"
      else if lower status == "paused"
      then "text-yellow-600"
      else if lower status == "in shutdown"
      then "text-orange-600"
      else if lower status == "crashed"
      then "text-red-600"
      else if lower status == "shut off"
      then "text-gray-600"
      else if lower status == "pmsuspended"
      then "text-purple-600"
      else "text-gray-600"

  pub get_status_display : String → String
  get_status_display status =
      if lower status == "running"
      then "RUNNING"
      else if lower status == "idle"
      then "IDLE"
      else if lower status == "paused"
      then "PAUSED"
      else if lower status == "in shutdown"
      then "SHUTTING DOWN"
      else if lower status == "crashed"
      then "CRASHED"
      else if lower status == "shut off"
      then "SHUT OFF"
      else if lower status == "pmsuspended"
      then "SUSPENDED"
      else upper status

abbrev pub has_status : (String → String) → String → VmListItem → Bool
has_status lower status vm = lower vm.status == status

module _ (lower : String → String) where
  abbrev pub running_vms_count : List VmListItem → ℕ
  running_vms_count vms = length (filter (has_status lower "running") vms)

  abbrev pub can_start : Option User → List VmListItem → VmListItem → Bool
  can_start user vms vm =
      is_professor_or_admin user
      || nat_eq (running_vms_count vms) 0
      || has_status lower "running" vm

  -- The buttons of a row, in their order.
  unfoldable pub controls : Option User → List VmListItem → VmListItem → List Control
  controls user vms vm =
      (if has_status lower "shut off" vm && can_start user vms vm then start ∷ [] else [])
      ++ (if has_status lower "running" vm then stop ∷ [] else [])
      ++ config ∷ []
      ++ (if has_status lower "shut off" vm then remove ∷ [] else [])
