-- ===== src/Vm/Buttons.antt =====
-- The buttons of one machine: VMStartButton.tsx, VMStopButton.tsx and VMDeleteButton.tsx of
-- web-server/frontend/src/components/vm.
use remote_labs.Prelude.{Bool, Option, String, false, none, some, true}
use remote_labs.Runtime.{Action, finally, modify, set_busy, skip, zoom, ◌>>=◌, ◌>>◌}
use remote_labs.Vm.{VmActions, delete_vm, start_vm, stop_vm}

-- The state of a button with its own `useVMActions`; the confirmation is the start button's.
pub record Button : Type 0 where
  pub actions : VmActions
  pub local_loading : Bool
  pub show_confirm_dialog : Bool

-- A button inside the component that renders it and that gave it its `onSuccess`.
pub record Within (P : Type 0) : Type 0 where
  pub parent : P
  pub button : Button

module _ {P : Type 0} where
  abbrev pub set_local_loading : Bool → Action (Within P) (Unit {0})
  set_local_loading b = modify (λ l. record l { button = record l.button { local_loading = b } })

  abbrev pub with_actions : {A : Type 0} → Action VmActions A → Action (Within P) A
  with_actions =
      zoom (λ l. l.button.actions) (λ a l. record l { button = record l.button { actions = a } })

  -- `if (onSuccess) onSuccess()`
  abbrev pub call : Option (Action P (Unit {0})) → Action (Within P) (Unit {0})
  call none = skip
  call (some on_success) = zoom (λ l. l.parent) (λ p l. record l { parent = p }) on_success

  unfoldable pub handle_start : String → Option (Action P (Unit {0})) → Action (Within P) (Unit {0})
  handle_start instance_id on_success = do
    set_busy true
    set_local_loading true
    finally (with_actions (start_vm instance_id) >>= λ _. call on_success)
        (do set_busy false; set_local_loading false)

  unfoldable pub handle_stop : String → Option (Action P (Unit {0})) → Action (Within P) (Unit {0})
  handle_stop instance_id on_success = do
    set_busy true
    set_local_loading true
    finally (with_actions (stop_vm instance_id) >>= λ _. call on_success)
        (do set_busy false; set_local_loading false)

  unfoldable pub handle_delete :
      String → Option (Action P (Unit {0})) → Action (Within P) (Unit {0})
  handle_delete instance_id on_success = do
    set_busy true
    set_local_loading true
    finally (with_actions (delete_vm instance_id) >>= λ _. call on_success)
        (do set_busy false; set_local_loading false)

  -- The button of the confirmation.
  unfoldable pub confirm_start :
      String → Option (Action P (Unit {0})) → Action (Within P) (Unit {0})
  confirm_start instance_id on_success = do
    modify (λ l. record l { button = record l.button { show_confirm_dialog = false } })
    handle_start instance_id on_success
