-- ===== src/Vm/Laws.antt =====
-- Each action on a machine sends one request, tells its result once, and ends its loading.
use remote_labs.Prelude.{Bool, String, arith, false, if◌then◌else◌, ◌≡◌}
use remote_labs.Js.Text.{replace}
use remote_labs.Env.{Endpoint, api_delete_instance, api_start_instance, api_stop_instance, get_env}
use remote_labs.Runtime.{
  Outcome, Request, St, accepted, done, note, plain_request, requested, toasted,
}
use remote_labs.Vm.{VmActions, delete_vm, failure, start_vm, stop_vm, success}

-- An action that sent `q`: it ends with the server's verdict, one toast tells it, the loading flag is
-- cleared and nothing else has changed.
abbrev pub Reports :
    Request → String → String → (Outcome Bool × St VmActions) → St VmActions → Type 0
Reports q yes_text no_text r s =
    let verdict = accepted (s.world.net s.world.log q) in
    (r.0 ≡ done verdict)
    × (r.1.local.is_loading ≡ false)
    × (r.1.world
        ≡ note (toasted (if verdict then success yes_text else failure no_text))
            (note (requested q) s.world))

-- Starting, stopping and deleting a machine each send one request and end with the server's
-- verdict on it, which one toast tells; the loading flag is cleared and nothing else is changed.
actions-Reports :
    (id : String) (s : St VmActions)
    → let url = λ (e : Endpoint). replace (get_env s.world.api_url e) "{instanceId}" id in
      Reports
        (plain_request "POST" (url api_start_instance))
        "VM started successfully"
        "Failed to start VM"
        (start_vm id s)
        s
      × Reports
          (plain_request "POST" (url api_stop_instance))
          "VM stopped successfully"
          "Failed to stop VM"
          (stop_vm id s)
          s
      × Reports
          (plain_request "DELETE" (url api_delete_instance))
          "VM deleted successfully"
          "Failed to delete VM"
          (delete_vm id s)
          s
unfolding start_vm stop_vm delete_vm
actions-Reports id s = (ground arith, ground arith, ground arith)
