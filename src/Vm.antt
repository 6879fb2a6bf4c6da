-- ===== src/Vm.antt =====
-- Starting, stopping and deleting machines: web-server/frontend/src/hooks/useVMActions.ts.
pub mod Laws
pub mod Buttons
pub mod Table
pub mod View
pub mod Selector
pub mod Request
pub mod Instances
pub mod Details
use remote_labs.Prelude.{Bool, String, false, not, true}
use remote_labs.Js.Text.{replace}
use remote_labs.Env.{api_delete_instance, api_start_instance, api_stop_instance}
use remote_labs.Runtime.{
  Action, Toast, api, error, fetch, finally, modify, plain_request, pure, throw, toast, try_catch,
  when, ◌>>=◌, ◌>>◌,
}

pub record VmActions : Type 0 where
  pub is_loading : Bool

abbrev pub set_is_loading : Bool → Action VmActions (Unit {0})
set_is_loading b = modify (λ l. record l { is_loading = b })

abbrev pub success : String → Toast
success text = record { title = "Success"; description = text; variant = "" }

abbrev pub failure : String → Toast
failure text = record { title = "Error"; description = text; variant = "destructive" }

unfoldable pub start_vm : String → Action VmActions Bool
start_vm instance_id = do
  set_is_loading true
  finally
      (try_catch
        (do
          pattern' ← api api_start_instance
          response ← fetch (plain_request "POST" (replace pattern' "{instanceId}" instance_id))
          when (not response.is_ok) (throw (error "Failed to start VM"))
          toast (success "VM started successfully")
          pure true)
        (λ _. do toast (failure "Failed to start VM"); pure false))
      (set_is_loading false)

unfoldable pub stop_vm : String → Action VmActions Bool
stop_vm instance_id = do
  set_is_loading true
  finally
      (try_catch
        (do
          pattern' ← api api_stop_instance
          response ← fetch (plain_request "POST" (replace pattern' "{instanceId}" instance_id))
          when (not response.is_ok) (throw (error "Failed to stop VM"))
          toast (success "VM stopped successfully")
          pure true)
        (λ _. do toast (failure "Failed to stop VM"); pure false))
      (set_is_loading false)

unfoldable pub delete_vm : String → Action VmActions Bool
delete_vm instance_id = do
  set_is_loading true
  finally
      (try_catch
        (do
          pattern' ← api api_delete_instance
          response ← fetch (plain_request "DELETE" (replace pattern' "{instanceId}" instance_id))
          when (not response.is_ok) (throw (error "Failed to delete VM"))
          toast (success "VM deleted successfully")
          pure true)
        (λ _. do toast (failure "Failed to delete VM"); pure false))
      (set_is_loading false)
