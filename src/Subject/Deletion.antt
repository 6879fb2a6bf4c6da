-- ===== src/Subject/Deletion.antt =====
-- Deleting a subject: the caller learns of every failure, and the form shows one.
use remote_labs.Prelude.{Bool, String, arith, false, if◌then◌else◌, none, not, refl, true, ◌≡◌}
use remote_labs.Js.Value.{is_empty, truthy}
use remote_labs.Js.Text.{replace}
use remote_labs.Env.{api_delete_subject, get_env}
use remote_labs.Runtime.{St, Thrown, accepted, error, is_thrown, json_request, other}
use remote_labs.Subject.{DeleteSubject, default_message, delete_subject, deletion_failed}

chosen_message : (m : String) → is_empty (if is_empty m then default_message else m) ≡ false
chosen_message m = chosen (is_empty m) refl
  where
    chosen : (b : Bool) → is_empty m ≡ b → is_empty (if b then default_message else m) ≡ false
    chosen true e = refl
    chosen false e = e

deletion_failed_lem :
    (t : Thrown) (s : St DeleteSubject)
    → (is_thrown (deletion_failed t s).0 ≡ true)
      × (truthy (deletion_failed t s).1.local.error_value ≡ true)
unfolding deletion_failed
deletion_failed_lem (error m) s = ground (arith, chosen_message m)
deletion_failed_lem (other v) s = ground arith

-- A deletion ends normally exactly if the server accepts it. Otherwise the handler throws and an
-- error is shown; the loading flag is cleared either way.
pub delete_subject_lem :
    (subject_id : String) (s : St DeleteSubject)
    → let r = delete_subject subject_id s in
      let url = replace (get_env s.world.api_url api_delete_subject) "{id}" subject_id in
      let verdict = accepted (s.world.net s.world.log (json_request "DELETE" url none)) in
      (is_thrown r.0 ≡ not verdict)
      × (r.1.local.is_loading ≡ false)
      × (truthy r.1.local.error_value ≡ not verdict)
unfolding delete_subject
delete_subject_lem subject_id s = grind (arith, deletion_failed_lem)
