-- ===== src/Instance/Requests.antt =====
-- The requests for machines: what is sent, and what a refusal does.
use remote_labs.Prelude.{Option, String, [], arith, false, some, true, ◌&&◌, ◌∷◌, ◌≡◌}
use remote_labs.Js.Value.{Fields, obj, str, truthy}
use remote_labs.Env.{api_create_instance, get_env}
use remote_labs.Runtime.{
  Request, St, Toast, User, accepted, done, fields, id_of, is_thrown, json_request, keys_of, note,
  toasted,
}
use remote_labs.Instance.{Loading, create_instance, request_lab}

-- The request for the lab of a template.
abbrev pub lab_request : Option String → Option User → String → String → Request
lab_request vite user subject_id template_id =
    json_request "POST" (get_env vite api_create_instance) (
      some (
        obj (
          fields (
            ("userId", id_of user)
            ∷ ("subjectId", str subject_id)
            ∷ ("templateId", str template_id)
            ∷ []))))

abbrev pub must_log_in : Toast
must_log_in = record {
  title = "Error";
  description = "You must be logged in to request a lab";
  variant = "destructive";
}

-- For a user with an identifier, asking for a lab ends with the server's verdict on the request,
-- and with the flag cleared; without one it ends with `false` and does nothing but show a toast.
request_lab_lem :
    (user : Option User) (subject_id template_id : String) (s : St Loading)
    → let r = request_lab user subject_id template_id s in
      let q = lab_request s.world.api_url user subject_id template_id in
      ((truthy (id_of user) ≡ true)
        → (r.0 ≡ done (accepted (s.world.net s.world.log q))) × (r.1.local.is_loading ≡ false))
      × ((truthy (id_of user) ≡ false)
          → (r.0 ≡ done false)
            × (r.1.local ≡ s.local)
            × (r.1.world ≡ note (toasted must_log_in) s.world))
unfolding request_lab
request_lab_lem user subject_id template_id s = ground arith

-- A machine is asked for only with a user who has an identifier and keys: otherwise the handler
-- throws with its state and the world as they were; and the flag is cleared however it ends.
create_instance_lem :
    (user : Option User) (request : Fields) (s : St Loading)
    → let r = create_instance user request s in
      ((truthy (id_of user) && truthy (keys_of user)) ≡ false → (is_thrown r.0 ≡ true) × (r.1 ≡ s))
      × (s.local.is_loading ≡ false → r.1.local.is_loading ≡ false)
unfolding create_instance
create_instance_lem user request s = ground arith
