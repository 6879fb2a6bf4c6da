-- ===== src/Env.antt =====
-- The addresses of the REST API: web-server/frontend/src/utils/Env.ts.
pub mod Urls
use remote_labs.Prelude.{Option, String, concat, if◌then◌else◌, none, some, ◌/◌, ◌==◌}

-- The keys of the object that `getEnv` returns.
pub data Endpoint : Type 0 where
  api_base_url api_create_user api_create_professor api_create_subject api_validate_user api_bases
        api_enroll_user_in_subject api_remove_user_from_subject api_create_instance
        api_create_template api_delete_subject api_delete_instance api_get_instance_status
        api_get_instance api_start_instance api_stop_instance api_get_subject api_get_templates
        api_get_wireguard api_delete_template api_get_subjects api_verify_email
        api_get_server_status api_renew_session :
      Endpoint

-- What follows the base of each address.
abbrev pub path : Endpoint → String
path api_base_url = ""
path api_create_user = "/users"
path api_create_professor = "/users/professors"
path api_create_subject = "/subjects"
path api_validate_user = "/users/validate"
path api_bases = "/bases"
path api_enroll_user_in_subject = "/subjects/{subjectId}/add/users/{userEmail}"
path api_remove_user_from_subject = "/subjects/{subjectId}/remove/users/{userEmail}"
path api_create_instance = "/instances/create"
path api_create_template = "/templates/define"
path api_delete_subject = "/subjects/{id}"
path api_delete_instance = "/instances/delete/{instanceId}"
path api_get_instance_status = "/instances/status/{userId}"
path api_get_instance = "/instances/{instanceId}"
path api_start_instance = "/instances/start/{instanceId}"
path api_stop_instance = "/instances/stop/{instanceId}"
path api_get_subject = "/subjects/{id}"
path api_get_templates = "/templates/subjects/{subjectId}"
path api_get_wireguard = "/instances/wireguard/{instanceId}"
path api_delete_template = "/templates/delete/{templateId}/{subjectId}"
path api_get_subjects = "/subjects"
path api_verify_email = "/verify-email/{token}"
path api_get_server_status = "/servers/status"
path api_renew_session = "/sessions/renew/{token}"

-- `VITE_API_URL || 'http://localhost:8080'`; an undefined variable is `none`.
abbrev pub base_url : Option String → String
base_url none = "http://localhost:8080"
base_url (some u) = if u == "" then "http://localhost:8080" else u

abbrev pub get_env : Option String → Endpoint → String
get_env vite e = concat (base_url vite) (path e)
