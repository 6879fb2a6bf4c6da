-- ===== src/Instance.antt =====
-- Requests for machines: web-server/frontend/src/hooks/useCreateInstance.ts, useRequestLab.ts,
-- useVMs.ts and useSubjectVMs.ts.
pub mod Shown
pub mod Requests
use remote_labs.Prelude.{
  Bool, List, Option, String, [], concat, false, if◌then◌else◌, none, not, some, true, ◌∷◌,
}
use remote_labs.Js.Value.{Fields, Value, arr, nil, obj, or_else, put_field, str, truthy}
use remote_labs.Js.Text.{replace, to_text}
use remote_labs.Env.{api_base_url, api_create_instance, api_get_instance_status}
use remote_labs.Runtime.{
  Action, Toast, User, api, as_list, error, fetch, fields, filter_each, finally, get_prop, id_of,
  is_text, json_request, keys_of, map_each, modify, plain_request, pure, requested, settle, spread,
  throw, toast, try_catch, when, ◌>>=◌, ◌>>◌,
}

-- The hooks with a loading flag alone.
pub record Loading : Type 0 where
  pub is_loading : Bool

abbrev pub set_is_loading : Bool → Action Loading (Unit {0})
set_is_loading b = modify (λ l. record l { is_loading = b })

-- `useCreateInstance`; the request is an object of these fields
unfoldable pub create_instance : Option User → Fields → Action Loading Value
create_instance user request = do
  when (not (truthy (id_of user))) (throw (error "User ID is required"))
  when (not (truthy (keys_of user))) (throw (error "SSH keys are required"))
  set_is_loading true
  finally
      (do
        url ← api api_create_instance
        response ← fetch (
            json_request "POST" url (
              some (
                obj (
                  put_field "publicSshKeys" (keys_of user)
                    (put_field "userId" (id_of user) request)))))
        when (not response.is_ok) (throw (error "Failed to create instance"))
        response_data ← settle response.json
        toast (record {
          title = "Success";
          description = "Instance created successfully";
          variant = "default";
        })
        pure response_data)
      (set_is_loading false)

-- `useRequestLab`
unfoldable pub request_lab : Option User → String → String → Action Loading Bool
request_lab user subject_id template_id =
    if truthy (id_of user)
    then (do
      set_is_loading true
      finally
          (try_catch
            (do
              url ← api api_create_instance
              response ← fetch (
                  json_request "POST" url (
                    some (
                      obj (
                        fields (
                          ("userId", id_of user)
                          ∷ ("subjectId", str subject_id)
                          ∷ ("templateId", str template_id)
                          ∷ [])))))
              when (not response.is_ok) (throw (error "Failed to request lab"))
              toast (record {
                title = "Success";
                description = "Lab requested successfully";
                variant = "";
              })
              pure true)
            (λ _. do
              toast (record {
                title = "Error";
                description = "Failed to request lab";
                variant = "destructive";
              })
              pure false))
          (set_is_loading false))
    else (do
      toast (record {
        title = "Error";
        description = "You must be logged in to request a lab";
        variant = "destructive";
      })
      pure false)

pub record VmList : Type 0 where
  pub vms : List Value
  pub loading : Bool

abbrev pub set_vms : List Value → Action VmList (Unit {0})
set_vms vms = modify (λ l. record l { vms = vms })

abbrev pub set_loading : Bool → Action VmList (Unit {0})
set_loading b = modify (λ l. record l { loading = b })

abbrev pub no_vms_found : Toast
no_vms_found = record { title = "Information"; description = "No VMs found"; variant = "default" }

-- `{ ...vm, templateDescription: vm.template_description || … }`
abbrev pub enriched : Value → Action VmList Value
enriched vm = do
  description ← get_prop "template_description" vm
  pure (
      obj (
        put_field "templateDescription" (or_else description (str "No description provided"))
          (spread vm)))

-- `useVMs`
unfoldable pub fetch_vms : Option User → Action VmList (Unit {0})
fetch_vms user =
    if truthy (id_of user)
    then (do
      set_loading true
      finally
          (try_catch
            (do
              pattern' ← api api_get_instance_status
              response ←
                  fetch
                    (json_request "GET" (replace pattern' "{userId}" (to_text (id_of user))) none)
              when (not response.is_ok) (throw (error "Failed to fetch VMs"))
              data' ← settle response.json
              vms ← as_list "map" (or_else data' (arr nil))
              enriched_data ← map_each enriched vms
              set_vms enriched_data)
            (λ _. do toast no_vms_found; set_vms []))
          (set_loading false))
    else (do set_vms []; set_loading false)

-- `vm.subjectId === subjectId`
abbrev pub of_subject : String → Value → Action VmList Bool
of_subject subject_id vm = do found ← get_prop "subjectId" vm; pure (is_text subject_id found)

-- `{ ...vm, templateDescription: vm.template_description }`
abbrev pub described : Value → Action VmList Value
described vm = do
  description ← get_prop "template_description" vm
  pure (obj (put_field "templateDescription" description (spread vm)))

-- The `try` block of `useSubjectVMs`.
abbrev pub load_subject_vms : Option User → String → Bool → Action VmList (Unit {0})
load_subject_vms user subject_id filter_by_user = do
  pattern' ← api api_get_instance_status
  base ← api api_base_url
  response ← fetch (
      plain_request "GET" (
        if filter_by_user
        then replace pattern' "{userId}" (to_text (id_of user))
        else concat base "/instances/status"))
  when (not response.is_ok) (throw (error "Failed to fetch VMs"))
  data' ← settle response.json
  vms ← as_list "filter" data'
  own ← filter_each (of_subject subject_id) vms
  subject_vms ← map_each described own
  set_vms subject_vms

-- `useSubjectVMs`; the flag is `options.filterByUser`
unfoldable pub fetch_subject_vms : Option User → String → Bool → Action VmList (Unit {0})
fetch_subject_vms user subject_id filter_by_user =
    if truthy (id_of user)
    then (do
      set_loading true
      finally
          (try_catch (load_subject_vms user subject_id filter_by_user) (λ _. toast no_vms_found))
          (set_loading false))
    else set_loading false
