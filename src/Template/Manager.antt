-- ===== src/Template/Manager.antt =====
-- The panels that define templates: web-server/frontend/src/components/subject/
-- SubjectTemplatesManager.tsx and components/vm/DefineTemplateButton.tsx. Each holds the states of the
-- hooks it uses.
pub mod Laws
pub mod Define
pub mod View
use remote_labs.Prelude.{
  Bool, Option, String, [], false, if◌then◌else◌, none, some, true, ℕ, ◌*◌, ◌||◌, ◌∷◌,
}
use remote_labs.Js.Value.{Value, arr, bool, is_empty, num, obj, str, text_or}
use remote_labs.Env.{api_bases}
use remote_labs.Runtime.{
  Action, Result, api, error, failed, fetch, fields, finally, message_or, modify, plain_request,
  reload, scaled, settle, succeeded, toast, try_catch, when, zoom, ◌>>=◌, ◌>>◌,
}
use remote_labs.Template.{
  DefineTemplate, Templates, define_template, delete_template, fetch_templates,
}

pub record TemplatesManager : Type 0 where
  pub templates : Templates
  pub defining : DefineTemplate
  pub deleting : Option String
  pub is_open : Bool
  pub bases : Value
  pub is_loading_bases : Bool
  pub selected_base : String
  pub template_description : String
  pub vm_ram : String
  pub vm_cpu : String
  pub vm_storage : String

-- The hook `useTemplates` of the panel, and `useDefineTemplate`.
abbrev pub in_templates : {A : Type 0} → Action Templates A → Action TemplatesManager A
in_templates = zoom (λ l. l.templates) (λ t l. record l { templates = t })

abbrev pub in_defining : {A : Type 0} → Action DefineTemplate A → Action TemplatesManager A
in_defining = zoom (λ l. l.defining) (λ d l. record l { defining = d })

-- `Array.isArray(v)`
abbrev pub is_array : Value → Bool
is_array (arr vs) = true
is_array v = false

-- `fetchBases`: the answer's status is not looked at.
unfoldable pub load_bases : Action TemplatesManager (Unit {0})
load_bases =
    finally
      (try_catch
        (do
          url ← api api_bases
          response ← fetch (plain_request "GET" url)
          data' ← settle response.json
          when (is_array data') (modify (λ l. record l { bases = data' })))
        (λ _. toast (record {
          title = "Error";
          description = "Failed to load bases";
          variant = "destructive";
        })))
      (modify (λ l. record l { is_loading_bases = false }))

abbrev pub report_deletion : String → Result → Action TemplatesManager (Unit {0})
report_deletion subject_id succeeded = do
  in_templates (fetch_templates subject_id)
  toast (record {
    title = "Template deleted";
    description = "Template deleted successfully.";
    variant = "";
  })
report_deletion subject_id (failed e) =
    toast
      (record { title = "Error"; description = text_or e "Unknown error"; variant = "destructive" })

unfoldable pub handle_delete : String → String → Action TemplatesManager (Unit {0})
handle_delete subject_id template_id = do
  modify (λ l. record l { deleting = some template_id })
  result ← in_templates (delete_template subject_id template_id)
  modify (λ l. record l { deleting = none })
  report_deletion subject_id result

-- What both panels send to `defineTemplate`.
abbrev pub template_params : String → Value → Value → Value → String → String → Value
template_params source size vcpus vram subject_id description = obj (
    fields (
      ("sourceInstanceId", str source)
      ∷ ("sizeMB", size)
      ∷ ("vcpuCount", vcpus)
      ∷ ("vramMB", vram)
      ∷ ("subjectId", str subject_id)
      ∷ ("description", str description)
      ∷ ("isValidated", bool true)
      ∷ []))

-- The form after a definition.
abbrev pub reset_form : TemplatesManager → TemplatesManager
reset_form l = record l {
  selected_base = "";
  template_description = "";
  vm_ram = "1";
  vm_cpu = "2";
  vm_storage = "2";
  is_open = false;
}

-- `r` is the state that was last rendered.
unfoldable pub handle_create_template :
    String → TemplatesManager → Action TemplatesManager (Unit {0})
handle_create_template subject_id r =
    if is_empty r.selected_base || is_empty r.template_description
    then toast (record {
      title = "Error";
      description = "Please fill in all required fields";
      variant = "destructive";
    })
    else try_catch
        (do
          size ← scaled r.vm_storage 1024
          vcpus ← scaled r.vm_cpu 1
          vram ← scaled r.vm_ram 1024
          in_defining (
              define_template
                (template_params r.selected_base size vcpus vram subject_id r.template_description))
          in_templates (fetch_templates subject_id)
          toast (record {
            title = "Success";
            description = "Template created successfully";
            variant = "";
          })
          modify reset_form)
        (λ t. toast (record {
          title = "Error";
          description = message_or "An unexpected error occurred" t;
          variant = "destructive";
        }))

-- The button of `DefineTemplateButton`.
pub record DefineButton : Type 0 where
  pub is_open : Bool
  pub description : String
  pub vcpu_count : ℕ
  pub vram_gb : ℕ
  pub size_gb : ℕ
  pub loading : Bool
  pub defining : DefineTemplate

-- The end of both the `try` and the `catch` block.
abbrev pub close_and_reload : Action DefineButton (Unit {0})
close_and_reload = do modify (λ l. record l { loading = false; is_open = false }); reload

-- What the `try` block waits for.
abbrev pub define_step : String → String → DefineButton → Action DefineButton (Unit {0})
define_step instance_id subject_id r =
    zoom (λ l. l.defining) (λ d l. record l { defining = d })
      (define_template (
        template_params instance_id (num (r.size_gb * 1024)) (num r.vcpu_count)
          (num (r.vram_gb * 1024)) subject_id r.description))

unfoldable pub submit_template : String → String → DefineButton → Action DefineButton (Unit {0})
submit_template instance_id subject_id r = do
  modify (λ l. record l { loading = true })
  try_catch (do define_step instance_id subject_id r; close_and_reload) (λ _. close_and_reload)
