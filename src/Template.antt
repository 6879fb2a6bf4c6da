-- ===== src/Template.antt =====
-- Templates of machines: web-server/frontend/src/hooks/useDefineTemplate.ts and useTemplates.ts.
pub mod Deletion
pub mod Manager
use remote_labs.Prelude.{Bool, String, concat, false, if◌then◌else◌, none, not, some, true}
use remote_labs.Js.Value.{Value, is_empty, text_or}
use remote_labs.Js.Text.{replace}
use remote_labs.Env.{api_base_url, api_delete_template, api_get_templates}
use remote_labs.Runtime.{
  Action, Result, api, error, failed, fetch, finally, json_request, message_or, modify,
  plain_request, pure, settle, skip, succeeded, throw, toast, try_catch, when, ◌>>=◌, ◌>>◌,
}

pub record DefineTemplate : Type 0 where
  pub loading : Bool

abbrev pub set_loading : Bool → Action DefineTemplate (Unit {0})
set_loading b = modify (λ l. record l { loading = b })

-- An exception passes through, and the flag is cleared.
unfoldable pub define_template : Value → Action DefineTemplate (Unit {0})
define_template params = do
  set_loading true
  finally
      (do
        base ← api api_base_url
        response ← fetch (json_request "POST" (concat base "/templates/define") (some params))
        if response.is_ok then skip else (do
          error_data ← settle response.text
          throw (error (text_or error_data "Failed to create template")))
        toast (record {
          title = "Template created";
          description = "The template has been created successfully.";
          variant = "";
        }))
      (set_loading false)

-- `useTemplates`; `rows` is the state `templates`, as the server sent it.
pub record Templates : Type 0 where
  pub rows : Value
  pub loading : Bool

unfoldable pub fetch_templates : String → Action Templates (Unit {0})
fetch_templates subject_id =
    finally
      (try_catch
        (do
          modify (λ l. record l { loading = true })
          pattern' ← api api_get_templates
          response ← fetch (json_request "GET" (replace pattern' "{subjectId}" subject_id) none)
          when (not response.is_ok) (throw (error "Failed to fetch templates"))
          data' ← settle response.json
          modify (λ l. record l { rows = data' }))
        (λ _. toast (record {
          title = "Error";
          description = "Failed to load templates";
          variant = "destructive";
        })))
      (modify (λ l. record l { loading = false }))

unfoldable pub delete_template : String → String → Action Templates Result
delete_template subject_id template_id =
    try_catch
      (do
        pattern' ← api api_delete_template
        response ← fetch (
            plain_request "DELETE"
              (replace (replace pattern' "{templateId}" template_id) "{subjectId}" subject_id))
        if not response.is_ok
            then (do
              error_text ← settle response.text
              pure (
                  failed (if is_empty error_text then "Failed to delete template" else error_text)))
            else (do fetch_templates subject_id; pure succeeded))
      (λ t. pure (failed (message_or "Unknown error" t)))
