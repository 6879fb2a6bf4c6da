-- ===== src/Template/Manager/Laws.antt =====
-- What the panels of templates show after a change.
use remote_labs.Prelude.{
  List, String, arith, concat, false, if◌then◌else◌, none, not, some, true, ◌∷◌, ◌≡◌,
}
use remote_labs.Js.Value.{Value, is_empty}
use remote_labs.Js.Text.{replace}
use remote_labs.Env.{api_base_url, api_delete_template, get_env}
use remote_labs.Runtime.{
  Action, Event, Request, St, accepted, done, is_thrown, json_request, plain_request, reloaded,
  requests, try_catch, ◌>>◌,
}
use remote_labs.Template.{
  DefineTemplate, Templates, define_template, delete_template, fetch_templates,
}
use remote_labs.Template.Deletion.{templates_request}
use remote_labs.Template.Manager.{
  DefineButton, TemplatesManager, close_and_reload, define_step, handle_create_template,
  handle_delete, submit_template, template_params,
}
use remote_labs.Roster.Changes.{is_succeeded}

-- The list is asked for once, and the rest of the world but the log stays.
fetch_templates-requests :
    (id : String) (s : St Templates)
    → ((fetch_templates id s).0 ≡ done tt)
      × (requests (fetch_templates id s).1.world.log
          ≡ templates_request s.world.api_url id ∷ requests s.world.log)
unfolding fetch_templates
fetch_templates-requests id s = ground arith

delete_template-requests :
    (subject_id template_id : String) (s : St Templates)
    → let r = delete_template subject_id template_id s in
      let q = plain_request "DELETE" (
        replace
          (replace (get_env s.world.api_url api_delete_template) "{templateId}" template_id)
          "{subjectId}"
          subject_id) in
      (is_thrown r.0 ≡ false)
      × (r.1.world.api_url ≡ s.world.api_url)
      × (is_succeeded r.0 ≡ accepted (s.world.net s.world.log q))
      × (requests r.1.world.log ≡ (
          if accepted (s.world.net s.world.log q)
          then templates_request s.world.api_url subject_id ∷ q ∷ requests s.world.log
          else q ∷ requests s.world.log))
unfolding delete_template fetch_templates
delete_template-requests subject_id template_id s = ground arith

-- A deletion ends normally with no row marked, and reports at the end. If the server accepts it, the
-- list is asked for twice, by the hook and by the panel; otherwise not at all.
handle_delete_lem :
    (subject_id template_id : String) (s : St TemplatesManager)
    → let out = handle_delete subject_id template_id s in
      let q = plain_request "DELETE" (
        replace
          (replace (get_env s.world.api_url api_delete_template) "{templateId}" template_id)
          "{subjectId}"
          subject_id) in
      let reload_list = templates_request s.world.api_url subject_id in
      (out.0 ≡ done tt)
      × (out.1.local.deleting ≡ none)
      × (requests out.1.world.log ≡ (
          if accepted (s.world.net s.world.log q)
          then reload_list ∷ reload_list ∷ q ∷ requests s.world.log
          else q ∷ requests s.world.log))
unfolding handle_delete
handle_delete_lem subject_id template_id s =
    grind (arith, delete_template-requests, fetch_templates-requests)

-- A definition fails exactly if the server does not accept it.
define_template-verdict :
    (params : Value) (s : St DefineTemplate)
    → is_thrown (define_template params s).0
      ≡ not (
          accepted (
            s.world.net s.world.log (
              json_request "POST"
                (concat (get_env s.world.api_url api_base_url) "/templates/define")
                (some params))))
unfolding define_template
define_template-verdict params s = ground arith

-- The definition that the panel asks for.
abbrev pub definition_request : String → St TemplatesManager → Request
definition_request subject_id s =
    json_request "POST" (concat (get_env s.world.api_url api_base_url) "/templates/define") (
      some (
        template_params s.local.selected_base (s.world.scaled_int s.local.vm_storage 1024)
          (s.world.scaled_int s.local.vm_cpu 1) (s.world.scaled_int s.local.vm_ram 1024) subject_id
          s.local.template_description))

-- With a base and a description, the submission ends normally; the form is emptied and closed if the
-- server accepts the definition, and otherwise keeps what was entered, to be sent again.
pub handle_create_template_lem :
    (subject_id : String) (s : St TemplatesManager)
    → is_empty s.local.selected_base ≡ false
    → is_empty s.local.template_description ≡ false
    → let out = handle_create_template subject_id s.local s in
      let verdict = accepted (s.world.net s.world.log (definition_request subject_id s)) in
      (out.0 ≡ done tt)
      × (out.1.local.selected_base ≡ (if verdict then "" else s.local.selected_base))
      × (out.1.local.template_description ≡ (if verdict then "" else s.local.template_description))
      × (out.1.local.is_open ≡ (if verdict then false else s.local.is_open))
unfolding handle_create_template
handle_create_template_lem subject_id s b d =
    grind (arith, define_template-verdict, fetch_templates-requests)

-- Whatever the body does, the button is closed and the page is loaded again.
define_closes :
    (m : Action DefineButton (Unit {0})) (s : St DefineButton)
    → let out = try_catch (do m; close_and_reload) (λ _. close_and_reload) s in
      (out.0 ≡ done tt)
      × (out.1.local.is_open ≡ false)
      × (out.1.local.loading ≡ false)
      × (out.1.world.log ≡ reloaded ∷ (m s).1.world.log)
define_closes m s = ground arith

-- A submission of the button ends normally, closes it and loads the page again, whatever the server
-- answers: a refusal is not told to the user.
submit_template_lem :
    (instance_id subject_id : String) (s : St DefineButton)
    → let out = submit_template instance_id subject_id s.local s in
      (out.0 ≡ done tt)
      × (out.1.local.is_open ≡ false)
      × (out.1.local.loading ≡ false)
      × ((es : List Event) × (out.1.world.log ≡ reloaded ∷ es))
unfolding submit_template
submit_template_lem instance_id subject_id s =
    let (e, o, l, w) =
      define_closes (define_step instance_id subject_id s.local)
        (record s { local = record s.local { loading = true } }) in
    (e, o, l, (_, w))
