-- ===== src/Template/Deletion.antt =====
-- Deleting a template: the list that is shown afterwards is the one that the server then sends.
use remote_labs.Prelude.{Option, String, arith, false, none, true, ◌∷◌, ◌≡◌}
use remote_labs.Js.Value.{Value}
use remote_labs.Js.Text.{replace}
use remote_labs.Env.{api_delete_template, api_get_templates, get_env}
use remote_labs.Runtime.{
  Outcome, Reply, Request, St, accepted, done, is_thrown, json_request, plain_request, requested,
  thrown,
}
use remote_labs.Roster.Changes.{is_succeeded}
use remote_labs.Template.{Templates, delete_template, fetch_templates}

abbrev pub templates_request : Option String → String → Request
templates_request vite subject_id =
    json_request "GET" (replace (get_env vite api_get_templates) "{subjectId}" subject_id) none

-- The list in a reply that was read without failure, and `old` otherwise.
abbrev pub body_or : Value → Outcome Reply → Value
body_or old (thrown t) = old
body_or old (done r) = elim (r.is_ok) [
  | true ↦ elim (r.json) [ done v ↦ v | thrown t ↦ old ]
  | false ↦ old
]

fetch_templates_lem :
    (id : String) (s : St Templates)
    → ((fetch_templates id s).0 ≡ done tt)
      × ((fetch_templates id s).1.local ≡ record {
        rows =
            body_or s.local.rows (s.world.net s.world.log (templates_request s.world.api_url id));
        loading = false;
      })
unfolding fetch_templates
fetch_templates_lem id s = ground arith

-- A deletion ends normally, with success exactly if the server accepts it. The list shown then is the
-- one that the server sends after the deletion, or the former one if that cannot be read; after a
-- refusal the state is as it was.
delete_template_lem :
    (subject_id template_id : String) (s : St Templates)
    → let r = delete_template subject_id template_id s in
      let q = plain_request "DELETE" (
        replace
          (replace (get_env s.world.api_url api_delete_template) "{templateId}" template_id)
          "{subjectId}"
          subject_id) in
      let verdict = accepted (s.world.net s.world.log q) in
      (is_thrown r.0 ≡ false)
      × (is_succeeded r.0 ≡ verdict)
      × ((verdict ≡ true)
          → r.1.local ≡ record {
            rows = body_or s.local.rows (
                s.world.net
                  (requested q ∷ s.world.log)
                  (templates_request s.world.api_url subject_id));
            loading = false;
          })
      × ((verdict ≡ false) → r.1.local ≡ s.local)
unfolding delete_template
delete_template_lem subject_id template_id s = grind (arith, fetch_templates_lem)
