-- ===== src/Tests/Buttons.antt =====
-- The tables and dialogues of machines and templates as a user sees them.
use remote_labs.Prelude.{List, [], arith, false, if◌then◌else◌, not, refl, some, true, ◌∷◌, ◌≡◌}
use remote_labs.Js.Value.{is_empty}
use remote_labs.Runtime.{Keeps, St, accepted, done, skip}
use remote_labs.Markup.{Offers}
use remote_labs.Markup.Visit.{Visit, after, opened}
use remote_labs.Tests.Samples.{student}
use remote_labs.Tests.Panels.{as_typed, lab, no_callback, panel, props}
use remote_labs.Tests.Machines.{same, table}
use remote_labs.CreateSubject.Sheet.View.Parts.{Base}
use remote_labs.Template.Manager.Laws.{definition_request}
use remote_labs.Template.Manager.View.{Template, create, manager_respond, subject_templates_manager}
use remote_labs.Template.Manager.View.Offered.{creation_lem, has_some}
use remote_labs.Vm.Request.{handle_username_change, validate_username}
use remote_labs.Vm.Request.Laws.{IsName, is_complete}
use remote_labs.Vm.Request.View as Request
use remote_labs.Vm.Request.View.{LabPage, request_lab_button, submit, username_typed}
use remote_labs.Vm.Request.View.Visits.{Visit-Closes}
use remote_labs.Vm.Selector.{
  TemplateSelector, handed, no_choice, template_picked, template_selector,
}
use remote_labs.Vm.Selector.Handed.{In, Reach, effect, given, handed_lem, mounted, picked, props_of}
use remote_labs.Vm.Table.{VmsTable, controls}
use remote_labs.Vm.Table.Replay.{started}
use remote_labs.Vm.Table.View as Table
use remote_labs.Vm.Table.View.{Writing, reported, vms_table}
use remote_labs.Vm.Table.View.Visits.{RunsOne, Visit-RunsOne}

abbrev one_base : List Base
one_base = record { base_id = "b1"; description = "Ubuntu" } ∷ []

abbrev no_templates : List Template
no_templates = []

creation_offered :
    Offers (subject_templates_manager (λ mb. "1") one_base no_templates panel.local) create
creation_offered = ground arith

creation_lem_example :
    let out = manager_respond "s1" create panel.local panel in
    let verdict = accepted (panel.world.net panel.world.log (definition_request "s1" panel)) in
    (panel.local.is_open ≡ true)
    × (has_some one_base ≡ true)
    × (out.0 ≡ done tt)
    × (out.1.local.selected_base ≡ (if verdict then "" else panel.local.selected_base))
    × (out.1.local.template_description
        ≡ (if verdict then "" else panel.local.template_description))
    × (out.1.local.is_open ≡ not verdict)
creation_lem_example = creation_lem (λ mb. "1") one_base no_templates "s1" panel creation_offered

-- The dialogue of a request before the name is typed.
abbrev lab_page : St (LabPage (Unit {0}))
lab_page = record {
  local = record { lab = record lab.local { username = "" }; show_password = false };
  world = lab.world;
}

abbrev named_page : St (LabPage (Unit {0}))
named_page =
    (Request.respond as_typed student props no_callback (username_typed "bob_2") lab_page.local
      lab_page).1

named :
    Visit
      (request_lab_button student)
      (Request.respond as_typed student props no_callback)
      lab_page
      named_page
unfolding Request.respond
named = after opened (username_typed "bob_2") (ground arith) refl

sendable : Offers (request_lab_button student named_page.local) submit
unfolding Request.respond handle_username_change validate_username
sendable = ground arith

no-IsName : IsName lab_page.local.lab.username
unfolding validate_username
no-IsName = refl

filled_in : is_empty named_page.local.lab.username ≡ false
unfolding Request.respond handle_username_change validate_username
filled_in = refl

Visit-Closes_example :
    let out =
      Request.respond as_typed student props no_callback submit named_page.local named_page in
    (is_complete student named_page.local.lab ≡ true)
    × (out.0 ≡ done tt)
    × (out.1.local.lab.loading ≡ false)
    × (out.1.local.lab.is_open ≡ false)
Visit-Closes_example =
    Visit-Closes as_typed student props no_callback {s = lab_page} {t = named_page} no-IsName named
      sendable filled_in

abbrev writing : Writing
writing = record { lower = same; upper = same; local_date = same; gigabytes = λ mb. "1" }

abbrev started_table : St VmsTable
started_table = (Table.respond skip (reported (started "i1")) table).1

start_pressed : Visit (vms_table writing student) (λ e _. Table.respond skip e) table started_table
unfolding Table.respond controls
start_pressed = after opened (reported (started "i1")) (ground arith) refl

refresh-Keeps : Keeps (RunsOne same) skip
refresh-Keeps = record { at = λ s h. h }

Visit-RunsOne_example : RunsOne same started_table.local
Visit-RunsOne_example =
    Visit-RunsOne writing student refl skip refl refresh-Keeps {s = table} {t = started_table}
      ("i1", (λ _. refl, tt)) start_pressed

abbrev small : Template
small = record { id = "t1"; description = "Ubuntu"; vcpu_count = 2; vram_mb = 1024; size_mb = 2048 }

picked_offered :
    Offers
      (template_selector (λ mb. "1") "s1" false (no_choice (small ∷ [])))
      (template_picked "t1")
unfolding handed
picked_offered = ground arith

-- A template is picked after the page has given its list again.
abbrev chosen_small : TemplateSelector
chosen_small = record { templates = small ∷ []; selected_template = "t1" }

chosen-Reach : Reach (λ mb. "1") "s1" true chosen_small
chosen-Reach = picked (effect (given (mounted []) (small ∷ []))) false "t1" picked_offered

handed-small : handed "s1" chosen_small ≡ some (props_of "s1" small)
unfolding handed
handed-small = refl

handed_lem_example : (t : Template) × (In t (small ∷ []) × (props_of "s1" small ≡ props_of "s1" t))
handed_lem_example =
    handed_lem (λ mb. "1") "s1" {l = chosen_small} (props_of "s1" small) chosen-Reach handed-small
