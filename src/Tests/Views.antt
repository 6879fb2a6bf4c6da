-- ===== src/Tests/Views.antt =====
-- The pages and panels as a user sees them.
use remote_labs.Prelude.{
  All, Bool-cases, List, Option, String, [], arith, eq_iff, inr, subst, ◌==◌, false, if◌then◌else◌,
  inl, is_some, none, not, refl, some, true, ◌&&◌, ◌↔◌, ◌∷◌, ◌≡◌,
}
use remote_labs.Js.Value.{Value, arr, cons, nil, null, num, str, truthy}
use remote_labs.Js.Text.{decimal, includes, strip_prefix, to_text, units}
use remote_labs.Env.{api_base_url, api_remove_user_from_subject, get_env}
use remote_labs.Runtime.{Auth, Outcome, Reply, St, User, accepted, done, id_of, is_text, requested}
use remote_labs.Markup.{Markup, Offers, empty}
use remote_labs.Markup.Visit.{Visit, after, opened}
use remote_labs.Tests.Samples.{accepting, refusing, st, student}
use remote_labs.Password.{is_password_valid}
use remote_labs.Settings.{UserSettings, update_request}
use remote_labs.Settings.Submission.{is_accepted}
use remote_labs.Settings.Page as Settings
use remote_labs.Settings.Page.{SettingsPage, save, toggle_form, user_settings}
use remote_labs.Settings.Page.Laws.{cancel_lem, details_request}
use remote_labs.Roster.{Roster}
use remote_labs.Roster.Members.{Members, SubjectUser, has_instances}
use remote_labs.Roster.Members.Laws.{member_url_request}
use remote_labs.Roster.Members.Panel as MembersPanel
use remote_labs.Roster.Members.Panel.{is_removing, remove_member, subject_users_manager}
use remote_labs.Roster.Members.Removal
use remote_labs.Roster.Members.Removal.{removal_lem}
use remote_labs.Roster.Accounts.{Accounts, filtered_users, is_selected}
use remote_labs.Roster.Accounts.Panel as AccountsPanel
use remote_labs.Roster.Accounts.Panel.{user_manager}
use remote_labs.Roster.Accounts.Panel.Machines.{
  Notation, UserInstance, ask_delete, confirm_delete, no_rows,
}
use remote_labs.Roster.Accounts.Offered
use remote_labs.Roster.Accounts.Offered.{Visit-confirms, Offers-ask, panel}
use remote_labs.CreateSubject.Sheet.{ram_chosen}
use remote_labs.CreateSubject.Sheet.Sizes.{Between, IsSized}
use remote_labs.CreateSubject.Sheet.View as SheetView
use remote_labs.CreateSubject.Sheet.View.{SheetPage, create_subject_sheet}
use remote_labs.CreateSubject.Sheet.View.Parts.{Base, changed}
use remote_labs.CreateSubject.Sheet.Visits.{Visit-IsSized}
use remote_labs.Routes.{inner_routes, is_admin, outer_routes}
use remote_labs.Routes.Frame.{FrameEvent, follow, layout_of, sidebar_of, user_menu}
use remote_labs.Routes.Reachable.{Leads, Picks, in_routes, links_lem}

-- The settings with a weak password that is repeated.
abbrev settings_page : St SettingsPage
settings_page =
    st
      (record {
        settings = record {
          password = "pw";
          confirm_password = "pw";
          is_loading = false;
          error_text = none;
          success = none;
          ssh_keys = "old" ∷ [];
          new_ssh_key = "";
        };
        show_password_form = true;
      })
      accepting

abbrev as_written : String → String
as_written text = text

abbrev inner_settings : St UserSettings
inner_settings = record { local = settings_page.local.settings; world = settings_page.world }

abbrev closed_page : St SettingsPage
closed_page = (Settings.respond student toggle_form settings_page.local settings_page).1

cancel_lem_example :
    let out = Settings.respond student save closed_page.local closed_page in
    let q =
      update_request
        (get_env settings_page.world.api_url api_base_url)
        student
        settings_page.local.settings in
    (Offers (user_settings as_written settings_page.local) save
      ↔ (is_password_valid (units settings_page.local.settings.password) ≡ true))
    × Offers (user_settings as_written closed_page.local) save
    × (out.0 ≡ done tt)
    × (out.1.world.log ≡ (
        if is_accepted student settings_page.local.settings inner_settings && truthy (id_of student)
        then requested (details_request settings_page.world.api_url student)
          ∷ requested q
          ∷ settings_page.world.log
        else requested q ∷ settings_page.world.log))
cancel_lem_example = cancel_lem as_written student settings_page refl refl refl

abbrev roster : Roster
roster = record { rows = arr nil; loading = false; error_text = none }

abbrev listed : List SubjectUser
listed =
    record { id = "u1"; name = "Ada"; mail = "a@b"; role = "student" }
    ∷ record { id = "u2"; name = "Bo"; mail = "b@b"; role = "student" }
    ∷ []

abbrev members_panel : St Members
members_panel =
    st
      (record {
        users = roster;
        local_users = arr nil;
        show_add = false;
        add_email = "";
        add_loading = false;
        add_error = none;
        remove_loading = none;
        remove_error = none;
      })
      refusing

removal_lem_example :
    let out = MembersPanel.respond "s1" (remove_member "b@b") members_panel.local members_panel in
    let q =
      member_url_request api_remove_user_from_subject "DELETE" "s1" "b@b"
        members_panel.world.api_url in
    let later = out.1.local in
    (Offers (subject_users_manager [] student listed members_panel.local) (remove_member "b@b") ↔ (
      Removal.ListsOther student "b@b" listed
      × (has_instances [] "b@b" ≡ false)
      × (is_removing members_panel.local.remove_loading "b@b" ≡ false)))
    × (out.0 ≡ done tt)
    × (is_some later.remove_error
        ≡ not (accepted (members_panel.world.net members_panel.world.log q)))
    × (subject_users_manager [] student listed later
        ≡ subject_users_manager [] student listed (record later { remove_error = none }))
removal_lem_example = removal_lem [] student listed "s1" "b@b" members_panel

abbrev notation : Notation
notation = record {
  lower = as_written;
  upper = as_written;
  local_date = as_written;
  gigabytes = λ mb. "1";
}

abbrev accounts : St Accounts
accounts =
    st
      (record {
        users = roster;
        instances = roster;
        selected_user_id = none;
        is_refreshing = false;
        search_query = "";
        delete_loading = none;
        user_to_delete = none;
      })
      accepting

abbrev as_listed : Value → List SubjectUser
as_listed rows = listed

abbrev no_machines : Value → List UserInstance
no_machines rows = []

Offers-ask_example :
    Offers (user_manager notation student listed [] accounts.local) (ask_delete "u2") ↔ (
      Offered.ListsOther student "u2" (filtered_users as_written "" listed)
      × (no_rows (no_machines (str "")) ≡ true)
      × (is_selected accounts.local.delete_loading "u2" ≡ false))
Offers-ask_example = Offers-ask notation student listed [] accounts.local "u2" refl refl

abbrev asking : St Accounts
asking = (AccountsPanel.respond (ask_delete "u2") accounts.local accounts).1

asked : Visit (panel notation student as_listed no_machines) AccountsPanel.respond accounts asking
unfolding AccountsPanel.respond includes strip_prefix
asked = after opened (ask_delete "u2") (ground arith) refl

confirmable :
    Offers (panel notation student as_listed no_machines asking.local) (confirm_delete "u2")
unfolding AccountsPanel.respond
confirmable = ground arith

Visit-confirms_example : is_text "u2" (id_of student) ≡ false
Visit-confirms_example =
    Visit-confirms notation student as_listed no_machines {s = accounts} {t = asking} "u2" refl
      asked confirmable

abbrev sheet_page : St SheetPage
sheet_page =
    st
      (record {
        sheet = record {
          parent = record {
            is_open = true;
            loading = false;
            vm_username = "";
            vm_password = "";
            subject_name = "";
            subject_code = "";
            professor_emails = [];
            email_input = "";
            student_emails = "";
            error_text = "";
            code_error = "";
            customize_vm = true;
            template_description = "";
            base = "";
            vm_ram = "1";
            vm_cpu = "2";
            vm_storage = "1";
            invalid_student_emails = [];
            subject_name_error = "";
            subject_code_error = "";
            base_error = "";
          };
          is_creating = true;
          creation_error = none;
          bases = arr nil;
          is_loading_bases = false;
          bases_error = null;
          enrollment_errors = [];
          template = record { loading = false };
        };
        show_password = false;
      })
      accepting

abbrev no_bases : Value → List Base
no_bases rows = []

abbrev in_order : List (Value × Outcome Reply) → List (Value × Outcome Reply)
in_order answers = answers

sheet-IsSized : IsSized sheet_page.local.sheet.parent
unfolding to_text decimal Between
sheet-IsSized = record {
  cpu = (2, (refl, omega arith, omega arith));
  ram = (1, (refl, omega arith, omega arith));
  storage = (1, (refl, omega arith, omega arith));
}

abbrev larger : St SheetPage
larger =
    (SheetView.respond in_order student (changed (ram_chosen (to_text (num 2)))) sheet_page.local
      sheet_page).1

chosen_ram :
    Visit
      (λ p. create_subject_sheet student (no_bases p.sheet.bases) p)
      (SheetView.respond in_order student)
      sheet_page
      larger
unfolding SheetView.respond
chosen_ram = after opened (changed (ram_chosen (to_text (num 2)))) (ground arith) refl

Visit-IsSized_example : IsSized larger.local.sheet.parent
Visit-IsSized_example =
    Visit-IsSized in_order student no_bases {s = sheet_page} {t = larger} sheet-IsSized chosen_ram

-- A router that takes a pattern that is the path, and `*` for any other.
abbrev exact_pick : List String → String → Option String
exact_pick routes path =
    if in_routes path routes then some path else if in_routes "*" routes then some "*" else none

-- What holds of each pattern holds of a path that is one.
in_routes-All :
    (P : String → Type 0) (path : String) (routes : List String)
    → All P routes
    → in_routes path routes ≡ true
    → P path
in_routes-All P path [] h k = absurd (cc k)
in_routes-All P path (r ∷ rs) h k = elim (Bool-cases (r == path)) [
  | inl e ↦ subst P ((eq_iff r path).0 e) h.0
  | inr n ↦ in_routes-All P path rs h.1 (ground (arith, n, k))
]

exact-Picks : Picks exact_pick
exact-Picks = record {
  inner = λ path h. rw h refl;
  outer = λ path.
      in_routes-All (λ p. exact_pick outer_routes p ≡ some "*") path inner_routes
        (refl, (refl, (refl, (refl, (refl, (refl, (refl, (refl, tt))))))));
}

abbrev signed_in : Auth
signed_in = record { is_logged_in = true; user = student; is_loading = false }

abbrev first_letter : Value → Option String
first_letter name = some "A"

abbrev signed_in_user : User
signed_in_user = record {
  id = str "u1";
  name = str "Ada";
  mail = str "a@b";
  role = str "student";
  public_ssh_keys = arr (cons (str "ssh") nil);
}

abbrev footer : Markup FrameEvent
footer = user_menu first_letter as_written signed_in_user "A"

abbrev frame : Markup FrameEvent
frame =
    layout_of first_letter as_written false "/" empty
      (sidebar_of first_letter as_written student footer)

links_lem_example :
    Leads exact_pick exact-Picks signed_in refl refl "/mylabs"
    × (Offers frame (follow "/control-plane") ↔ (is_admin student ≡ true))
links_lem_example =
    links_lem exact_pick exact-Picks signed_in refl refl first_letter as_written false "/" "/mylabs"
      frame refl (ground arith)
