-- ===== src/Tests/Panels.antt =====
-- The panels of templates, members and requests.
use remote_labs.Prelude.{List, Option, String, [], false, none, refl, true, ◌∷◌, ◌≡◌}
use remote_labs.Js.Value.{arr, nil}
use remote_labs.Runtime.{Action, St}
use remote_labs.Tests.Samples.{down, refusing, st, student}
use remote_labs.Vm.Request.{LabProps, RequestLab, validate_username}
use remote_labs.Vm.Request.Laws.{IsName, is_complete}
use remote_labs.Template.Manager.{TemplatesManager}
use remote_labs.Roster.Members.{SubjectUser}

abbrev pub panel : St TemplatesManager
panel =
    st
      (record {
        templates = record { rows = arr nil; loading = false };
        defining = record { loading = false };
        deleting = none;
        is_open = true;
        bases = arr nil;
        is_loading_bases = false;
        selected_base = "b1";
        template_description = "Ubuntu";
        vm_ram = "1";
        vm_cpu = "2";
        vm_storage = "2";
      })
      refusing

abbrev pub lab : St (RequestLab (Unit {0}))
lab =
    st
      (record {
        parent = tt;
        is_open = true;
        username = "ada_1";
        password = "pw";
        confirm_password = "pw";
        loading = false;
        creating = record { is_loading = false };
      })
      down

abbrev pub props : LabProps
props = record {
  subject_id = "s1";
  template_id = "t1";
  vcpu_count = 2;
  vram_mb = 1024;
  size_mb = 2048;
}

abbrev pub as_typed : String → String
as_typed text = text

abbrev pub no_callback : Option (Action (Unit {0}) (Unit {0}))
no_callback = none

pub name_test : validate_username "ada_1" ≡ true
unfolding validate_username
name_test = refl

ada-IsName : IsName "ada_1"
ada-IsName = rw name_test refl

complete_test : is_complete student lab.local ≡ true
complete_test = rw name_test refl

abbrev members : List SubjectUser
members =
    record { id = "u1"; name = "Ada"; mail = "a@b"; role = "student" }
    ∷ record { id = "u2"; name = "Bo"; mail = "b@b"; role = "student" }
    ∷ []
