-- ===== src/Tests/Pages.antt =====
-- The lists of the pages.
use remote_labs.Prelude.{All, [], false, some, true, ◌≡◌}
use remote_labs.Js.Value.{Value, arr, cons, nil, obj}
use remote_labs.Runtime.{St, done}
use remote_labs.Tests.Samples.{details, refusing, reply, server, st, student}
use remote_labs.Instance.{VmList, fetch_subject_vms}
use remote_labs.Instance.Shown.{IsOf, fetch_subject_vms_lem}
use remote_labs.Subject.Page.{SubjectDetail}

abbrev no_machines : St VmList
no_machines =
    st (record { vms = []; loading = true }) (server (reply true (arr (cons (obj details) nil))))

abbrev networks : Value
networks = obj details

abbrev detail : St SubjectDetail
detail =
    st
      (record {
        subject = record { subject = some networks; loading = false };
        machines = record { vms = []; loading = false };
        templates = record { rows = arr nil; loading = false };
      })
      refusing

fetch_subject_vms_lem_example :
    let r = fetch_subject_vms student "s1" true no_machines in
    (r.0 ≡ done tt) × (r.1.local.loading ≡ false) × All (IsOf "s1") r.1.local.vms
fetch_subject_vms_lem_example = fetch_subject_vms_lem student "s1" true no_machines tt
