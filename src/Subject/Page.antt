-- ===== src/Subject/Page.antt =====
-- The page of a subject: web-server/frontend/src/pages/SubjectDetail.tsx. Its state holds those of
-- `useSubject`, `useSubjectVMs` and `useTemplates`.
use remote_labs.Prelude.{
  Bool, List, Option, String, arith, false, if◌then◌else◌, length, nat_eq, none, refl, some, true,
  ◌||◌, ◌≡◌,
}
use remote_labs.Js.Value.{Value, truthy}
use remote_labs.Runtime.{
  Action, St, User, done, finally, id_of, modify, toast, try_catch, zoom, ◌>>◌,
}
use remote_labs.Instance.{VmList, fetch_subject_vms, load_subject_vms, no_vms_found}
use remote_labs.Template.{Templates, fetch_templates}
use remote_labs.Vm.Table.{is_professor_or_admin}
use remote_labs.Subject.Reads.{OneSubject}

pub record SubjectDetail : Type 0 where
  pub subject : OneSubject
  pub machines : VmList
  pub templates : Templates

-- The two loads of the `Promise.all`: neither throws, they write different states, and their
-- requests are sent in this order.
unfoldable pub handle_refresh : Option User → String → Action SubjectDetail (Unit {0})
handle_refresh user id = do
  zoom (λ l. l.machines) (λ m l. record l { machines = m }) (fetch_subject_vms user id true)
  zoom (λ l. l.templates) (λ t l. record l { templates = t }) (fetch_templates id)

-- What the page renders: the cards of the machines, and whether a further one can be requested.
pub data SubjectView : Type 0 where
  loader not_found : SubjectView
  shown : Value → List Value → Bool → SubjectView

unfoldable pub subject_view : Option User → SubjectDetail → SubjectView
subject_view user l =
    if l.subject.loading || l.machines.loading || l.templates.loading
    then loader
    else elim l.subject.subject [
      | none ↦ not_found
      | some subject ↦
          shown subject l.machines.vms
            (nat_eq (length l.machines.vms) 0 || is_professor_or_admin user)
    ]

fetch_subject_vms-loaded :
    (user : Option User) (id : String) (s : St VmList)
    → ((fetch_subject_vms user id true s).0 ≡ done tt)
      × ((fetch_subject_vms user id true s).1.local.loading ≡ false)
unfolding fetch_subject_vms
fetch_subject_vms-loaded user id s = gated (truthy (id_of user)) (load_subject_vms user id true) s
  where
    -- Whatever the `try` block does.
    ends :
        (m : Action VmList (Unit {0})) (t : St VmList)
        → let out =
            finally
              (try_catch m (λ _. toast no_vms_found))
              (modify (λ l. record l { loading = false }))
              t in
          (out.0 ≡ done tt) × (out.1.local.loading ≡ false)
    ends m t = ground arith

    gated :
        (b : Bool) (m : Action VmList (Unit {0})) (t : St VmList)
        → let out =
            (if b
                then (do
                  modify (λ l. record l { loading = true })
                  finally
                      (try_catch m (λ _. toast no_vms_found))
                      (modify (λ l. record l { loading = false })))
                else modify (λ l. record l { loading = false }))
              t in
          (out.0 ≡ done tt) × (out.1.local.loading ≡ false)
    gated true m t = ends m (record t { local = record t.local { loading = true } })
    gated false m t = (refl, refl)

fetch_templates-loaded :
    (id : String) (s : St Templates)
    → ((fetch_templates id s).0 ≡ done tt) × ((fetch_templates id s).1.local.loading ≡ false)
unfolding fetch_templates
fetch_templates-loaded id s = ground arith

-- A refresh of a page whose subject is there ends, and the page shows it again: with the machines
-- that are there then, and a request for another exactly if there is none or the user is a professor
-- or an administrator.
pub handle_refresh-subject_view :
    (user : Option User) (id : String) (subject : Value) (s : St SubjectDetail)
    → s.local.subject ≡ record { subject = some subject; loading = false }
    → let out = handle_refresh user id s in
      let vms = out.1.local.machines.vms in
      (out.0 ≡ done tt)
      × (subject_view user out.1.local
          ≡ shown subject vms (nat_eq (length vms) 0 || is_professor_or_admin user))
unfolding handle_refresh subject_view
handle_refresh-subject_view user id subject s h =
    grind (arith, h, fetch_subject_vms-loaded, fetch_templates-loaded)
