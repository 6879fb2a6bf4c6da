-- ===== src/Subject/Removal.antt =====
-- The button that deletes a subject: web-server/frontend/src/components/subject/
-- DeleteSubjectButton.tsx. Its state holds that of `useDeleteSubject`.
use remote_labs.Prelude.{
  Bool, Option, String, arith, false, if◌then◌else◌, none, not, refl, some, true, ◌≡◌,
}
use remote_labs.Js.Value.{null, truthy}
use remote_labs.Js.Text.{replace}
use remote_labs.Env.{api_delete_subject, get_env}
use remote_labs.Runtime.{
  Action, St, accepted, done, finally, json_request, modify, navigate, skip, try_catch, zoom, ◌>>◌,
}
use remote_labs.Subject.{DeleteSubject, delete_subject, set_error}
use remote_labs.Subject.Deletion.{delete_subject_lem}

pub record DeleteSubjectButton : Type 0 where
  pub deleting : DeleteSubject
  pub is_loading : Bool
  pub is_dialog_open : Bool
  pub deletion_success : Bool

abbrev pub in_deleting : {A : Type 0} → Action DeleteSubject A → Action DeleteSubjectButton A
in_deleting = zoom (λ l. l.deleting) (λ d l. record l { deleting = d })

-- `onSuccess`, which may be missing, acts on what renders the button; it is what follows. The visit
-- to the list of subjects is set off here and takes place 1.2 seconds later.
unfoldable pub handle_delete :
    Option (Action DeleteSubjectButton (Unit {0})) → String → Action DeleteSubjectButton (Unit {0})
handle_delete on_success subject_id = do
  modify (λ l. record l { is_loading = true })
  in_deleting (set_error null)
  finally
      (try_catch
        (do
          in_deleting (delete_subject subject_id)
          modify (λ l. record l { deletion_success = true })
          navigate "/subjects"
          elim on_success [ none ↦ skip | some f ↦ f ])
        (λ _. skip))
      (modify (λ l. record l { is_loading = false }))

unfoldable pub handle_cancel : Action DeleteSubjectButton (Unit {0})
handle_cancel = do
  modify (λ l. record l { is_dialog_open = false })
  in_deleting (set_error null)
  modify (λ l. record l { deletion_success = false })

-- `onOpenChange`
unfoldable pub handle_open_change : Bool → Action DeleteSubjectButton (Unit {0})
handle_open_change open' = do
  modify (λ l. record l { is_dialog_open = open' })
  if open'
      then skip
      else (do in_deleting (set_error null); modify (λ l. record l { deletion_success = false }))

-- A deletion ends normally. Exactly if the server accepts it the button reports success and leads
-- away; otherwise it shows an error. This is for a button without callback.
handle_delete_lem :
    (subject_id : String) (s : St DeleteSubjectButton)
    → s.local.deletion_success ≡ false
    → let out = handle_delete none subject_id s in
      let url = replace (get_env s.world.api_url api_delete_subject) "{id}" subject_id in
      let verdict = accepted (s.world.net s.world.log (json_request "DELETE" url none)) in
      (out.0 ≡ done tt)
      × (out.1.local.is_loading ≡ false)
      × (out.1.local.deletion_success ≡ verdict)
      × (truthy out.1.local.deleting.error_value ≡ not verdict)
unfolding handle_delete
handle_delete_lem subject_id s h = grind (arith, delete_subject_lem)

-- Closing the dialogue, in either way, forgets the outcome.
closed_dialog_lem :
    (s : St DeleteSubjectButton)
    → (handle_cancel s ≡ handle_open_change false s)
      × (truthy (handle_cancel s).1.local.deleting.error_value ≡ false)
      × ((handle_cancel s).1.local.deletion_success ≡ false)
unfolding handle_cancel handle_open_change
closed_dialog_lem s = (refl, refl, refl)
