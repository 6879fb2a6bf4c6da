-- ===== src/Subject/View/Loaded.antt =====
-- The page of subjects after a load: web-server/frontend/src/hooks/useSubjects.ts and
-- pages/Subjects.tsx together.
use mathlib.Core.List.{Perm}
use remote_labs.Prelude.{List, Option, String, false, refl, sym, ◌≡◌, ◌↔◌}
use remote_labs.Js.Value.{Value}
use remote_labs.Runtime.{Outcome, St, User, done}
use remote_labs.Markup.{Offers}
use remote_labs.Subject.Listing.{Subjects, fetch_subjects, load_subjects}
use remote_labs.Subject.Listing.Joined.{fetch_subjects_lem}
use remote_labs.Subject.Listing.Rows.{IsList, load_subjects-IsList}
use remote_labs.Subject.Reads.{SubjectRow}
use remote_labs.Subject.View.{
  HasSubject, Offers-subject_opened, shows_error, subject_opened, subjects_page,
}

fetch_subjects-subjects :
    (arrive : List (Outcome Value) → List (Outcome Value)) (user : Option User) (s : St Subjects)
    → (load_subjects arrive user s).0 ≡ done tt
    → (fetch_subjects arrive user s).1.local.subjects
      ≡ (load_subjects arrive user s).1.local.subjects
unfolding fetch_subjects
fetch_subjects-subjects arrive user s h = rw h refl

-- If the load succeeds, in whatever order the answers about the professors arrive, it ends normally
-- and with the loading over. The subjects held are then those of an accepted answer about the user, in
-- its order: each as it is where the account of its professor is refused, and else with the
-- professor's name and mail. And the page leads to a subject exactly if it is among the rows that are
-- read from those and no error was shown before the load: the error of an earlier load hides what this
-- one has read.
pub loaded_lem :
    (arrive : List (Outcome Value) → List (Outcome Value)) (read : List Value → List SubjectRow)
    (user : Option User) (id : String) (s : St Subjects)
    → ((zs : List (Outcome Value)) → Perm (arrive zs) zs)
    → (load_subjects arrive user s).0 ≡ done tt
    → let r = fetch_subjects arrive user s in
      let rows = read r.1.local.subjects in
      (r.0 ≡ done tt)
      × (r.1.local.loading ≡ false)
      × IsList user s r.1.local.subjects
      × (Offers (subjects_page user r.1.local.loading r.1.local.error_text rows) (subject_opened id)
          ↔ ((shows_error s.local.error_text ≡ false) × HasSubject id rows))
loaded_lem arrive read user id s any_order ok =
    let r = fetch_subjects arrive user s in
    let (d, l, f, k) = fetch_subjects_lem arrive user s in
    let kept = k (rw ok refl) in
    let (to, from) =
      Offers-subject_opened user r.1.local.loading r.1.local.error_text id
        (read r.1.local.subjects) in
    (
      d,
      l,
      rw (fetch_subjects-subjects arrive user s ok)
          (load_subjects-IsList arrive any_order user s ok),
      (λ h. let (_, e, m) = to h in (rw (sym kept) e, m), λ h. from (l, rw kept (h.0), h.1)),
    )
