-- ===== src/CreateSubject/Sheet/Visits.antt =====
-- The sheet over every visit: what machine it can ask for.
use remote_labs.Prelude.{List, Option, arith, subst}
use remote_labs.Js.Value.{Value}
use remote_labs.Runtime.{Outcome, Reply, St, User}
use remote_labs.Markup.{Offers}
use remote_labs.Markup.Visit.{Visit, after, opened}
use remote_labs.CreateSubject.Sheet.{
  cpu_chosen, handle_add_email, handle_remove_email, handle_subject_code_change, ram_chosen,
  storage_chosen,
}
use remote_labs.CreateSubject.Sheet.Submitted.{handle_submit-Keeps}
use remote_labs.CreateSubject.Sheet.Sizes.{
  IsSized, IsSized-params, Offers-OneOf, cleared-IsSized, cpu-Between, cpu_menu, ram-Between,
  ram_menu, storage-Between, storage_menu,
}
use remote_labs.CreateSubject.Sheet.View.Parts.{
  Base, SheetPress, changed, code_changed, email_removed, email_added, cancel, password_toggled,
  keys_managed, submit,
}
use remote_labs.CreateSubject.Sheet.View.{SheetPage, create_subject_sheet, respond}

-- The effect of each press on the sizes.
module _ (arrive : List (Value × Outcome Reply) → List (Value × Outcome Reply))
    (user : Option User) where
  respond-IsSized :
      (e : SheetPress) (bases : List Base) (s : St SheetPage)
      → Offers (create_subject_sheet user bases s.local) e
      → IsSized s.local.sheet.parent
      → IsSized (respond arrive user e s.local s).1.local.sheet.parent
  unfolding respond
  respond-IsSized (changed (cpu_chosen v)) bases s o h = record {
    cpu = cpu-Between v (Offers-OneOf cpu_menu v user bases s.local o);
    ram = h.ram;
    storage = h.storage;
  }
  respond-IsSized (changed (ram_chosen v)) bases s o h = record {
    cpu = h.cpu;
    ram = ram-Between v (Offers-OneOf ram_menu v user bases s.local o);
    storage = h.storage;
  }
  respond-IsSized (changed (storage_chosen v)) bases s o h = record {
    cpu = h.cpu;
    ram = h.ram;
    storage = storage-Between v (Offers-OneOf storage_menu v user bases s.local o);
  }
  respond-IsSized (changed i) bases s o h = ground (arith, h)
  respond-IsSized (code_changed v) bases s o h =
      unfold handle_subject_code_change in ground (arith, h)
  respond-IsSized (email_removed e) bases s o h = unfold handle_remove_email in ground (arith, h)
  respond-IsSized email_added bases s o h = unfold handle_add_email in ground (arith, h)
  respond-IsSized submit bases s o h =
      (handle_submit-Keeps IsSized IsSized-params cleared-IsSized arrive user
          s.local.sheet.parent).at
        (record { local = s.local.sheet; world = s.world }) h
  respond-IsSized cancel bases s o h = ground (arith, h)
  respond-IsSized password_toggled bases s o h = h
  respond-IsSized keys_managed bases s o h = h

  -- In any visit of the sheet, whatever is pressed and whatever the server answers, the machine that
  -- the form describes has 2 to 16 cores, 1 to 32 GB of memory and 1 to 50 GB of storage, if it has
  -- them at first.
  pub Visit-IsSized :
      (bases : Value → List Base) {s t : St SheetPage}
      → IsSized s.local.sheet.parent
      → Visit (λ p. create_subject_sheet user (bases p.sheet.bases) p) (respond arrive user) s t
      → IsSized t.local.sheet.parent
  Visit-IsSized bases h opened = h
  Visit-IsSized bases h (after {t = t} v e offered ends) =
      subst (λ (u : St SheetPage). IsSized u.local.sheet.parent) ends
        (respond-IsSized e (bases t.local.sheet.bases) t offered (Visit-IsSized bases h v))
