-- ===== src/CreateSubject/Sheet/Submission.antt =====
-- What a submission of the sheet does: nothing at the server unless its checks pass, and always the
-- same end when they do.
use remote_labs.Prelude.{
  Bool, List, Option, [], ap, arith, false, if◌then◌else◌, length, nat_eq, not, refl, true, ◌&&◌,
  ◌||◌, ◌∷◌, ◌≡◌,
}
use remote_labs.Js.Value.{Value, is_empty}
use remote_labs.Runtime.{
  Action, Event, Outcome, Reply, St, User, done, lacks_keys, reloaded, requests, try_catch, ◌>>◌,
}
use remote_labs.CreateSubject.Handler.{handle_create_subject}
use remote_labs.CreateSubject.Sheet.{
  Sheet, SheetForm, close_sheet, handle_submit, handle_success, invalid_emails, is_blank, params_of,
  set_form, submit_filled, submit_valid,
}

-- The form passes the checks: the required fields are there, a customised machine has its account and
-- the user a key, the sizes are chosen, and all students have an address of the university.
abbrev pub is_ready : Option User → SheetForm → Bool
is_ready user r =
    not (is_blank r.subject_name)
    && not (is_blank r.subject_code)
    && not (is_empty r.base)
    && not (r.customize_vm && (is_empty r.vm_username || is_empty r.vm_password))
    && not (r.customize_vm && lacks_keys user)
    && not (is_empty r.vm_ram || is_empty r.vm_cpu || is_empty r.vm_storage)
    && nat_eq (length (invalid_emails r.student_emails)) 0

-- Whatever the body does, the sheet is closed and the page is loaded again.
closes :
    (m : Action Sheet (Unit {0})) (s : St Sheet)
    → let out = try_catch (do m; close_sheet) (λ _. close_sheet) s in
      (out.0 ≡ done tt)
      × (out.1.local.parent.is_open ≡ false)
      × (out.1.local.parent.loading ≡ false)
      × (out.1.world.log ≡ reloaded ∷ (m s).1.world.log)
closes m s = ground arith

-- A normal end with no request and the sheet as open as before.
abbrev pub Stays : St Sheet → (Outcome (Unit {0}) × St Sheet) → Type 0
Stays s out =
    (out.0 ≡ done tt)
    × (requests out.1.world.log ≡ requests s.world.log)
    × (out.1.local.parent.is_open ≡ s.local.parent.is_open)

-- The state behind the checks of the required fields.
abbrev shown_errors : St Sheet → St Sheet
shown_errors s =
    let r = s.local.parent in
    (set_form
      (λ f. record f {
        invalid_student_emails = [];
        subject_name_error = if is_blank r.subject_name then "Subject name is required" else "";
        subject_code_error = if is_blank r.subject_code then "Subject code is required" else "";
        base_error = if is_empty r.base then "Base is required" else "";
      })
      s).1

-- The chain of tests of the handler, over what each branch does.
module _ (stop account keys sizes mails submit : Action Sheet (Unit {0})) where
  abbrev chain : Bool → Bool → Bool → Bool → Bool → Bool → Bool → Action Sheet (Unit {0})
  chain a b c d e f g =
      if a || b || c
      then stop
      else if d
      then account
      else if e
      then keys
      else if f
      then sizes
      else if g
      then submit
      else mails

  chain-submit :
      (a b c d e f g : Bool)
      → (not a && not b && not c && not d && not e && not f && g) ≡ true
      → chain a b c d e f g ≡ submit
  chain-submit false false false false false false true h = refl
  chain-submit true b c d e f g h = absurd (cc h)
  chain-submit false true c d e f g h = absurd (cc h)
  chain-submit false false true d e f g h = absurd (cc h)
  chain-submit false false false true e f g h = absurd (cc h)
  chain-submit false false false false true f g h = absurd (cc h)
  chain-submit false false false false false true g h = absurd (cc h)
  chain-submit false false false false false false false h = absurd (cc h)

  chain-others :
      (P : Action Sheet (Unit {0}) → Type 0)
      → P stop
      → P account
      → P keys
      → P sizes
      → P mails
      → (a b c d e f g : Bool) → (not a && not b && not c && not d && not e && not f && g) ≡ false
      → P (chain a b c d e f g)
  chain-others P p q r t u true b c d e f g h = p
  chain-others P p q r t u false true c d e f g h = p
  chain-others P p q r t u false false true d e f g h = p
  chain-others P p q r t u false false false true e f g h = q
  chain-others P p q r t u false false false false true f g h = r
  chain-others P p q r t u false false false false false true g h = t
  chain-others P p q r t u false false false false false false false h = u
  chain-others P p q r t u false false false false false false true h = absurd (cc h)

module _ (arrive : List (Value × Outcome Reply) → List (Value × Outcome Reply)) where
  submit_valid_lem :
      (user : Option User) (r : SheetForm) (s : St Sheet)
      → let out = submit_valid arrive user r s in
        (out.0 ≡ done tt)
        × (out.1.local.parent.is_open ≡ false)
        × (out.1.local.parent.loading ≡ false)
        × ((es : List Event) × (out.1.world.log ≡ reloaded ∷ es))
  unfolding submit_valid
  submit_valid_lem user r s =
      let s' = record s {
        local = record s.local {
          parent = record s.local.parent {
            error_text = "";
            invalid_student_emails = [];
            loading = true;
          };
        };
      } in
      let (e, o, l, w) =
        closes (handle_create_subject arrive user handle_success (params_of r)) s' in
      (e, o, l, (_, w))

  handle_submit-submit_valid :
      (user : Option User) (s : St Sheet)
      → is_ready user s.local.parent ≡ true
      → handle_submit arrive user s.local.parent s
        ≡ submit_valid arrive user s.local.parent (shown_errors s)
  unfolding handle_submit submit_filled
  handle_submit-submit_valid user s ready =
      let r = s.local.parent in
      ap (λ m. m (shown_errors s))
        (chain-submit _ _ _ _ _ (submit_valid arrive user r) (is_blank r.subject_name)
          (is_blank r.subject_code) (is_empty r.base)
          (r.customize_vm && (is_empty r.vm_username || is_empty r.vm_password))
          (r.customize_vm && lacks_keys user)
          (is_empty r.vm_ram || is_empty r.vm_cpu || is_empty r.vm_storage)
          (nat_eq (length (invalid_emails r.student_emails)) 0) ready)

  -- A submission of a form that passes the checks ends alike whatever the server answers, also where
  -- the subject is refused: the sheet is closed and the page loaded again, which loses the error.
  pub sheet_closes :
      (user : Option User) (s : St Sheet)
      → is_ready user s.local.parent ≡ true
      → let out = handle_submit arrive user s.local.parent s in
        (out.0 ≡ done tt)
        × (out.1.local.parent.is_open ≡ false)
        × (out.1.local.parent.loading ≡ false)
        × ((es : List Event) × (out.1.world.log ≡ reloaded ∷ es))
  sheet_closes user s ready =
      rw (handle_submit-submit_valid user s ready)
        (submit_valid_lem user s.local.parent (shown_errors s))

  -- A submission of a form that fails a check ends normally, asks the server for nothing and leaves
  -- the sheet as open as it was.
  pub sheet-Stays :
      (user : Option User) (s : St Sheet)
      → is_ready user s.local.parent ≡ false
      → Stays s (handle_submit arrive user s.local.parent s)
  unfolding handle_submit submit_filled
  sheet-Stays user s unready =
      let r = s.local.parent in
      chain-others _ _ _ _ _ _ (λ m. Stays s (m (shown_errors s))) (refl, refl, refl)
        (refl, refl, refl) (refl, refl, refl) (refl, refl, refl) (refl, refl, refl)
        (is_blank r.subject_name) (is_blank r.subject_code) (is_empty r.base)
        (r.customize_vm && (is_empty r.vm_username || is_empty r.vm_password))
        (r.customize_vm && lacks_keys user)
        (is_empty r.vm_ram || is_empty r.vm_cpu || is_empty r.vm_storage)
        (nat_eq (length (invalid_emails r.student_emails)) 0) unready
