-- ===== src/Vm/Request/View/Visits.antt =====
-- What the dialogue of a request sends, over every visit.
use remote_labs.Prelude.{
  if◌then◌else◌, Bool, Option, String, arith, false, not, subst, true, ◌≡◌, ◌&&◌, ◌||◌, ◌==◌,
}
use remote_labs.Js.Value.{is_empty}
use remote_labs.Runtime.{Action, St, User, lacks_keys, done}
use remote_labs.Markup.{Offers}
use remote_labs.Markup.Visit.{Visit, after, opened}
use remote_labs.Vm.Request.{LabProps, RequestLab, validate_username}
use remote_labs.Vm.Request.Laws.{
  IsName, is_complete, typed_lem, complete_request_lem, submit-IsName,
}
use remote_labs.Vm.Request.View.{
  LabEvent, LabPage, confirmation_typed, keys_managed, open_changed, password_toggled,
  password_typed, request_lab_button, dialog, without_keys, respond, submit, username_typed,
}

module _ {P : Type 0} (lower : String → String) (user : Option User) (props : LabProps)
    (on_success : Option (Action P (Unit {0}))) where
  respond-IsName :
      (e : LabEvent) (s : St (LabPage P))
      → IsName s.local.lab.username
      → IsName (respond lower user props on_success e s.local s).1.local.lab.username
  unfolding respond
  respond-IsName (open_changed b) s h = ground (arith, h)
  respond-IsName (username_typed v) s h =
      (typed_lem lower v (record { local = s.local.lab; world = s.world }) h).1
  respond-IsName (password_typed v) s h = h
  respond-IsName (confirmation_typed v) s h = h
  respond-IsName password_toggled s h = h
  respond-IsName submit s h =
      submit-IsName user props on_success (record { local = s.local.lab; world = s.world }) h
  respond-IsName keys_managed s h = h

  Visit-IsName :
      {s t : St (LabPage P)}
      → IsName s.local.lab.username
      → Visit (request_lab_button user) (respond lower user props on_success) s t
      → IsName t.local.lab.username
  Visit-IsName h opened = h
  Visit-IsName h (after {t = t} v e offered ends) =
      subst (λ (u : St (LabPage P)). IsName u.local.lab.username) ends
        (respond-IsName e t (Visit-IsName h v))

  -- The form is offered for sending only while it is shown and the passwords agree.
  sends :
      (b v : Bool) (l : RequestLab P)
      → Offers (if b then without_keys else dialog (record { lab = l; show_password = v })) submit
      → (b ≡ false)
        × (l.is_open ≡ true)
        × (l.loading ≡ false)
        × ((l.password == l.confirm_password) ≡ true)
  sends b true l h = ground arith
  sends b false l h = ground arith

  is_complete_lem :
      (keys : Bool) (name : String) (same : Bool)
      → keys ≡ false
      → (validate_username name || is_empty name) ≡ true
      → same ≡ true
      → is_empty name ≡ false
      → (not keys && validate_username name && same) ≡ true
  is_complete_lem keys name same k n e f = ground (arith, k, n, e, f)

  -- In any visit of the button that begins with a name that can be sent or none, if the form can be
  -- sent and a name is given, the form is complete, and its submission ends normally and closes the
  -- dialogue, whatever was typed before, whatever the server answers and whatever the callback does.
  pub Visit-Closes :
      {s t : St (LabPage P)}
      → IsName s.local.lab.username
      → Visit (request_lab_button user) (respond lower user props on_success) s t
      → Offers (request_lab_button user t.local) submit
      → is_empty t.local.lab.username ≡ false
      → let out = respond lower user props on_success submit t.local t in
        (is_complete user t.local.lab ≡ true)
        × (out.0 ≡ done tt)
        × (out.1.local.lab.loading ≡ false)
        × (out.1.local.lab.is_open ≡ false)
  unfolding respond
  Visit-Closes {t = t} h v offered filled =
      let o = sends (lacks_keys user) t.local.show_password t.local.lab offered in
      let complete =
        is_complete_lem (lacks_keys user) t.local.lab.username
          (t.local.lab.password == t.local.lab.confirm_password) o.0 (Visit-IsName h v) o.3
          filled in
      let c =
        complete_request_lem user props on_success (record { local = t.local.lab; world = t.world })
          complete in
      (complete, c.0, c.1, c.2)
