-- ===== src/Vm/Request/View.antt =====
-- The button of a request for a laboratory as it is drawn, and what it does on each press:
-- web-server/frontend/src/components/vm/RequestLabButton.tsx.
pub mod Visits
use remote_labs.Prelude.{
  Bool, Option, String, [], false, if◌then◌else◌, none, not, some, true, ◌&&◌, ◌==◌, ◌||◌, ◌∷◌,
}
use remote_labs.Js.Value.{is_empty}
use remote_labs.Runtime.{Action, User, lacks_keys, modify, navigate, skip, zoom}
use remote_labs.Markup.{
  Markup, all, attr, disabled, element, empty, on_change, on_click, on_submit, shown_if, text,
}
use remote_labs.Vm.Request.{LabProps, RequestLab, handle_submit, handle_username_change}

-- The whole state of `RequestLabButton`.
pub record LabPage (P : Type 0) : Type 0 where
  pub lab : RequestLab P
  pub show_password : Bool

pub data LabEvent : Type 0 where
  -- `onOpenChange`
  open_changed : Bool → LabEvent
  username_typed password_typed confirmation_typed : String → LabEvent
  password_toggled submit keys_managed : LabEvent

abbrev pub is_mismatch : String → String → Bool
is_mismatch password confirm_password =
    not (is_empty confirm_password) && not (password == confirm_password)

abbrev pub without_keys : Markup LabEvent
without_keys = all (
    element "p" [] (text "You must have at least one SSH key to request a lab.")
    ∷ element "Button" (on_click keys_managed ∷ []) (text "Manage SSH Keys")
    ∷ [])

module _ {P : Type 0} where
  abbrev pub in_lab : {A : Type 0} → Action (RequestLab P) A → Action (LabPage P) A
  in_lab = zoom (λ p. p.lab) (λ l p. record p { lab = l })

  -- The handlers of the button; `p` is the state that was last rendered.
  unfoldable pub respond :
      (String → String)
      → Option User
      → LabProps
      → Option (Action P (Unit {0}))
      → LabEvent
      → LabPage P
      → Action (LabPage P) (Unit {0})
  respond lower user props on_success (open_changed b) p =
      if p.lab.loading then skip else in_lab (modify (λ l. record l { is_open = b }))
  respond lower user props on_success (username_typed v) p = in_lab (handle_username_change lower v)
  respond lower user props on_success (password_typed v) p =
      in_lab (modify (λ l. record l { password = v }))
  respond lower user props on_success (confirmation_typed v) p =
      in_lab (modify (λ l. record l { confirm_password = v }))
  respond lower user props on_success password_toggled p =
      modify (λ q. record q { show_password = not p.show_password })
  respond lower user props on_success submit p = in_lab (handle_submit user props on_success p.lab)
  respond lower user props on_success keys_managed p = navigate "/user-settings"

  abbrev pub credentials : LabPage P → Markup LabEvent
  credentials p =
      let kind = if p.show_password then "text" else "password" in
      all (
        element "Label" [] (text "Username")
        ∷ element "Input"
            (attr "id" "username"
              ∷ attr "value" p.lab.username
              ∷ on_change username_typed
              ∷ attr "placeholder"
                  "Enter username (lowercase letters, numbers, and underscores only)..."
              ∷ attr "required" ""
              ∷ [])
            empty
        ∷ element "p" [] (text "Only lowercase letters, numbers, and underscores are allowed")
        ∷ element "Label" [] (text "Password")
        ∷ element "Input"
            (attr "id" "password"
              ∷ attr "type" kind
              ∷ attr "value" p.lab.password
              ∷ on_change password_typed
              ∷ attr "placeholder" "Enter password..."
              ∷ attr "required" ""
              ∷ [])
            empty
        ∷ element "Button" (attr "type" "button" ∷ on_click password_toggled ∷ []) empty
        ∷ element "Label" [] (text "Confirm Password")
        ∷ element "Input"
            (attr "id" "confirmPassword"
              ∷ attr "type" kind
              ∷ attr "value" p.lab.confirm_password
              ∷ on_change confirmation_typed
              ∷ attr "placeholder" "Confirm password..."
              ∷ attr "required" ""
              ∷ [])
            empty
        ∷ shown_if (is_mismatch p.lab.password p.lab.confirm_password)
            (element "p" [] (text "Passwords do not match"))
        ∷ element "p" [] (
            text
              "This password can only be changed from within the virtual machine using the old password. Please make sure to remember it.")
        ∷ [])

  abbrev pub request_form : LabPage P → Markup LabEvent
  request_form p = element "form" (on_submit submit ∷ []) (
      all (
        element "DialogTitle" [] (text "Request Lab")
        ∷ element "DialogDescription" []
            (text "Enter your VM credentials. These will be used to access your virtual machine.")
        ∷ credentials p
        ∷ element "Button"
            (attr "type" "submit"
              ∷ disabled (p.lab.loading || not (p.lab.password == p.lab.confirm_password))
              ∷ [])
            (text (if p.lab.loading then "Requesting..." else "Request Lab"))
        ∷ []))

  -- A dialogue is closed by its own button as well.
  abbrev pub dialog : LabPage P → Markup LabEvent
  dialog p = all (
      element "Button" (on_click (open_changed true) ∷ []) (text "Request Lab")
      ∷ shown_if p.lab.is_open (
          element "DialogContent" (on_click (open_changed false) ∷ []) (
            if p.lab.loading
            then element "p" [] (
                text
                  "Your remote virtual lab is being created. This may take a few moments. If your machine does not appear after this loading state, please refresh the page before trying again.")
            else request_form p))
      ∷ [])

  abbrev pub request_lab_button : Option User → LabPage P → Markup LabEvent
  request_lab_button user p = if lacks_keys user then without_keys else dialog p
