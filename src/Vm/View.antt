-- ===== src/Vm/View.antt =====
-- One machine as it is drawn, with the buttons that act on it: web-server/frontend/src/components/vm/
-- VMDetails.tsx, VMStartButton.tsx, VMStopButton.tsx and VMDeleteButton.tsx.
use remote_labs.Prelude.{
  Bool, Option, String, [], concat, false, if◌then◌else◌, true, ◌&&◌, ◌≡◌, ◌==◌, ◌∷◌, arith, ◌↔◌,
}
use remote_labs.Js.Value.{is_empty, num}
use remote_labs.Js.Text.{to_text}
use remote_labs.Runtime.{Action, modify}
use remote_labs.Markup.{
  Markup, Offers, all, attr, disabled, element, empty, on_click, shown_if, text,
}
use remote_labs.Vm.Buttons.{
  Button, Within, confirm_start, handle_delete as press_delete, handle_stop as press_stop,
}
use remote_labs.Vm.Details.{VmDetails, get_status_color, handle_delete, handle_start, handle_stop}
use remote_labs.Vm.Table.View.{Writing, or_text}

pub data ButtonEvent : Type 0 where
  -- `setShowConfirmDialog`
  dialog_set : Bool → ButtonEvent
  start_confirmed stop_pressed delete_confirmed : ButtonEvent

module _ {P : Type 0} where
  -- The handlers of the buttons of a machine.
  unfoldable pub respond :
      String → Option (Action P (Unit {0})) → ButtonEvent → Action (Within P) (Unit {0})
  respond id on_success (dialog_set b) =
      modify (λ l. record l { button = record l.button { show_confirm_dialog = b } })
  respond id on_success start_confirmed = confirm_start id on_success
  respond id on_success stop_pressed = press_stop id on_success
  respond id on_success delete_confirmed = press_delete id on_success

abbrev pub told_part : String → String → Markup ButtonEvent
told_part title detail = all (element "p" [] (text title) ∷ element "p" [] (text detail) ∷ [])

-- `VMStartButton`; `busy` is the flag of the whole page.
abbrev pub vm_start_button : Bool → Button → Markup ButtonEvent
vm_start_button busy b = all (
    element "Button" (on_click (dialog_set true) ∷ disabled busy ∷ []) (text "Start")
    ∷ shown_if b.show_confirm_dialog (
        element "DialogContent" (on_click (dialog_set false) ∷ []) (
          all (
            element "DialogTitle" [] (text "Session Information")
            ∷ told_part "Session Duration" "2 hours from start"
            ∷ told_part "Email Notifications" "You'll receive an email with your session end time"
            ∷ told_part "Session Renewal"
                "30 minutes before the end, you'll get an email with a link to extend your session for 2 more hours"
            ∷ element "Button" (on_click (dialog_set false) ∷ []) (text "Cancel")
            ∷ element "Button" (on_click start_confirmed ∷ []) (text "Start VM")
            ∷ [])))
    ∷ [])

-- `VMStopButton`
abbrev pub vm_stop_button : Bool → Markup ButtonEvent
vm_stop_button busy = element "Button" (on_click stop_pressed ∷ disabled busy ∷ []) (text "Stop")

-- `VMDeleteButton`, whose dialogue the widget itself opens
abbrev pub vm_delete_button : Bool → Markup ButtonEvent
vm_delete_button busy = all (
    element "AlertDialogTrigger" [] (element "Button" (disabled busy ∷ []) (text "Delete"))
    ∷ element "AlertDialogContent" [] (
        all (
          element "AlertDialogTitle" [] (text "Confirm Deletion")
          ∷ element "AlertDialogDescription" [] (
              text
                "Are you sure you want to delete this virtual machine? This action cannot be undone.")
          ∷ element "AlertDialogCancel" [] (text "Cancel")
          ∷ element "AlertDialogAction" (on_click delete_confirmed ∷ []) (text "Delete")
          ∷ []))
    ∷ [])

-- What the buttons of the card call back.
pub data CardEvent : Type 0 where
  start_reported stop_reported delete_reported : CardEvent

unfoldable pub card_respond : CardEvent → Action VmDetails (Unit {0})
card_respond start_reported = handle_start
card_respond stop_reported = handle_stop
card_respond delete_reported = handle_delete

abbrev pub card_button : String → String → CardEvent → Markup CardEvent
card_button tag id e = element tag (attr "instanceId" id ∷ on_click e ∷ []) empty

abbrev pub labelled : String → String → Markup CardEvent
labelled label shown = all (element "span" [] (text label) ∷ element "span" [] (text shown) ∷ [])

-- `VMDetails`; in it, the button that makes a template is an element of its component's name.
abbrev pub vm_details : Writing → Bool → VmDetails → Markup CardEvent
vm_details w is_teacher_or_admin l =
    if l.deleted
    then empty
    else let vm = l.vm in
      all (
        element "p" [] (text (concat "Created at: " (w.local_date vm.created_at)))
        ∷ element "div" (attr "className" (get_status_color w.lower vm.status) ∷ []) empty
        ∷ element "span" [] (text vm.status)
        ∷ element "h3" [] (text "Resources")
        ∷ labelled "vCPUs" (to_text (num vm.template_vcpu_count))
        ∷ labelled "RAM" (concat (w.gigabytes vm.template_vram_mb) " GB")
        ∷ labelled "Disk" (concat (w.gigabytes vm.template_size_mb) " GB")
        ∷ element "h3" [] (text "Instance Details")
        ∷ labelled "Template Description"
            (or_text vm.template_description "No description available")
        ∷ labelled "User Email" vm.user_mail
        ∷ shown_if (w.lower vm.status == "shut off")
            (card_button "VMStartButton" vm.instance_id start_reported)
        ∷ shown_if (w.lower vm.status == "running")
            (card_button "VMStopButton" vm.instance_id stop_reported)
        ∷ element "WireguardConfigButton" (attr "instanceId" vm.instance_id ∷ []) empty
        ∷ shown_if (w.lower vm.status == "shut off")
            (card_button "VMDeleteButton" vm.instance_id delete_reported)
        ∷ shown_if (is_teacher_or_admin && is_empty vm.template_id)
            (element "DefineTemplateButton" (attr "instanceId" vm.instance_id ∷ []) empty)
        ∷ [])

-- The card offers to start or to delete its machine exactly while it is shown and the machine is shut
-- off, and to stop it exactly while it is shown and the machine runs: never both.
pub card-Offers :
    (w : Writing) (b : Bool) (l : VmDetails)
    → (Offers (vm_details w b l) start_reported
        ↔ ((l.deleted ≡ false) × ((w.lower l.vm.status == "shut off") ≡ true)))
      × (Offers (vm_details w b l) delete_reported
          ↔ ((l.deleted ≡ false) × ((w.lower l.vm.status == "shut off") ≡ true)))
      × (Offers (vm_details w b l) stop_reported
          ↔ ((l.deleted ≡ false) × ((w.lower l.vm.status == "running") ≡ true)))
card-Offers w b l = (
  (λ h. ground arith, λ h. ground arith),
  (λ h. ground arith, λ h. ground arith),
  (λ h. ground arith, λ h. ground arith),
)
