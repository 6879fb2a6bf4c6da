-- ===== src/Vm/Request.antt =====
-- The request for a laboratory: web-server/frontend/src/components/vm/RequestLabButton.tsx. Its state
-- holds that of the component that renders it, and of `useCreateInstance`.
pub mod Laws
pub mod View
use remote_labs.Prelude.{
  Bool, Option, String, [], every, false, if◌then◌else◌, leb, nat_eq, none, not, some, true, ℕ,
  ◌&&◌, ◌==◌, ◌||◌, ◌∷◌,
}
use remote_labs.Js.Value.{Fields, is_empty, num, prop?, str, truthy}
use remote_labs.Js.Text.{units}
use remote_labs.Runtime.{
  Action, User, error, fields, keys_of, lacks_keys, modify, reload, skip, throw, toast, try_catch,
  warn, zoom, ◌>>=◌, ◌>>◌,
}
use remote_labs.Instance.{Loading, create_instance}

pub record RequestLab (P : Type 0) : Type 0 where
  pub parent : P
  pub is_open : Bool
  pub username : String
  pub password : String
  pub confirm_password : String
  pub loading : Bool
  pub creating : Loading

-- `[a-z0-9_]`
abbrev pub is_name_unit : ℕ → Bool
is_name_unit c = (leb b'a' c && leb c b'z') || (leb b'0' c && leb c b'9') || nat_eq c b'_'

-- `/^[a-z0-9_]+$/`
unfoldable pub validate_username : String → Bool
validate_username username = not (is_empty username) && every is_name_unit (units username)

-- What the button hands down: the subject and the template with its sizes.
pub record LabProps : Type 0 where
  pub subject_id : String
  pub template_id : String
  pub vcpu_count : ℕ
  pub vram_mb : ℕ
  pub size_mb : ℕ

module _ {P : Type 0} where
  -- `lower` is `toLowerCase`, and `value` what the input holds.
  unfoldable pub handle_username_change :
      (String → String) → String → Action (RequestLab P) (Unit {0})
  handle_username_change lower value =
      if validate_username (lower value) || is_empty (lower value)
      then modify (λ l. record l { username = lower value })
      else skip

  abbrev pub failed_lab : Action (RequestLab P) (Unit {0})
  failed_lab = toast (record {
    title = "Error";
    description = "Failed to create lab. Please try again.";
    variant = "destructive";
  })

  -- `onSuccess?.()`
  abbrev pub call_parent : Option (Action P (Unit {0})) → Action (RequestLab P) (Unit {0})
  call_parent none = skip
  call_parent (some on_success) = zoom (λ l. l.parent) (λ p l. record l { parent = p }) on_success

  abbrev pub lab_fields : Option User → LabProps → RequestLab P → Fields
  lab_fields user props r = fields (
      ("subjectId", str props.subject_id)
      ∷ ("sourceVmId", str props.template_id)
      ∷ ("username", str r.username)
      ∷ ("password", str r.password)
      ∷ ("vcpuCount", num props.vcpu_count)
      ∷ ("vramMB", num props.vram_mb)
      ∷ ("sizeMB", num props.size_mb)
      ∷ ("publicSshKeys", keys_of user)
      ∷ [])

  -- The `try` block; `r` is the state that was last rendered.
  unfoldable pub request_machine :
      Option User
      → LabProps
      → Option (Action P (Unit {0}))
      → RequestLab P
      → Action (RequestLab P) (Unit {0})
  request_machine user props on_success r = do
    response ←
        zoom (λ l. l.creating) (λ c l. record l { creating = c })
          (create_instance user (lab_fields user props r))
    if truthy (prop? "instanceId" response)
        then (do
          modify (λ l. record l {
            loading = false;
            is_open = false;
            username = "";
            password = "";
            confirm_password = "";
          })
          call_parent on_success
          reload)
        else throw (error "No instance ID received")

  unfoldable pub handle_submit :
      Option User
      → LabProps
      → Option (Action P (Unit {0}))
      → RequestLab P
      → Action (RequestLab P) (Unit {0})
  handle_submit user props on_success r =
      if lacks_keys user
      then warn "You must have at least one SSH key to request a lab."
      else if not (validate_username r.username)
      then toast (record {
        title = "Invalid Username";
        description = "Username can only contain lowercase letters, numbers, and underscores.";
        variant = "destructive";
      })
      else if not (r.password == r.confirm_password)
      then toast (record {
        title = "Passwords do not match";
        description = "Please make sure both passwords are the same.";
        variant = "destructive";
      })
      else (do
        modify (λ l. record l { loading = true })
        try_catch (request_machine user props on_success r)
            (λ _. do modify (λ l. record l { loading = false; is_open = false }); failed_lab))
