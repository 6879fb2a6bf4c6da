-- ===== src/Toast.antt =====
-- The notifications: web-server/frontend/src/hooks/use-toast.ts. The module's variables are a record,
-- with the components that use the hook: a component shows the state of its first render until one is
-- delivered to it, and is a listener only once its effect has run.
pub mod Laws
pub mod Reach
pub mod Ids
use remote_labs.Prelude.{
  Bool, List, Option, String, [], false, filter, if◌then◌else◌, map, nat_eq, none, not, some, take,
  true, ℕ, ◌%◌, ◌++◌, ◌+◌, ◌==◌, ◌||◌, ◌∷◌,
}
use remote_labs.Js.Value.{is_empty, num}
use remote_labs.Js.Text.{to_text}

abbrev pub toast_limit : ℕ
toast_limit = 1

abbrev pub max_safe_integer : ℕ
max_safe_integer = 9007199254740991

pub record ToasterToast : Type 0 where
  pub id : String
  pub title : String
  pub description : String
  pub variant : String
  pub is_open : Bool

-- `Partial<ToasterToast>` with its `id`.
pub record ToastUpdate : Type 0 where
  pub id : String
  pub title : Option String
  pub description : Option String
  pub variant : Option String
  pub is_open : Option Bool

pub data ToastAction : Type 0 where
  add_toast : ToasterToast → ToastAction
  update_toast : ToastUpdate → ToastAction
  dismiss_toast : Option String → ToastAction
  remove_toast : Option String → ToastAction

pub record Listener : Type 0 where
  pub key : ℕ
  pub shown : List ToasterToast
  -- no state has been delivered to it yet
  pub is_initial : Bool

pub record ToastStore : Type 0 where
  pub count : ℕ
  -- the keys of `toastTimeouts`, each with its timer running
  pub toast_timeouts : List String
  -- `memoryState.toasts`
  pub toasts : List ToasterToast
  pub listeners : List Listener
  -- the components that are rendered and whose effect has not run
  pub rendered : List Listener

abbrev pub has : String → List String → Bool
has id [] = false
has id (t ∷ ts) = t == id || has id ts

-- `addToRemoveQueue`
abbrev pub add_to_remove_queue : String → List String → List String
add_to_remove_queue id ts = if has id ts then ts else ts ++ id ∷ []

-- `state.toasts.forEach(…)`
abbrev pub queue_all : List ToasterToast → List String → List String
queue_all [] ts = ts
queue_all (t ∷ toasts) ts = queue_all toasts (add_to_remove_queue t.id ts)

abbrev pub given {ℓ} : {A : Type ℓ} → Option A → A → A
given none a = a
given (some b) a = b

-- `{ ...t, ...u }`
abbrev pub merge : ToasterToast → ToastUpdate → ToasterToast
merge t u = record {
  id = u.id;
  title = given u.title t.title;
  description = given u.description t.description;
  variant = given u.variant t.variant;
  is_open = given u.is_open t.is_open;
}

-- `t.id === toastId || toastId === undefined`
abbrev pub is_target : Option String → ToasterToast → Bool
is_target none t = true
is_target (some id) t = t.id == id

abbrev pub close : ToasterToast → ToasterToast
close t = record t { is_open = false }

-- The toasts that `reducer` returns.
pub reduce : List ToasterToast → ToastAction → List ToasterToast
reduce toasts (add_toast t) = take toast_limit (t ∷ toasts)
reduce toasts (update_toast u) = map (λ t. if t.id == u.id then merge t u else t) toasts
reduce toasts (dismiss_toast target) = map (λ t. if is_target target t then close t else t) toasts
reduce toasts (remove_toast none) = []
reduce toasts (remove_toast (some id)) = filter (λ t. not (t.id == id)) toasts

-- The timers that `reducer` starts.
pub start_timers : List ToasterToast → ToastAction → List String → List String
start_timers toasts (dismiss_toast none) ts = queue_all toasts ts
start_timers toasts (dismiss_toast (some id)) ts =
    if is_empty id then queue_all toasts ts else add_to_remove_queue id ts
start_timers toasts _ ts = ts

abbrev pub deliver : List ToasterToast → List Listener → List Listener
deliver toasts [] = []
deliver toasts (l ∷ ls) = record l { shown = toasts; is_initial = false } ∷ deliver toasts ls

unfoldable pub dispatch : ToastAction → ToastStore → ToastStore
unfolding reduce start_timers
dispatch a s =
    let toasts' = reduce s.toasts a in
    record s {
      toast_timeouts = start_timers s.toasts a s.toast_timeouts;
      toasts = toasts';
      listeners = deliver toasts' s.listeners;
    }

-- `genId`: the count is the identifier, in digits.
abbrev pub next_id : ToastStore → ℕ
next_id s = (s.count + 1) % max_safe_integer

abbrev pub new_toast : ℕ → String → String → String → ToastAction
new_toast n title description variant = add_toast (record {
  id = to_text (num n);
  title = title;
  description = description;
  variant = variant;
  is_open = true;
})

-- The call of `toast`.
unfoldable pub toast : String → String → String → ToastStore → ToastStore
unfolding dispatch
toast title description variant s =
    dispatch (new_toast (next_id s) title description variant) (record s { count = next_id s })

-- A timer of `addToRemoveQueue` runs out.
unfoldable pub expire : String → ToastStore → ToastStore
unfolding dispatch
expire id s =
    dispatch (remove_toast (some id))
      (record s { toast_timeouts = filter (λ t. not (t == id)) s.toast_timeouts })

abbrev pub is_of : ℕ → Listener → Bool
is_of key l = nat_eq l.key key

-- The first render of `useToast`, with `useState(memoryState)`.
unfoldable pub render : ℕ → ToastStore → ToastStore
render key s = record s {
  rendered = s.rendered ++ record { key = key; shown = s.toasts; is_initial = true } ∷ [];
}

-- The first run of the effect: the setter of the component is pushed.
unfoldable pub subscribe : ℕ → ToastStore → ToastStore
subscribe key s = record s {
  listeners = s.listeners ++ filter (is_of key) s.rendered;
  rendered = filter (λ l. not (is_of key l)) s.rendered;
}

-- The cleanup and the effect after a change of the state: the setter is taken out and pushed again.
unfoldable pub resubscribe : ℕ → ToastStore → ToastStore
resubscribe key s = record s {
  listeners = filter (λ l. not (is_of key l)) s.listeners ++ filter (is_of key) s.listeners;
}

-- The cleanup when the component goes, also before its effect has run.
unfoldable pub unsubscribe : ℕ → ToastStore → ToastStore
unsubscribe key s = record s {
  listeners = filter (λ l. not (is_of key l)) s.listeners;
  rendered = filter (λ l. not (is_of key l)) s.rendered;
}
