-- ===== src/Toast/Laws.antt =====
-- What holds of the notifications after any sequence of calls, dismissals and timers.
use remote_labs.Prelude.{
  All, Bool-cases, List, Option, String, [], ap, arith, eq_iff, false, filter, inl, inr, length,
  length-filter, length-take, map, none, not, refl, some, suc, true, ℕ, ◌++◌, ◌==◌, ◌||◌, ◌∷◌, ◌≡◌,
  ◌≤◌,
}
use remote_labs.Js.Value.{is_empty}
use remote_labs.Toast.{
  Listener, ToastAction, ToastStore, ToastUpdate, ToasterToast, add_to_remove_queue, add_toast,
  deliver, dismiss_toast, dispatch, expire, has, queue_all, reduce, remove_toast, start_timers,
  resubscribe, render, subscribe, toast, toast_limit, unsubscribe, update_toast,
}

-- What can happen to the store.
pub data Step : ToastStore → ToastStore → Type 0 where
  called :
      (title description variant : String) (s : ToastStore)
      → Step s (toast title description variant s)
  updated : (u : ToastUpdate) (s : ToastStore) → Step s (dispatch (update_toast u) s)
  dismissed : (target : Option String) (s : ToastStore) → Step s (dispatch (dismiss_toast target) s)
  -- only a running timer runs out
  expired : (id : String) (s : ToastStore) → has id s.toast_timeouts ≡ true → Step s (expire id s)
  mounted : (key : ℕ) (s : ToastStore) → Step s (render key s)
  subscribed : (key : ℕ) (s : ToastStore) → Step s (subscribe key s)
  resubscribed : (key : ℕ) (s : ToastStore) → Step s (resubscribe key s)
  unmounted : (key : ℕ) (s : ToastStore) → Step s (unsubscribe key s)

pub data Reach (s : ToastStore) : ToastStore → Type 0 where
  here : Reach s s
  next : {t u : ToastStore} → Reach s t → Step t u → Reach s u

-- No timer runs twice.
abbrev pub Distinct : List String → Type 0
Distinct [] = Unit
Distinct (t ∷ ts) = (has t ts ≡ false) × Distinct ts

-- If a state has been delivered to the component, it shows these toasts.
abbrev pub Shows : List ToasterToast → Listener → Type 0
Shows toasts l = l.is_initial ≡ false → l.shown ≡ toasts

abbrev pub IsInitial : Listener → Type 0
IsInitial l = l.is_initial ≡ true

pub record IsSound (s : ToastStore) : Type 0 where
  pub limited : length s.toasts ≤ 1
  pub timers : Distinct s.toast_timeouts
  pub in_step : All (Shows s.toasts) s.listeners
  pub fresh : All IsInitial s.rendered

pub has-append : (id a : String) (ts : List String) → has id (ts ++ a ∷ []) ≡ (has id ts || a == id)
has-append id a [] = ground arith
has-append id a (t ∷ ts) = ground (arith, has-append id a ts)

Distinct-append :
    (a : String) (ts : List String) → has a ts ≡ false → Distinct ts → Distinct (ts ++ a ∷ [])
Distinct-append a [] h d = (refl, tt)
Distinct-append a (t ∷ ts) h d = (
  ground (arith, has-append t a ts, eq_iff a t, eq_iff t a),
  Distinct-append a ts (ground arith) d.1,
)

Distinct-queue : (a : String) (ts : List String) → Distinct ts → Distinct (add_to_remove_queue a ts)
Distinct-queue a ts d = elim (Bool-cases (has a ts)) [
  | inl old ↦ rw old d
  | inr new ↦ rw new (Distinct-append a ts new d)
]

Distinct-queue_all :
    (toasts : List ToasterToast) (ts : List String) → Distinct ts → Distinct (queue_all toasts ts)
Distinct-queue_all [] ts d = d
Distinct-queue_all (t ∷ toasts) ts d =
    Distinct-queue_all toasts (add_to_remove_queue t.id ts) (Distinct-queue t.id ts d)

has-filter :
    (a id : String) (ts : List String)
    → has a ts ≡ false
    → has a (filter (λ t. not (t == id)) ts) ≡ false
has-filter a id [] h = refl
has-filter a id (t ∷ ts) h = ground (arith, has-filter a id ts)

pub Distinct-filter :
    (id : String) (ts : List String) → Distinct ts → Distinct (filter (λ t. not (t == id)) ts)
Distinct-filter id [] d = tt
Distinct-filter id (t ∷ ts) d = elim (Bool-cases (t == id)) [
  | inl same ↦ rw same (Distinct-filter id ts d.1)
  | inr differ ↦ rw differ (has-filter t id ts d.0, Distinct-filter id ts d.1)
]

All-deliver :
    (toasts : List ToasterToast) (ls : List Listener) → All (Shows toasts) (deliver toasts ls)
All-deliver toasts [] = tt
All-deliver toasts (l ∷ ls) = (λ _. refl, All-deliver toasts ls)

pub All-append :
    (P : Listener → Type 0) (ls ms : List Listener) → All P ls → All P ms → All P (ls ++ ms)
All-append P [] ms h k = k
All-append P (l ∷ ls) ms h k = (h.0, All-append P ls ms h.1 k)

pub Shows-fresh :
    (toasts : List ToasterToast) (ls : List Listener) → All IsInitial ls → All (Shows toasts) ls
Shows-fresh toasts [] h = tt
Shows-fresh toasts (l ∷ ls) h = (λ e. absurd (cc (h.0, e)), Shows-fresh toasts ls h.1)

length-map :
    (f : ToasterToast → ToasterToast) (ts : List ToasterToast) → length (map f ts) ≡ length ts
length-map f [] = refl
length-map f (t ∷ ts) = ap suc (length-map f ts)

start_timers-Distinct :
    (toasts : List ToasterToast) (a : ToastAction) (ts : List String)
    → Distinct ts
    → Distinct (start_timers toasts a ts)
unfolding start_timers
start_timers-Distinct toasts (dismiss_toast none) ts d = Distinct-queue_all toasts ts d
start_timers-Distinct toasts (dismiss_toast (some id)) ts d = elim (Bool-cases (is_empty id)) [
  | inl blank ↦ rw blank (Distinct-queue_all toasts ts d)
  | inr named ↦ rw named (Distinct-queue id ts d)
]
start_timers-Distinct toasts _ ts d = d

length-reduce :
    (toasts : List ToasterToast) (a : ToastAction)
    → length toasts ≤ 1
    → length (reduce toasts a) ≤ 1
unfolding reduce
length-reduce toasts (add_toast t) h = length-take toast_limit (t ∷ toasts)
length-reduce toasts (update_toast u) h = rw (length-map _ toasts) h
length-reduce toasts (dismiss_toast target) h = rw (length-map _ toasts) h
length-reduce toasts (remove_toast none) h = omega arith
length-reduce toasts (remove_toast (some id)) h =
    omega (arith, h, length-filter (λ (t : ToasterToast). not (t.id == id)) toasts)

pub dispatch-IsSound : (a : ToastAction) (s : ToastStore) → IsSound s → IsSound (dispatch a s)
unfolding dispatch
dispatch-IsSound a s h = record {
  limited = length-reduce s.toasts a h.limited;
  timers = start_timers-Distinct s.toasts a s.toast_timeouts h.timers;
  in_step = All-deliver (reduce s.toasts a) s.listeners;
  fresh = h.fresh;
}
