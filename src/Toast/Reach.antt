-- ===== src/Toast/Reach.antt =====
-- The invariant of the notifications over every sequence of events, and what a dismissal achieves.
use remote_labs.Prelude.{
  All, All-filter, Bool-cases, List, String, [], arith, eq_iff, eq_refl, false, filter,
  if◌then◌else◌, inl, inr, map, not, refl, some, true, ◌==◌, ◌∷◌, ◌≡◌, ◌≢◌,
}
use remote_labs.Js.Value.{is_empty}
use remote_labs.Toast.{
  ToastStore, ToasterToast, add_to_remove_queue, close, dismiss_toast, dispatch, expire, has,
  is_target, new_toast, next_id, reduce, remove_toast, start_timers, is_of, render, resubscribe,
  subscribe, toast, unsubscribe, update_toast,
}
use remote_labs.Toast.Laws.{
  All-append, IsInitial, Shows-fresh, Distinct-filter, IsSound, Reach, Shows, Step, called,
  dismissed, dispatch-IsSound, expired, has-append, here, mounted, next, resubscribed, subscribed,
  unmounted, updated,
}

Step-IsSound : {s t : ToastStore} → Step s t → IsSound s → IsSound t
unfolding toast expire render subscribe resubscribe unsubscribe
Step-IsSound (called title description variant s) h =
    dispatch-IsSound (new_toast (next_id s) title description variant)
      (record s { count = next_id s })
      (record { limited = h.limited; timers = h.timers; in_step = h.in_step; fresh = h.fresh })
Step-IsSound (updated u s) h = dispatch-IsSound (update_toast u) s h
Step-IsSound (dismissed target s) h = dispatch-IsSound (dismiss_toast target) s h
Step-IsSound (expired id s running) h =
    dispatch-IsSound (remove_toast (some id))
      (record s { toast_timeouts = filter (λ t. not (t == id)) s.toast_timeouts })
      (record {
        limited = h.limited;
        timers = Distinct-filter id s.toast_timeouts h.timers;
        in_step = h.in_step;
        fresh = h.fresh;
      })
Step-IsSound (mounted key s) h = record {
  limited = h.limited;
  timers = h.timers;
  in_step = h.in_step;
  fresh = All-append IsInitial s.rendered _ h.fresh (refl, tt);
}
Step-IsSound (subscribed key s) h = record {
  limited = h.limited;
  timers = h.timers;
  in_step =
      All-append (Shows s.toasts) s.listeners _ h.in_step
        (Shows-fresh s.toasts _ (All-filter IsInitial (is_of key) s.rendered h.fresh));
  fresh = All-filter IsInitial (λ l. not (is_of key l)) s.rendered h.fresh;
}
Step-IsSound (resubscribed key s) h = record {
  limited = h.limited;
  timers = h.timers;
  in_step =
      All-append (Shows s.toasts) _ _
        (All-filter (Shows s.toasts) (λ l. not (is_of key l)) s.listeners h.in_step)
        (All-filter (Shows s.toasts) (is_of key) s.listeners h.in_step);
  fresh = h.fresh;
}
Step-IsSound (unmounted key s) h = record {
  limited = h.limited;
  timers = h.timers;
  in_step = All-filter (Shows s.toasts) (λ l. not (is_of key l)) s.listeners h.in_step;
  fresh = All-filter IsInitial (λ l. not (is_of key l)) s.rendered h.fresh;
}

-- In a store where there is at most one toast, no identifier has two timers, every listening component
-- shows these toasts once a state has been delivered to it, and none has been to a component whose
-- effect has not run, this is so after any sequence of calls, updates, dismissals, timers, first
-- renders, runs of the effect and unmounts.
pub Reach-IsSound : {s t : ToastStore} → IsSound s → Reach s t → IsSound t
Reach-IsSound h here = h
Reach-IsSound h (next r step) = Step-IsSound step (Reach-IsSound h r)

has-queue_self : (id : String) (ts : List String) → has id (add_to_remove_queue id ts) ≡ true
has-queue_self id ts = elim (Bool-cases (has id ts)) [
  | inl old ↦ rw old old
  | inr new ↦ rw new (rw (has-append id id ts) (ground (arith, eq_refl id)))
]

-- A toast is closed.
abbrev pub IsClosed : ToasterToast → Type 0
IsClosed t = t.is_open ≡ false

IsClosed-target :
    (id : String) (ts : List ToasterToast)
    → All (λ t. t.id ≡ id → IsClosed t) (map (λ t. if is_target (some id) t then close t else t) ts)
IsClosed-target id [] = tt
IsClosed-target id (t ∷ ts) = (ground (arith, eq_iff t.id id), IsClosed-target id ts)

no_target :
    (id : String) (ts : List ToasterToast)
    → All (λ t. t.id ≢ id) (filter (λ t. not (t.id == id)) ts)
no_target id [] = tt
no_target id (t ∷ ts) = elim (Bool-cases (t.id == id)) [
  | inl same ↦ rw same (no_target id ts)
  | inr differ ↦ rw differ (ground (arith, eq_iff t.id id), no_target id ts)
]

-- A dismissal of a toast whose name is not empty closes it at once and has a timer running for
-- it; when that timer runs out, no toast of the name is left.
dismiss_lem :
    (id : String) (s : ToastStore)
    → is_empty id ≡ false
    → let t = dispatch (dismiss_toast (some id)) s in
      All (λ x. x.id ≡ id → IsClosed x) t.toasts
      × (has id t.toast_timeouts ≡ true)
      × All (λ x. x.id ≢ id) (expire id t).toasts
unfolding dispatch expire reduce start_timers
dismiss_lem id s e =
    (IsClosed-target id s.toasts, rw e (has-queue_self id s.toast_timeouts), no_target id _)
