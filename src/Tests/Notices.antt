-- ===== src/Tests/Notices.antt =====
-- The notifications.
use remote_labs.Prelude.{[], arith, is_some, true, ◌<◌, ◌∷◌, ◌≡◌, ◌≢◌}
use remote_labs.Toast.{ToastStore, max_safe_integer, render, subscribe, toast}
use remote_labs.Toast.Laws.{IsSound, called, here, mounted, next, subscribed}
use remote_labs.Toast.Reach.{Reach-IsSound}
use remote_labs.Toast.Ids.{call_all, call_all_lem, first_id}

abbrev no_toasts : ToastStore
no_toasts = record { count = 0; toast_timeouts = []; toasts = []; listeners = []; rendered = [] }

no_toasts-IsSound : IsSound no_toasts
no_toasts-IsSound = record { limited = omega arith; timers = tt; in_step = tt; fresh = tt }

-- A call between the first render of a component and its effect.
abbrev missed : ToastStore
missed = subscribe 7 (toast "Saved" "" "" (render 7 no_toasts))

Reach-IsSound_example : IsSound missed
Reach-IsSound_example = Reach-IsSound no_toasts-IsSound (
    next (next (next here (mounted 7 no_toasts)) (called "Saved" "" "" (render 7 no_toasts)))
      (subscribed 7 (toast "Saved" "" "" (render 7 no_toasts))))

call_all_lem_example :
    let first = toast "Saved" "" "" no_toasts in
    let last = call_all (("Error", "again", "") ∷ []) first in
    (last.count < max_safe_integer)
    × (is_some (first_id first.toasts) ≡ true)
    × (first_id last.toasts ≢ first_id first.toasts)
call_all_lem_example =
    call_all_lem "Saved" "" "" (("Error", "again", "") ∷ []) no_toasts (omega arith) (omega arith)
      (omega arith)
