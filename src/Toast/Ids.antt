-- ===== src/Toast/Ids.antt =====
-- The identifiers of the notifications.
use remote_labs.Prelude.{
  List, Option, String, is_some, none, some, sym, true, [], arith, length, refl, suc, zero, ℕ, ◌%◌,
  ◌+◌, ◌<◌, ◌∙◌, ◌∷◌, ◌≡◌, ◌≢◌,
}
use remote_labs.Js.Value.{num}
use remote_labs.Js.Text.{to_text}
use remote_labs.Js.Text.Decimal.{to_text_inj}
use remote_labs.Toast.{ToastStore, ToasterToast, dispatch, max_safe_integer, reduce, toast}

-- Calls one after the other, each with its title, description and variant.
abbrev pub call_all : List (String × String × String) → ToastStore → ToastStore
call_all [] s = s
call_all (t ∷ ts) s = call_all ts (toast t.0 t.1 t.2 s)

-- The count that is the latest identifier.
abbrev pub counted : ℕ → ℕ → ℕ
counted zero n = n
counted (suc k) n = counted k ((n + 1) % max_safe_integer)

toast-count :
    (title description variant : String) (s : ToastStore)
    → (toast title description variant s).count ≡ (s.count + 1) % max_safe_integer
unfolding toast dispatch
toast-count title description variant s = refl

call_all-count :
    (ts : List (String × String × String)) (s : ToastStore)
    → (call_all ts s).count ≡ counted (length ts) s.count
unfolding toast dispatch
call_all-count [] s = refl
call_all-count (t ∷ ts) s = call_all-count ts (toast t.0 t.1 t.2 s)

-- Counting goes round.
counted_lem : (k n : ℕ) → n < max_safe_integer → counted k n ≡ (n + k) % max_safe_integer
counted_lem zero n h = omega (arith, h)
counted_lem (suc k) n h = counted_lem k ((n + 1) % max_safe_integer) (omega arith) ∙ omega arith

-- The identifier of the toast in front.
abbrev pub first_id : List ToasterToast → Option String
first_id [] = none
first_id (t ∷ ts) = some t.id

toast-first_id :
    (title description variant : String) (s : ToastStore)
    → first_id (toast title description variant s).toasts
      ≡ some (to_text (num (toast title description variant s).count))
unfolding toast dispatch reduce
toast-first_id title description variant s = refl

call_all-first_id :
    (ts : List (String × String × String)) (s : ToastStore)
    → first_id s.toasts ≡ some (to_text (num s.count))
    → first_id (call_all ts s).toasts ≡ some (to_text (num (call_all ts s).count))
call_all-first_id [] s h = h
call_all-first_id (t ∷ ts) s h =
    call_all-first_id ts (toast t.0 t.1 t.2 s) (toast-first_id t.0 t.1 t.2 s)

some_inj : (a b : String) → some a ≡ some b → a ≡ b
some_inj a b h = cc h

-- While the count is a safe integer, a call puts a toast in front whose identifier, read from the
-- toast, is not given again by any of the calls that follow it, as long as they are fewer than the safe
-- integers; and the count stays one.
pub call_all_lem :
    (title description variant : String) (ts : List (String × String × String)) (s : ToastStore)
    → s.count < max_safe_integer
    → 0 < length ts
    → length ts < max_safe_integer
    → let first = toast title description variant s in
      let last = call_all ts first in
      (last.count < max_safe_integer)
      × (is_some (first_id first.toasts) ≡ true)
      × (first_id last.toasts ≢ first_id first.toasts)
call_all_lem title description variant ts s h p b =
    let first = toast title description variant s in
    let last = call_all ts first in
    let f = toast-first_id title description variant s in
    let g = call_all-first_id ts first f in
    let k = toast-count title description variant s in
    let small : first.count < max_safe_integer = omega (arith, h, k) in
    let e = call_all-count ts first ∙ counted_lem (length ts) first.count small in
    (
      omega (arith, e),
      rw f refl,
      λ same. omega (
        arith,
        small,
        p,
        b,
        e,
        to_text_inj last.count first.count (some_inj _ _ (sym g ∙ same ∙ f)),
      ),
    )
