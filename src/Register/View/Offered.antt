-- ===== src/Register/View/Offered.antt =====
-- When the forms of a session can be sent.
use remote_labs.Prelude.{Bool, List, String, arith, false, length, ltb, none, true, ◌↔◌, ◌≡◌, ℕ}
use remote_labs.Js.Text.{units}
use remote_labs.Markup.{Offers}
use remote_labs.Password.{is_password_valid}
use remote_labs.Password.Laws.{is_password_valid_iff}
use remote_labs.Register.{validate}
use remote_labs.Register.View.{SessionPage, inputs_of, login_button, submit_register}

long_enough : (pwd : List ℕ) → is_password_valid pwd ≡ true → ltb (length pwd) 6 ≡ false
long_enough pwd h = ground (arith, (is_password_valid_iff pwd).0 h)

-- The dialogue of a registration sends its form exactly if it is open, nothing is loading and the
-- password meets all requirements of the pages. So the hook's own check of six characters never
-- fails there.
pub Offers-register :
    (t : String → String) (b : Bool) (p : SessionPage)
    → (Offers (login_button t false b p) submit_register ↔ (
        (p.register_open ≡ true)
        × (p.form.is_loading ≡ false)
        × (is_password_valid (units p.password) ≡ true)))
      × (Offers (login_button t false b p) submit_register
          → (validate t (inputs_of p)).password ≡ none)
unfolding validate
Offers-register t b p =
    ((λ h. ground arith, λ h. ground arith), λ h. ground (arith, long_enough (units p.password)))
