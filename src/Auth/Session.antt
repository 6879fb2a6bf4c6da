-- ===== src/Auth/Session.antt =====
-- What the operations of AuthContext.tsx leave behind: the session's invariant and the loading flag.
use remote_labs.Prelude.{List, String, [], arith, is_some, refl, ◌∷◌, ◌≡◌}
use remote_labs.Js.Value.{Value}
use remote_labs.Runtime.{St}
use remote_labs.Auth.{
  authenticate, fetch_user_details, handle_successful_auth, login, logout, on_mount, register,
}
use remote_labs.Cookies.{stored_user_id}

-- A user is held exactly while the flag says that one is logged in.
abbrev pub IsConsistent : {L : Type 0} → St L → Type 0
IsConsistent s = s.world.auth.is_logged_in ≡ is_some s.world.auth.user

module _ {L : Type 0} where
  fetch_user_details-IsConsistent :
      (v : Value) (s : St L) → IsConsistent s → IsConsistent (fetch_user_details v s).1
  unfolding fetch_user_details
  fetch_user_details-IsConsistent v s h = ground arith

  authenticate-IsConsistent :
      (url : String) (body : Value) (s : St L)
      → IsConsistent s
      → IsConsistent (authenticate url body s).1
  unfolding authenticate handle_successful_auth
  authenticate-IsConsistent url body s h = grind (arith, fetch_user_details-IsConsistent)

  register-IsConsistent :
      (name mail password : String) (s : St L)
      → IsConsistent s
      → IsConsistent (register name mail password s).1
  unfolding register
  register-IsConsistent name mail password s h = ground arith

  on_mount-IsConsistent : (s : St L) → IsConsistent s → IsConsistent (on_mount s).1
  unfolding on_mount stored_user_id
  on_mount-IsConsistent s h = grind (arith, fetch_user_details-IsConsistent)

-- What a page may ask of the provider.
pub data AuthOp : Type 0 where
  mounted : AuthOp
  logged_in : String → String → AuthOp
  registered : String → String → String → AuthOp
  logged_out : AuthOp

module _ {L : Type 0} where
  abbrev pub after : AuthOp → St L → St L
  after mounted s = (on_mount s).1
  after (logged_in mail password) s = (login mail password s).1
  after (registered name mail password) s = (register name mail password s).1
  after logged_out s = (logout s).1

  abbrev pub after_all : List AuthOp → St L → St L
  after_all [] s = s
  after_all (op ∷ ops) s = after_all ops (after op s)

  after-IsConsistent : (op : AuthOp) (s : St L) → IsConsistent s → IsConsistent (after op s)
  unfolding login logout
  after-IsConsistent mounted s h = on_mount-IsConsistent s h
  after-IsConsistent (logged_in mail password) s h = authenticate-IsConsistent _ _ s h
  after-IsConsistent (registered name mail password) s h =
      register-IsConsistent name mail password s h
  after-IsConsistent logged_out s h = refl

  -- If a user is held exactly while the provider says that somebody is logged in, then this is
  -- so after any sequence of mounts, logins, registrations and logouts, whatever the server
  -- answers.
  pub after_all-IsConsistent :
      (ops : List AuthOp) (s : St L) → IsConsistent s → IsConsistent (after_all ops s)
  after_all-IsConsistent [] s h = h
  after_all-IsConsistent (op ∷ ops) s h =
      after_all-IsConsistent ops (after op s) (after-IsConsistent op s h)
