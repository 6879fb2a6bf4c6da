-- ===== src/Routes/Guards.antt =====
-- Who can see which page.
use remote_labs.Prelude.{
  Bool, List, Option, String, ap, arith, false, if◌then◌else◌, is_some, none, not, refl, some, sym,
  true, ◌&&◌, ◌==◌, ◌||◌, ◌∙◌, ◌≡◌,
}
use remote_labs.Runtime.{Auth, St}
use remote_labs.Auth.{children, nothing, protected_route, redirect}
use remote_labs.Auth.Session.{AuthOp, after_all, after_all-IsConsistent}
use remote_labs.Routes.{
  Page, Shown, app, behind, blank, control_plane_page, if_picked, inner_element, inner_routes,
  is_admin, login_page, moved, outer_element, outer_routes, page, renew_session_page,
  reset_password_page, verify_email_page,
}

-- The pages without a session.
abbrev pub is_public : Page → Bool
is_public login_page = true
is_public verify_email_page = true
is_public reset_password_page = true
is_public renew_session_page = true
is_public _ = false

abbrev pub is_control : Page → Bool
is_control control_plane_page = true
is_control _ = false

-- A page may be shown in a session: it is public, or somebody is signed in, who is an administrator
-- where it is the control plane.
abbrev pub is_allowed : Auth → Page → Bool
is_allowed a p =
    is_public p || (a.is_logged_in && not a.is_loading && (not (is_control p) || is_admin a.user))

abbrev pub allows : Auth → Shown → Bool
allows a (page p) = is_allowed a p
allows a blank = true
allows a (moved url) = true

inner_allows :
    (a : Auth) (route : String)
    → a.is_logged_in ≡ true
    → a.is_loading ≡ false
    → allows a (inner_element a.user route) ≡ true
inner_allows a route l b = ground arith

behind-allows :
    (a : Auth) (route : Option String)
    → allows a (behind (protected_route a) (if_picked (inner_element a.user) route)) ≡ true
unfolding protected_route
behind-allows a route = guarded a.is_loading a.is_logged_in route refl refl
  where
    guarded :
        (b l : Bool) (route : Option String)
        → a.is_loading ≡ b
        → a.is_logged_in ≡ l
        → allows a (
            behind
              (if b then nothing else if l then children else redirect "/login")
              (if_picked (inner_element a.user) route))
          ≡ true
    guarded true l route e f = refl
    guarded false false route e f = refl
    guarded false true none e f = refl
    guarded false true (some r) e f = inner_allows a r f e

-- The tests of the outer routes.
chosen_allows :
    (a : Auth) (inside : Shown)
    → allows a inside ≡ true
    → (b c d e f : Bool)
    → allows a (
        if b
        then page login_page
        else if c
        then page verify_email_page
        else if d
        then page reset_password_page
        else if e
        then page renew_session_page
        else if f
        then inside
        else blank)
      ≡ true
chosen_allows a inside h true c d e f = refl
chosen_allows a inside h false true d e f = refl
chosen_allows a inside h false false true e f = refl
chosen_allows a inside h false false false true f = refl
chosen_allows a inside h false false false false true = h
chosen_allows a inside h false false false false false = refl

outer_allows :
    (pick : List String → String → Option String) (a : Auth) (path route : String)
    → allows a (outer_element pick a path route) ≡ true
outer_allows pick a path route =
    chosen_allows a _ (behind-allows a (pick inner_routes path)) (route == "/login")
      (route == "/verify-email") (route == "/reset-password") (route == "/renew-session")
      (route == "*")

app-allows :
    (pick : List String → String → Option String) (a : Auth) (path : String)
    → allows a (app pick a path) ≡ true
unfolding app
app-allows pick a path = picked (pick outer_routes path)
  where
    picked : (route : Option String) → allows a (if_picked (outer_element pick a path) route) ≡ true
    picked none = refl
    picked (some route) = outer_allows pick a path route

-- Whatever the router picks and after any operations of the session, a page that is shown is public,
-- or there is a user who is signed in, and the control plane is shown to an administrator only.
pub after_all-app :
    (pick : List String → String → Option String) (ops : List AuthOp) (s : St (Unit {0}))
    (path : String) (p : Page)
    → s.world.auth.is_logged_in ≡ is_some s.world.auth.user
    → app pick (after_all ops s).world.auth path ≡ page p
    → let a = (after_all ops s).world.auth in
      (is_allowed a p ≡ true) × (is_public p ≡ false → is_some a.user ≡ true)
after_all-app pick ops s path p h shown =
    let a = (after_all ops s).world.auth in
    let allowed = sym (ap (allows a) shown) ∙ app-allows pick a path in
    (allowed, ground (arith, allowed, after_all-IsConsistent ops s h))
