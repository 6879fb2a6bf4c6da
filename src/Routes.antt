-- ===== src/Routes.antt =====
-- The routes of the application: web-server/frontend/src/App.tsx, with enums/AppRoutes.ts and
-- hooks/useIsAdmin.ts. Which of several patterns fits a path is decided by the router.
pub mod Guards
pub mod Frame
pub mod Reachable
use remote_labs.Prelude.{Bool, List, Option, String, [], if◌then◌else◌, none, some, ◌==◌, ◌∷◌}
use remote_labs.Runtime.{Auth, User}
use remote_labs.Auth.{View, children, nothing, protected_route, redirect}
use remote_labs.Vm.Table.{has_role}

pub data Page : Type 0 where
  login_page verify_email_page reset_password_page renew_session_page home_page subjects_page
        subject_page my_labs_page user_settings_page control_plane_page tutorials_page
        about_us_page :
      Page

-- What the browser shows: a page, nothing, or the page of another address.
pub data Shown : Type 0 where
  page : Page → Shown
  blank : Shown
  moved : String → Shown

-- `useIsAdmin`
abbrev pub is_admin : Option User → Bool
is_admin user = has_role "admin" user

-- `AdminRoute`
abbrev pub admin_route : Option User → Shown → Shown
admin_route user inside = if is_admin user then inside else moved "/"

abbrev pub outer_routes : List String
outer_routes = "/login" ∷ "/verify-email" ∷ "/reset-password" ∷ "/renew-session" ∷ "*" ∷ []

abbrev pub inner_routes : List String
inner_routes =
    "/" ∷ "/subjects" ∷ "/subjects/:id" ∷ "/mylabs" ∷ "/user-settings" ∷ "/control-plane"
    ∷ "/tutorials" ∷ "/about-us" ∷ []

-- The element of an inner route.
abbrev pub inner_element : Option User → String → Shown
inner_element user route =
    if route == "/"
    then page home_page
    else if route == "/subjects"
    then page subjects_page
    else if route == "/subjects/:id"
    then page subject_page
    else if route == "/mylabs"
    then page my_labs_page
    else if route == "/user-settings"
    then page user_settings_page
    else if route == "/control-plane"
    then admin_route user (page control_plane_page)
    else if route == "/tutorials"
    then page tutorials_page
    else if route == "/about-us"
    then page about_us_page
    else blank

abbrev pub if_picked : (String → Shown) → Option String → Shown
if_picked element none = blank
if_picked element (some route) = element route

-- `ProtectedRoute` around what it protects.
abbrev pub behind : View → Shown → Shown
behind nothing inside = blank
behind (redirect url) inside = moved url
behind children inside = inside

-- `pick` is the router's choice among the patterns.
abbrev pub outer_element : (List String → String → Option String) → Auth → String → String → Shown
outer_element pick a path route =
    if route == "/login"
    then page login_page
    else if route == "/verify-email"
    then page verify_email_page
    else if route == "/reset-password"
    then page reset_password_page
    else if route == "/renew-session"
    then page renew_session_page
    else if route == "*"
    then behind (protected_route a) (if_picked (inner_element a.user) (pick inner_routes path))
    else blank

unfoldable pub app : (List String → String → Option String) → Auth → String → Shown
app pick a path = if_picked (outer_element pick a path) (pick outer_routes path)
