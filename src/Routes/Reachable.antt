-- ===== src/Routes/Reachable.antt =====
-- Where the links of the frame lead.
use remote_labs.Prelude.{
  Bool, List, Option, String, [], arith, false, none, some, true, ◌==◌, ◌||◌, ◌∷◌, ◌↔◌, ◌≡◌, ◌⊎◌,
  inl, inr, refl, ◌∙◌, sym, ap, eq_iff, subst,
}
use remote_labs.Js.Value.{Value}
use remote_labs.Runtime.{Auth, User}
use remote_labs.Auth.{protected_route}
use remote_labs.Markup.{Markup, Offers, empty}
use remote_labs.Routes.{
  Page, app, inner_element, inner_routes, is_admin, outer_routes, page, control_plane_page,
  about_us_page, home_page, my_labs_page, subjects_page, tutorials_page, user_settings_page,
}
use remote_labs.Routes.Guards.{is_public}
use remote_labs.Routes.Frame.{
  FrameEvent, Item, items, follow, app_sidebar, crumbs, get_breadcrumb, if_drawn, layout, layout_of,
  nav_user, sidebar_of, user_menu,
}

abbrev pub in_routes : String → List String → Bool
in_routes path [] = false
in_routes path (r ∷ rs) = r == path || in_routes path rs

-- What the router is known to do: for a path that is an inner pattern itself it picks `*` among the
-- outer patterns, and then that pattern among the inner ones.
pub record Picks (pick : List String → String → Option String) : Type 0 where
  pub inner :
      (path : String) → in_routes path inner_routes ≡ true → pick inner_routes path ≡ some path
  pub outer :
      (path : String) → in_routes path inner_routes ≡ true → pick outer_routes path ≡ some "*"

abbrev Among : List Item → String → Type 0
Among [] url = ⊥
Among (i ∷ rest) url = (i.url ≡ url) ⊎ Among rest url

crumbs-none :
    (path url : String) (is : List Item) → Offers (get_breadcrumb path is) (follow url) → ⊥
crumbs-none path url [] h = absurd h
crumbs-none path url (i ∷ is) h = ground (arith, crumbs-none path url is)

-- The links that every user has.
abbrev always : List Item
always = record { title = "User Settings"; url = "/user-settings" } ∷ items

drawn_lem :
    {A : Type 0} (f : A → Markup FrameEvent) (x : Option A) (m : Markup FrameEvent)
    → if_drawn f x ≡ some m
    → (y : A) × ((x ≡ some y) × (m ≡ f y))
drawn_lem f none m h = absurd (cc h)
drawn_lem f (some y) m h = (y, (refl, cc h))

module _ (initial : Value → Option String) (t : String → String) where
  nav_user-Among :
      (user : Option User) (footer : Markup FrameEvent) (url : String)
      → nav_user initial t user ≡ some footer
      → Offers footer (follow url)
      → Among always url
  nav_user-Among none footer url e h =
      let same : footer ≡ empty = cc e in absurd (subst (λ m. Offers m (follow url)) same h)
  nav_user-Among (some u) footer url e h =
      let (letter, (_, same)) = drawn_lem (user_menu initial t u) (initial u.name) footer e in
      let h' = subst (λ m. Offers m (follow url)) same h in ground arith

  layout_lem :
      (user : Option User) (b : Bool) (path : String) (frame : Markup FrameEvent)
      → layout initial t user b path empty ≡ some frame
      → (footer : Markup FrameEvent) × ((nav_user initial t user ≡ some footer)
          × (frame ≡ layout_of initial t b path empty (sidebar_of initial t user footer)))
  layout_lem user b path frame drawn =
      let (sidebar, (e, same)) =
        drawn_lem (layout_of initial t b path empty) (app_sidebar initial t user) frame drawn in
      let (footer, (e', same')) =
        drawn_lem (sidebar_of initial t user) (nav_user initial t user) sidebar e in
      (footer, (e', same ∙ ap (layout_of initial t b path empty) same'))

-- A link of the frame is there for every user, or is the one of an administrator.
links-Among :
    (initial : Value → Option String) (t : String → String) (user : Option User) (b : Bool)
    (path url : String) (frame : Markup FrameEvent)
    → layout initial t user b path empty ≡ some frame
    → Offers frame (follow url)
    → Among always url ⊎ ((url ≡ "/control-plane") × (is_admin user ≡ true))
links-Among initial t user b path url frame drawn h =
    let (footer, (e, same)) = layout_lem initial t user b path frame drawn in
    let h' = subst (λ m. Offers m (follow url)) same h in
    ground (arith, h', crumbs-none path url crumbs, nav_user-Among initial t user footer url e)

control-offered :
    (initial : Value → Option String) (t : String → String) (user : Option User) (b : Bool)
    (path : String) (frame : Markup FrameEvent)
    → layout initial t user b path empty ≡ some frame
    → is_admin user ≡ true
    → Offers frame (follow "/control-plane")
control-offered initial t user b path frame drawn h =
    let (footer, (_, same)) = layout_lem initial t user b path frame drawn in
    subst (λ m. Offers m (follow "/control-plane")) (sym same) (ground arith)

not-always : Among always "/control-plane" → ⊥
not-always h = ground (
  arith,
  eq_iff "/user-settings" "/control-plane",
  eq_iff "/" "/control-plane",
  eq_iff "/subjects" "/control-plane",
  eq_iff "/mylabs" "/control-plane",
  eq_iff "/tutorials" "/control-plane",
  eq_iff "/about-us" "/control-plane",
)

module _ (pick : List String → String → Option String) (picks : Picks pick) (a : Auth)
    (signed : a.is_logged_in ≡ true) (idle : a.is_loading ≡ false) where
  -- In a session an inner path is shown by its route.
  app-inner :
      (url : String) → in_routes url inner_routes ≡ true → app pick a url ≡ inner_element a.user url
  unfolding app protected_route
  app-inner url inside = rw (picks.outer url inside, idle, signed, picks.inner url inside) refl

  -- The address shows a page of a session.
  abbrev pub Leads : String → Type 0
  Leads url = (q : Page) × (app pick a url ≡ page q) × (is_public q ≡ false)

  always-Leads : (url : String) → Among always url → Leads url
  always-Leads url (inl e) =
      subst Leads e (user_settings_page, app-inner "/user-settings" refl, refl)
  always-Leads url (inr (inl e)) = subst Leads e (home_page, app-inner "/" refl, refl)
  always-Leads url (inr (inr (inl e))) =
      subst Leads e (subjects_page, app-inner "/subjects" refl, refl)
  always-Leads url (inr (inr (inr (inl e)))) =
      subst Leads e (my_labs_page, app-inner "/mylabs" refl, refl)
  always-Leads url (inr (inr (inr (inr (inl e))))) =
      subst Leads e (tutorials_page, app-inner "/tutorials" refl, refl)
  always-Leads url (inr (inr (inr (inr (inr (inl e)))))) =
      subst Leads e (about_us_page, app-inner "/about-us" refl, refl)
  always-Leads url (inr (inr (inr (inr (inr (inr e)))))) = absurd e

  control-Leads : is_admin a.user ≡ true → Leads "/control-plane"
  control-Leads admin = (control_plane_page, app-inner "/control-plane" refl ∙ rw admin refl, refl)

  -- In a session, wherever the frame is drawn, each of the router's links in it leads to a page of the
  -- session that is shown in turn, and there is such a link to the control plane exactly for an
  -- administrator.
  pub links_lem :
      (initial : Value → Option String) (t : String → String) (b : Bool) (path url : String)
      (frame : Markup FrameEvent)
      → layout initial t a.user b path empty ≡ some frame
      → Offers frame (follow url)
      → Leads url × (Offers frame (follow "/control-plane") ↔ (is_admin a.user ≡ true))
  links_lem initial t b path url frame drawn offered = (
    elim (links-Among initial t a.user b path url frame drawn offered) [
      | inl e ↦ always-Leads url e
      | inr e ↦ subst Leads (sym (e.0)) (control-Leads e.1)
    ],
    (
      λ h. elim (links-Among initial t a.user b path "/control-plane" frame drawn h) [
        | inl e ↦ absurd (not-always e)
        | inr e ↦ e.1
      ],
      control-offered initial t a.user b path frame drawn,
    ),
  )
