-- ===== src/Routes/Frame.antt =====
-- The frame of the pages in a session: web-server/frontend/src/pages/Layout.tsx, with the parts
-- components/sidebar/app-sidebar.tsx and nav-user.tsx, components/mode-toggle.tsx,
-- LanguageSelector.tsx and ScrollToTopButton.tsx.
use remote_labs.Prelude.{Bool, List, Option, String, [], if◌then◌else◌, none, some, ◌==◌, ◌∷◌}
use remote_labs.Js.Text.{to_text}
use remote_labs.Js.Value.{Value}
use remote_labs.Runtime.{User}
use remote_labs.Markup.{Markup, all, attr, each, element, empty, on_click, shown_if, text}
use remote_labs.Routes.{is_admin}

pub data FrameEvent : Type 0 where
  -- a link of the router to an address
  follow : String → FrameEvent
  -- a plain link, by which the browser loads the page anew
  load : String → FrameEvent
  -- `setTheme` of the context
  set_theme : String → FrameEvent
  -- `logout` of the context
  log_out : FrameEvent
  scroll_top : FrameEvent

pub record Item : Type 0 where
  pub title : String
  pub url : String

abbrev pub link : String → String → Markup FrameEvent
link url title = element "Link" (on_click (follow url) ∷ []) (element "span" [] (text title))

abbrev pub items : List Item
items =
    record { title = "Home"; url = "/" }
    ∷ record { title = "Subjects"; url = "/subjects" }
    ∷ record { title = "MyLabs"; url = "/mylabs" }
    ∷ record { title = "Tutorials"; url = "/tutorials" }
    ∷ record { title = "About Us"; url = "/about-us" }
    ∷ []

abbrev pub item_row : Item → Markup FrameEvent
item_row i = element "SidebarMenuItem" [] (link i.url i.title)

-- The cases of `getBreadcrumb`.
abbrev pub crumbs : List Item
crumbs =
    record { title = "Home"; url = "/" }
    ∷ record { title = "Subjects"; url = "/subjects" }
    ∷ record { title = "My Labs"; url = "/mylabs" }
    ∷ record { title = "Tutorials"; url = "/tutorials" }
    ∷ record { title = "About Us"; url = "/about-us" }
    ∷ record { title = "Control Panel"; url = "/control-plane" }
    ∷ record { title = "User Settings"; url = "/user-settings" }
    ∷ []

abbrev pub get_breadcrumb : String → List Item → Markup FrameEvent
get_breadcrumb path [] = empty
get_breadcrumb path (i ∷ rest) =
    if path == i.url
    then element "BreadcrumbLink" (on_click (load i.url) ∷ []) (text i.title)
    else get_breadcrumb path rest

-- A part that is drawn once another one is.
abbrev pub if_drawn : {A : Type 0} → (A → Markup FrameEvent) → Option A → Option (Markup FrameEvent)
if_drawn f none = none
if_drawn f (some x) = some (f x)

-- `initial` is `name.charAt(0).toUpperCase()`, and nothing where the call throws, as it does for a
-- name that is missing; `t` is the translation.
module _ (initial : Value → Option String) (t : String → String) where
  abbrev pub user_card : String → User → Markup FrameEvent
  user_card letter u = all (
      element "AvatarFallback" [] (text letter)
      ∷ element "span" [] (text (to_text u.name))
      ∷ element "span" [] (text (to_text u.mail))
      ∷ [])

  abbrev pub user_menu : User → String → Markup FrameEvent
  user_menu u letter = element "DropdownMenu" [] (
      all (
        element "DropdownMenuTrigger" [] (user_card letter u)
        ∷ element "DropdownMenuLabel" [] (user_card letter u)
        ∷ element "DropdownMenuItem" [] (link "/user-settings" (t "User Settings"))
        ∷ element "DropdownMenuItem" (on_click log_out ∷ []) (text (t "Log out"))
        ∷ []))

  -- `NavUser`
  abbrev pub nav_user : Option User → Option (Markup FrameEvent)
  nav_user none = some empty
  nav_user (some u) = if_drawn (user_menu u) (initial u.name)

  abbrev pub sidebar_of : Option User → Markup FrameEvent → Markup FrameEvent
  sidebar_of user footer = element "Sidebar" [] (
      all (
        element "SidebarGroupLabel" [] (text "RemoteLabs")
        ∷ each item_row items
        ∷ shown_if (is_admin user)
            (element "SidebarMenuItem" [] (link "/control-plane" "Control Panel"))
        ∷ element "SidebarFooter" [] footer
        ∷ []))

  -- `AppSidebar`
  abbrev pub app_sidebar : Option User → Option (Markup FrameEvent)
  app_sidebar user = if_drawn (sidebar_of user) (nav_user user)

  -- `LanguageSelector`: a notice, no choice
  abbrev pub language_selector : Markup FrameEvent
  language_selector = element "TooltipContent" [] (
      text
        "We are currently translating our content to better communicate in your language. For now, please use your browser's built-in translation feature.")

  -- `ModeToggle`
  abbrev pub mode_toggle : Markup FrameEvent
  mode_toggle = element "DropdownMenu" [] (
      all (
        element "span" [] (text "Toggle theme")
        ∷ element "DropdownMenuItem" (on_click (set_theme "light") ∷ []) (text "Light")
        ∷ element "DropdownMenuItem" (on_click (set_theme "dark") ∷ []) (text "Dark")
        ∷ element "DropdownMenuItem" (on_click (set_theme "system") ∷ []) (text "System")
        ∷ []))

  -- `ScrollToTopButton` is there at any offset: where it is not shown it has no extent.
  abbrev pub scroll_to_top_button : Bool → Markup FrameEvent
  scroll_to_top_button show_scroll =
      element "Button"
        (attr "className" (if show_scroll then "scale-100" else "scale-0")
          ∷ on_click scroll_top
          ∷ [])
        empty

  abbrev pub layout_of : Bool → String → Markup FrameEvent → Markup FrameEvent → Markup FrameEvent
  layout_of show_scroll path children sidebar = element "SidebarProvider" [] (
      all (
        sidebar
        ∷ element "h1" [] (text "RemoteLabs")
        ∷ language_selector
        ∷ mode_toggle
        ∷ element "Breadcrumb" [] (get_breadcrumb path crumbs)
        ∷ element "main" [] children
        ∷ element "Toaster" [] empty
        ∷ scroll_to_top_button show_scroll
        ∷ []))

  -- `Layout`, around the page of a path, if it is drawn.
  abbrev pub layout : Option User → Bool → String → Markup FrameEvent → Option (Markup FrameEvent)
  layout user show_scroll path children =
      if_drawn (layout_of show_scroll path children) (app_sidebar user)
