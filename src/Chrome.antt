-- ===== src/Chrome.antt =====
-- The small hooks and providers around the pages: web-server/frontend/src/hooks/useScrollToTop.ts
-- and useUserRole.ts, and context/AlertDialogContext.tsx and LoadingContext.tsx.
use remote_labs.Prelude.{
  Bool, List, Option, String, [], arith, false, if◌then◌else◌, not, refl, true, ◌&&◌, ◌++◌, ◌||◌,
  ◌∷◌, ◌≡◌,
}
use remote_labs.Runtime.{Action, St, User, done, modify, skip, ◌>>◌}
use remote_labs.Vm.Table.{has_role}

pub record ScrollTop : Type 0 where
  pub show_scroll : Bool

-- `checkScrollTop` on a scroll of the window; `is_far` says whether the offset is above the limit.
unfoldable pub check_scroll_top : Bool → Action ScrollTop (Unit {0})
check_scroll_top is_far s =
    (if not s.local.show_scroll && is_far
        then modify (λ l. record l { show_scroll = true })
        else if s.local.show_scroll && not is_far
        then modify (λ l. record l { show_scroll = false })
        else skip)
      s

-- The scrolls of the window, each with its offset.
abbrev pub scroll_all : List Bool → Action ScrollTop (Unit {0})
scroll_all [] = skip
scroll_all (is_far ∷ rest) = do check_scroll_top is_far; scroll_all rest

abbrev pub last_far : Bool → List Bool → Bool
last_far b [] = b
last_far b (is_far ∷ rest) = last_far is_far rest

-- The button is shown exactly where the last scroll went beyond the limit, and as before without one.
scroll_all-last_far :
    (scrolls : List Bool) (s : St ScrollTop)
    → ((scroll_all scrolls s).0 ≡ done tt)
      × ((scroll_all scrolls s).1.local.show_scroll ≡ last_far s.local.show_scroll scrolls)
unfolding check_scroll_top
scroll_all-last_far [] s = (refl, refl)
scroll_all-last_far (is_far ∷ rest) s =
    ground (arith, scroll_all-last_far rest (check_scroll_top is_far s).1)

-- `useUserRole`
abbrev pub use_user_role : Option User → Bool
use_user_role user = has_role "professor" user || has_role "admin" user

-- `AlertDialogProvider`
pub record AlertDialog : Type 0 where
  pub is_dialog_open : Bool
  pub dialog_title : String
  pub dialog_description : String

unfoldable pub open_alert : String → String → Action AlertDialog (Unit {0})
open_alert title description = do
  modify (λ l. record l { dialog_title = title })
  modify (λ l. record l { dialog_description = description })
  modify (λ l. record l { is_dialog_open = true })

unfoldable pub handle_close : Action AlertDialog (Unit {0})
handle_close = modify (λ l. record l { is_dialog_open = false })

-- The alerts that handlers show, in their order, without a close between them: only the last one is
-- seen.
abbrev pub open_alerts : List (String × String) → Action AlertDialog (Unit {0})
open_alerts [] = skip
open_alerts (a ∷ rest) = do open_alert a.0 a.1; open_alerts rest

open_alerts_lem :
    (alerts : List (String × String)) (title description : String) (s : St AlertDialog)
    → open_alerts (alerts ++ (title, description) ∷ []) s ≡ (
      done tt,
      record s {
        local = record {
          is_dialog_open = true;
          dialog_title = title;
          dialog_description = description;
        };
      },
    )
unfolding open_alert
open_alerts_lem [] title description s = refl
open_alerts_lem (a ∷ rest) title description s =
    open_alerts_lem rest title description (open_alert a.0 a.1 s).1

-- `LoadingProvider`
pub record LoadingProvider : Type 0 where
  pub is_busy : Bool

unfoldable pub set_provider_loading : Bool → Action LoadingProvider (Unit {0})
set_provider_loading b = modify (λ l. record l { is_busy = b })
