-- ===== src/Roster/Accounts/Offered.antt =====
-- Which accounts the panel of all accounts offers to delete.
use remote_labs.Prelude.{
  subst, List, Option, String, [], arith, false, if◌then◌else◌, none, refl, some, true, ◌↔◌, ◌∷◌,
  ◌≡◌, ◌⊎◌, Bool-cases, inl, inr,
}
use remote_labs.Js.Value.{is_empty}
use remote_labs.Runtime.{St, User, is_thrown, is_text, id_of}
use remote_labs.Js.Value.{Value}
use remote_labs.Markup.Laws.{each-none}
use remote_labs.Markup.Visit.{Visit, opened, after}
use remote_labs.Markup.{Markup, Offers, OffersIn, each}
use remote_labs.Roster.Members.{SubjectUser, is_current}
use remote_labs.Roster.Accounts.{
  Accounts, filtered_users, is_selected, handle_refresh, handle_user_click, handle_delete_user,
}
use remote_labs.Roster.{Roster, delete_user}
use remote_labs.Roster.Changes.{changes_lem, fetch_users-done}
use remote_labs.Roster.Accounts.Panel.Machines.{
  AccountsEvent, Notation, UserInstance, ask_delete, cancel_delete, called_back, click_user,
  refresh, set_search_query, confirm_delete, instance_row, no_rows,
}
use remote_labs.Roster.Accounts.Panel.{user_manager, user_row, respond}

-- An account of the identifier is in the list, and is not the signed-in one.
abbrev pub ListsOther : Option User → String → List SubjectUser → Type 0
ListsOther user id [] = ⊥
ListsOther user id (u ∷ us) = ((u.id ≡ id) × (is_current user u ≡ false)) ⊎ ListsOther user id us

rows-ask :
    (user : Option User) (instances : List UserInstance) (l : Accounts) (id : String)
    (us : List SubjectUser)
    → OffersIn none (each (user_row user instances l) us) (ask_delete id) ↔ (
        ListsOther user id us
        × (no_rows instances ≡ true)
        × (is_selected l.delete_loading id ≡ false))
rows-ask user instances l id [] = (λ h. absurd h, λ h. h.0)
rows-ask user instances l id (u ∷ us) = (
  λ h. ground (arith, rows-ask user instances l id us),
  λ h. ground (arith, rows-ask user instances l id us),
)

-- The machines offer their callbacks alone.
machines-none :
    (n : Notation) (user : Option User) (instances rows : List UserInstance) (e : AccountsEvent)
    → (called_back ≡ e → ⊥)
    → OffersIn none (each (instance_row n user instances) rows) e
    → ⊥
machines-none n user instances rows e other =
    each-none none (instance_row n user instances) e (λ i h. ground arith) rows

asks :
    (n : Notation) (user : Option User) (users : List SubjectUser) (instances : List UserInstance)
    (l : Accounts) (id : String)
    → Offers (user_manager n user users instances l) (ask_delete id)
    → ListsOther user id (filtered_users n.lower l.search_query users)
      × (no_rows instances ≡ true)
      × (is_selected l.delete_loading id ≡ false)
asks n user users instances l id h = ground (
  arith,
  machines-none n user instances instances (ask_delete id) (λ h. cc),
  rows-ask user instances l id (filtered_users n.lower l.search_query users),
)

-- A panel that has read its accounts offers to delete an account exactly if it is among those that
-- the search leaves, is not the signed-in one, is not being deleted, and the list of machines of the
-- selected account is empty. Whether the account itself has machines plays no part.
pub Offers-ask :
    (n : Notation) (user : Option User) (users : List SubjectUser) (instances : List UserInstance)
    (l : Accounts) (id : String)
    → l.users.loading ≡ false
    → l.users.error_text ≡ none
    → Offers (user_manager n user users instances l) (ask_delete id) ↔ (
        ListsOther user id (filtered_users n.lower l.search_query users)
        × (no_rows instances ≡ true)
        × (is_selected l.delete_loading id ≡ false))
Offers-ask n user users instances l id idle fine = (
  asks n user users instances l id,
  λ h. ground (arith, rows-ask user instances l id (filtered_users n.lower l.search_query users)),
)

-- What becomes of the account that is asked about.
abbrev asked_after : AccountsEvent → Option String → Option String
asked_after cancel_delete o = none
asked_after (ask_delete id) o = some id
asked_after (confirm_delete id) o = if is_empty id then o else none
asked_after _ o = o

refresh-asked :
    (s : St Accounts) (o : Option String)
    → (handle_refresh o s).1.local.user_to_delete ≡ s.local.user_to_delete
unfolding handle_refresh
refresh-asked s none = grind (arith, fetch_users-done)
refresh-asked s (some id) = grind (arith, fetch_users-done)

delete_user-ends : (id : String) (s : St Roster) → is_thrown (delete_user id s).0 ≡ false
delete_user-ends id s = (changes_lem "" id s).2.0

handle_delete_user-asked :
    (id : String) (s : St Accounts) → (handle_delete_user id s).1.local.user_to_delete ≡ none
unfolding handle_delete_user
handle_delete_user-asked id s = grind (arith, delete_user-ends)

respond-asked :
    (e : AccountsEvent) (s : St Accounts)
    → (respond e s.local s).1.local.user_to_delete ≡ asked_after e s.local.user_to_delete
unfolding respond
respond-asked cancel_delete s = refl
respond-asked refresh s = refresh-asked s s.local.selected_user_id
respond-asked called_back s = ground arith
respond-asked (set_search_query v) s = refl
respond-asked (click_user id) s = unfold handle_user_click in ground arith
respond-asked (ask_delete id) s = refl
respond-asked (confirm_delete id) s = elim (Bool-cases (is_empty id)) [
  | inl blank ↦ rw blank refl
  | inr given ↦ rw given (handle_delete_user-asked id s)
]

-- The deletion of the signed-in account has not been asked for.
abbrev IsSpared : Option User → Option String → Type 0
IsSpared user none = Unit
IsSpared user (some id) = is_text id (id_of user) ≡ false

others-IsSpared :
    (user : Option User) (id : String) (us : List SubjectUser)
    → ListsOther user id us
    → is_text id (id_of user) ≡ false
others-IsSpared user id [] h = absurd h
others-IsSpared user id (u ∷ us) h = ground (arith, others-IsSpared user id us)

confirms :
    (n : Notation) (user : Option User) (users : List SubjectUser) (instances : List UserInstance)
    (l : Accounts) (id : String)
    → Offers (user_manager n user users instances l) (confirm_delete id)
    → l.user_to_delete ≡ some id
confirms n user users instances l id h = ground (
  arith,
  machines-none n user instances instances (confirm_delete id) (λ h. cc),
  each-none none (user_row user instances l) (confirm_delete id) (λ u h. ground arith)
      (filtered_users n.lower l.search_query users),
)

module _ (n : Notation) (user : Option User) (users : Value → List SubjectUser)
    (machines : Value → List UserInstance) where
  -- The page as it is drawn from the lists of the two hooks.
  abbrev pub panel : Accounts → Markup AccountsEvent
  panel l = user_manager n user (users l.users.rows) (machines l.instances.rows) l

  asked_after-IsSpared :
      (e : AccountsEvent) (us : List SubjectUser) (is : List UserInstance) (l : Accounts)
      → IsSpared user l.user_to_delete
      → Offers (user_manager n user us is l) e
      → IsSpared user (asked_after e l.user_to_delete)
  asked_after-IsSpared cancel_delete us is l h o = tt
  asked_after-IsSpared (ask_delete id) us is l h o =
      others-IsSpared user id (filtered_users n.lower l.search_query us)
        (asks n user us is l id o).0
  asked_after-IsSpared (confirm_delete id) us is l h o = elim (Bool-cases (is_empty id)) [
    | inl blank ↦ rw blank h
    | inr given ↦ rw given tt
  ]
  asked_after-IsSpared _ us is l h o = h

  Visit-IsSpared :
      {s t : St Accounts}
      → IsSpared user s.local.user_to_delete
      → Visit panel respond s t
      → IsSpared user t.local.user_to_delete
  Visit-IsSpared h opened = h
  Visit-IsSpared h (after {t = t} v e offered ends) =
      let before = Visit-IsSpared h v in
      subst (λ u. IsSpared user u.local.user_to_delete) ends
        (rw (respond-asked e t) (
          asked_after-IsSpared e (users t.local.users.rows) (machines t.local.instances.rows)
            t.local before offered))

  -- In any visit of the panel in which nothing is asked at first, whatever the server answers, the
  -- deletion of the signed-in account is never offered for confirmation.
  pub Visit-confirms :
      {s t : St Accounts} (id : String)
      → s.local.user_to_delete ≡ none
      → Visit panel respond s t
      → Offers (panel t.local) (confirm_delete id)
      → is_text id (id_of user) ≡ false
  Visit-confirms {t = t} id start v offered =
      let spared = Visit-IsSpared (rw start tt) v in
      let asked =
        confirms n user (users t.local.users.rows) (machines t.local.instances.rows) t.local id
          offered in
      rw asked at spared
