-- ===== src/Roster/Members/Removal.antt =====
-- The removal of a user on the panel of a subject: where it is offered, and what is shown of its end.
use remote_labs.Prelude.{
  List, Option, String, [], arith, false, is_some, none, not, refl, some, ◌↔◌, ◌∷◌, ◌≡◌, ◌⊎◌,
}
use remote_labs.Runtime.{St, User, accepted, done}
use remote_labs.Env.{api_remove_user_from_subject}
use remote_labs.Markup.{Offers, OffersIn, each, empty, shown_text}
use remote_labs.Vm.Table.{VmListItem}
use remote_labs.Roster.Members.{
  Members, SubjectUser, has_instances, is_current, handle_remove, other_members,
}
use remote_labs.Roster.Members.Laws.{handle_remove_lem, member_url_request}
use remote_labs.Roster.Members.Panel.{
  MembersEvent, is_removing, member_row, remove_member, respond, subject_users_manager,
}

-- A user of the address is in the list, and is not the signed-in one.
abbrev pub ListsOther : Option User → String → List SubjectUser → Type 0
ListsOther user mail [] = ⊥
ListsOther user mail (u ∷ us) =
    ((u.mail ≡ mail) × (is_current user u ≡ false)) ⊎ ListsOther user mail us

-- The rows offer the removal of an address exactly if it is listed and may be removed.
abbrev CanRemove : List VmListItem → Members → String → Type 0
CanRemove vms l mail =
    (has_instances vms mail ≡ false) × (is_removing l.remove_loading mail ≡ false)

rows-remove :
    (vms : List VmListItem) (user : Option User) (l : Members) (mail : String)
    (us : List SubjectUser)
    → OffersIn none (each (member_row vms l) (other_members user us)) (remove_member mail)
      ↔ (ListsOther user mail us × CanRemove vms l mail)
rows-remove vms user l mail [] = (λ h. absurd h, λ h. h.0)
rows-remove vms user l mail (u ∷ us) = (
  λ h. ground (arith, rows-remove vms user l mail us),
  λ h. ground (arith, rows-remove vms user l mail us),
)

shown_text-empty : {E : Type 0} (o : Option String) → shown_text {E = E} o (λ e. empty) ≡ empty
shown_text-empty none = refl
shown_text-empty (some s) = ground arith

-- No row shows the error of a removal where no removal is running.
member_row-error :
    (vms : List VmListItem) (l : Members) (u : SubjectUser)
    → l.remove_loading ≡ none
    → member_row vms l u ≡ member_row vms (record l { remove_error = none }) u
member_row-error vms l u idle = ground (arith, shown_text-empty {E = MembersEvent} l.remove_error)

rows-error :
    (vms : List VmListItem) (l : Members) (us : List SubjectUser)
    → l.remove_loading ≡ none
    → each (member_row vms l) us ≡ each (member_row vms (record l { remove_error = none })) us
rows-error vms l [] idle = refl
rows-error vms l (u ∷ us) idle = cc (member_row-error vms l u idle, rows-error vms l us idle)

panel-error :
    (vms : List VmListItem) (user : Option User) (us : List SubjectUser) (l : Members)
    → l.remove_loading ≡ none
    → subject_users_manager vms user us l
      ≡ subject_users_manager vms user us (record l { remove_error = none })
panel-error vms user us l idle = cc (rows-error vms l (other_members user us) idle)

-- The panel offers to remove an address exactly if another user than the signed-in one is listed with
-- it, no machine of the subject is of that address, and its removal is not running. A removal ends
-- normally and keeps an error exactly if the server does not accept it; but the panel is then the
-- same as without the error, which is so never shown.
pub removal_lem :
    (vms : List VmListItem) (user : Option User) (us : List SubjectUser) (subject_id mail : String)
    (s : St Members)
    → let out = respond subject_id (remove_member mail) s.local s in
      let q =
        member_url_request api_remove_user_from_subject "DELETE" subject_id mail s.world.api_url in
      let later = out.1.local in
      (Offers (subject_users_manager vms user us s.local) (remove_member mail) ↔ (
        ListsOther user mail us
        × (has_instances vms mail ≡ false)
        × (is_removing s.local.remove_loading mail ≡ false)))
      × (out.0 ≡ done tt)
      × (is_some later.remove_error ≡ not (accepted (s.world.net s.world.log q)))
      × (subject_users_manager vms user us later
          ≡ subject_users_manager vms user us (record later { remove_error = none }))
unfolding respond
removal_lem vms user us subject_id mail s =
    let ended = handle_remove_lem subject_id mail s in
    (
      (
        λ h. ground (arith, rows-remove vms user s.local mail us),
        λ h. ground (arith, rows-remove vms user s.local mail us),
      ),
      ended.0,
      ended.2,
      panel-error vms user us (handle_remove subject_id mail s).1.local ended.1,
    )
