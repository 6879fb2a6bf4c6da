-- ===== src/Instance/Shown.antt =====
-- What the lists of machines show: useVMs.ts and useSubjectVMs.ts of web-server/frontend/src/hooks.
use remote_labs.Prelude.{All, Bool, List, Option, String, [], arith, false, refl, true, ◌∷◌, ◌≡◌}
use remote_labs.Js.Value.{
  Fields, Value, end, field_of, null, obj, or_else, prop?, put_field, str, truthy, undefined,
}
use remote_labs.Js.Value.Put.{field_of-put_field, truthy-or_else}
use remote_labs.Runtime.{
  All-filter_each, All-map_each, Keeps, St, User, and_then-keeps, done, done_inj, filter_each,
  filter_each-state, is_text, keeps_rules, map_each, map_each-state, ◌>>=◌,
}
use remote_labs.Instance.{
  VmList, described, enriched, fetch_subject_vms, fetch_vms, of_subject, set_loading, set_vms,
}

-- A machine of the subject.
abbrev pub IsOf : String → Value → Type 0
IsOf subject_id v = is_text subject_id (prop? "subjectId" v) ≡ true

-- A row with a description to show.
abbrev pub IsDescribed : Value → Type 0
IsDescribed v = truthy (prop? "templateDescription" v) ≡ true

described-IsOf :
    (subject_id : String) (v w : Value) (s : St VmList)
    → IsOf subject_id v
    → (described v s).0 ≡ done w
    → IsOf subject_id w
described-IsOf subject_id (obj fs) w s h e =
    rw
      (← done_inj (obj (put_field "templateDescription" (field_of "template_description" fs) fs)) w
        e)
      (rw
        (field_of-put_field "subjectId" "templateDescription" (field_of "template_description" fs)
          fs)
        h)
described-IsOf subject_id (str x) w s h e = absurd (cc h)
described-IsOf subject_id _ w s h e = absurd (cc h)

of_subject-IsOf :
    (subject_id : String) (v : Value) (s : St VmList)
    → (of_subject subject_id v s).0 ≡ done true
    → IsOf subject_id v
of_subject-IsOf subject_id (obj fs) s h = done_inj _ true h
of_subject-IsOf subject_id (str x) s h = absurd (cc h)
of_subject-IsOf subject_id _ s h = absurd (cc h)

shown-IsDescribed :
    (d w : Value) (fs : Fields)
    → done (obj (put_field "templateDescription" (or_else d (str "No description provided")) fs))
      ≡ done w
    → IsDescribed w
shown-IsDescribed d w fs e =
    rw
      (← done_inj
        (obj (put_field "templateDescription" (or_else d (str "No description provided")) fs)) w e)
      (rw
        (field_of-put_field "templateDescription" "templateDescription"
          (or_else d (str "No description provided")) fs)
        (truthy-or_else d (str "No description provided") refl))

enriched-IsDescribed :
    (v w : Value) (s : St VmList) → Unit {0} → (enriched v s).0 ≡ done w → IsDescribed w
enriched-IsDescribed undefined w s h e = absurd (cc e)
enriched-IsDescribed null w s h e = absurd (cc e)
enriched-IsDescribed (obj fs) w s h e =
    shown-IsDescribed (field_of "template_description" fs) w fs e
enriched-IsDescribed _ w s h e = shown-IsDescribed undefined w end e

described-state : (v : Value) (t : St VmList) → (described v t).1 ≡ t
described-state v t = ground arith

enriched-state : (v : Value) (t : St VmList) → (enriched v t).1 ≡ t
enriched-state v t = ground arith

of_subject-state :
    (subject_id : String) (v : Value) (t : St VmList) → (of_subject subject_id v t).1 ≡ t
of_subject-state subject_id v t = ground arith

All-units : (vs : List Value) → All (λ _. Unit {0}) vs
All-units [] = tt
All-units (v ∷ vs) = (tt, All-units vs)

-- The rows that are shown for an answered list, or those that were there if a part of it is not an
-- object.
show_own :
    (subject_id : String) (vs : List Value) (s : St VmList)
    → All (IsOf subject_id) s.local.vms
    → All
        (IsOf subject_id)
        ((do
          own ← filter_each (of_subject subject_id) vs
          subject_vms ← map_each described own
          set_vms subject_vms)
          s).1.local.vms
show_own subject_id vs s h =
    let P : St VmList → Type 0 = λ t. All (IsOf subject_id) t.local.vms in
    let k = filter_each-state (of_subject subject_id) vs s (of_subject-state subject_id) in
    and_then-keeps P (filter_each (of_subject subject_id) vs s).0
      (λ own. map_each described own >>= λ rows. set_vms rows)
      (filter_each (of_subject subject_id) vs s).1 (rw k h)
      (λ own e.
        and_then-keeps P (map_each described own (filter_each (of_subject subject_id) vs s).1).0
          (λ rows. set_vms rows)
          (map_each described own (filter_each (of_subject subject_id) vs s).1).1
          (rw
            (map_each-state described own (filter_each (of_subject subject_id) vs s).1
              described-state)
            (rw k h))
          (λ rows e'.
            All-map_each (IsOf subject_id) (IsOf subject_id) described (described-IsOf subject_id)
              own rows (filter_each (of_subject subject_id) vs s).1
              (All-filter_each (IsOf subject_id) (of_subject subject_id)
                (of_subject-IsOf subject_id) vs own s e)
              e'))

show_enriched :
    (vs : List Value) (s : St VmList)
    → All IsDescribed s.local.vms
    → All IsDescribed
        ((do enriched_data ← map_each enriched vs; set_vms enriched_data) s).1.local.vms
show_enriched vs s h =
    and_then-keeps (λ t. All IsDescribed t.local.vms) (map_each enriched vs s).0
      (λ rows. set_vms rows) (map_each enriched vs s).1
      (rw (map_each-state enriched vs s enriched-state) h)
      (λ rows e.
        All-map_each (λ _. Unit) IsDescribed enriched enriched-IsDescribed vs rows s (All-units vs)
          e)

show_own-Keeps :
    (subject_id : String) (vs : List Value)
    → Keeps
        (λ l. All (IsOf subject_id) l.vms)
        (do
          own ← filter_each (of_subject subject_id) vs
          subject_vms ← map_each described own
          set_vms subject_vms)
show_own-Keeps subject_id vs = record { at = λ s h. show_own subject_id vs s h }

show_enriched-Keeps :
    (vs : List Value)
    → Keeps
        (λ l. All IsDescribed l.vms)
        (do enriched_data ← map_each enriched vs; set_vms enriched_data)
show_enriched-Keeps vs = record { at = λ s h. show_enriched vs s h }

set_loading-Keeps : (Q : Value → Type 0) (b : Bool) → Keeps (λ l. All Q l.vms) (set_loading b)
set_loading-Keeps Q b = record { at = λ s h. h }

no_vms-Keeps : (Q : Value → Type 0) → Keeps (λ l. All Q l.vms) (set_vms [])
no_vms-Keeps Q = record { at = λ s h. tt }

ruleset shown_rules =
    (keeps_rules, show_own-Keeps, show_enriched-Keeps, set_loading-Keeps, no_vms-Keeps)

fetch_subject_vms-Keeps :
    (user : Option User) (subject_id : String) (filter_by_user : Bool)
    → Keeps (λ l. All (IsOf subject_id) l.vms) (fetch_subject_vms user subject_id filter_by_user)
unfolding fetch_subject_vms
fetch_subject_vms-Keeps user subject_id filter_by_user = search shown_rules depth 14

fetch_vms-Keeps : (user : Option User) → Keeps (λ l. All IsDescribed l.vms) (fetch_vms user)
unfolding fetch_vms
fetch_vms-Keeps user = search shown_rules depth 14

-- If the machines shown on a subject's page are machines of that subject, they are so after a
-- load, whatever the server lists and whether all machines are asked for or the user's own; the
-- loading ends and nothing is thrown.
pub fetch_subject_vms_lem :
    (user : Option User) (subject_id : String) (filter_by_user : Bool) (s : St VmList)
    → All (IsOf subject_id) s.local.vms
    → let r = fetch_subject_vms user subject_id filter_by_user s in
      (r.0 ≡ done tt) × (r.1.local.loading ≡ false) × All (IsOf subject_id) r.1.local.vms
unfolding fetch_subject_vms
fetch_subject_vms_lem user subject_id filter_by_user s h =
    (ground arith, ground arith, (fetch_subject_vms-Keeps user subject_id filter_by_user).at s h)

-- If every machine of the user's list is shown with a description, it is so after a load, also
-- for those that the server lists without one; the loading ends and nothing is thrown.
fetch_vms_lem :
    (user : Option User) (s : St VmList)
    → All IsDescribed s.local.vms
    → let r = fetch_vms user s in
      (r.0 ≡ done tt) × (r.1.local.loading ≡ false) × All IsDescribed r.1.local.vms
unfolding fetch_vms
fetch_vms_lem user s h = (ground arith, ground arith, (fetch_vms-Keeps user).at s h)
