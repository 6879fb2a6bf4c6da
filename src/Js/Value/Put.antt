-- ===== src/Js/Value/Put.antt =====
-- Reading a field of an object in which one field was given anew.
use remote_labs.Prelude.{
  Bool-cases, String, arith, eq_iff, if◌then◌else◌, inl, inr, refl, true, ◌==◌, ◌≡◌,
}
use remote_labs.Js.Value.{Fields, Value, end, field, field_of, or_else, put_field, truthy}

pub field_of-put_field :
    (j k : String) (v : Value) (fs : Fields)
    → field_of j (put_field k v fs) ≡ (if k == j then v else field_of j fs)
field_of-put_field j k v end = refl
field_of-put_field j k v (field i w fs) =
    ground (arith, eq_iff i j, eq_iff i k, eq_iff k j, field_of-put_field j k v fs)

-- `(v || d)` holds if the default does.
pub truthy-or_else : (v d : Value) → truthy d ≡ true → truthy (or_else v d) ≡ true
truthy-or_else v d h = elim (Bool-cases (truthy v)) [ inl y ↦ rw y y | inr n ↦ rw n h ]
