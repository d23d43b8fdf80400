-- ===== src/Json/Laws.antt =====
-- Reading a dictionary after a write.
use perimetr.Prelude.{String, ◌≡◌, refl, some, ◌==◌, if◌then◌else◌, arith, eq_iff}
use perimetr.Json.{Json, Fields, end, field, get_field, set_field}

pub get_field-set_field :
    (k j : String) (v : Json) (fs : Fields)
    → get_field j (set_field k v fs) ≡ (if k == j then some v else get_field j fs)
unfolding get_field set_field
get_field-set_field k j v end = refl
get_field-set_field k j v (field i w fs) =
    ground (arith, eq_iff k j, eq_iff i k, eq_iff i j, get_field-set_field k j v fs)
