-- ===== src/Actions/Canonical.antt =====
-- validator/action_ir.py, `_canonical`: the value that JSON with sorted keys prints and reads back.
-- What it changes of a value without NaN is the order of the keys.
use ev4_constructability_eng.Base.{String, if◌then◌else◌}
use ev4_constructability_eng.Base.Text.{str_le}
use ev4_constructability_eng.Json.{Json, arr, obj, Items, nil, item, Fields, end, field}

unfoldable pub insert_field : String → Json → Fields → Fields
insert_field k v end = field k v end
insert_field k v (field j w fs) =
    if str_le k j then field k v (field j w fs) else field j w (insert_field k v fs)

unfoldable mutual
  pub canonical : Json → Json
  canonical (arr vs) = arr (canonical_items vs)
  canonical (obj fs) = obj (canonical_fields fs)
  canonical v = v

  pub canonical_items : Items → Items
  canonical_items nil = nil
  canonical_items (item v vs) = item (canonical v) (canonical_items vs)

  pub canonical_fields : Fields → Fields
  canonical_fields end = end
  canonical_fields (field k v fs) = insert_field k (canonical v) (canonical_fields fs)
