-- ===== src/Json/Build.antt =====
-- Writing values: lists and dicts from Python's literals.
use ev4_constructability_eng.Base.{String, List, [], ◌∷◌, map}
use ev4_constructability_eng.Json.Access.{Json, str, arr, obj, Items, nil, item, Fields, end, field}

abbrev pub items_of : List Json → Items
items_of [] = nil
items_of (v ∷ vs) = item v (items_of vs)

abbrev pub fields_of : List (String × Json) → Fields
fields_of [] = end
fields_of ((k, v) ∷ ps) = field k v (fields_of ps)

abbrev pub list_of : List Json → Json
list_of vs = arr (items_of vs)

abbrev pub dict_of : List (String × Json) → Json
dict_of ps = obj (fields_of ps)

abbrev pub texts_of : List String → Json
texts_of ts = list_of (map str ts)
