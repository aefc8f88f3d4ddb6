-- ===== src/Json/Laws.antt =====
-- Laws of the maps of internal/jsonutil/jsonutil.go.
use codex_model_tester.Base.{ap, arith, refl, ◌≡◌}
use codex_model_tester.Json.{
  Json, null, bool, float, integer, number, str, array, object, Items, nil, cons, Fields, end,
  field, clone_value, clone_items, clone_fields,
}

-- A clone is the value that it was made of.
mutual
  unfolding clone_value

  pub clone_value-id : (v : Json) → clone_value v ≡ v
  clone_value-id null = refl
  clone_value-id (bool b) = refl
  clone_value-id (float x) = refl
  clone_value-id (integer i) = refl
  clone_value-id (number s) = refl
  clone_value-id (str s) = refl
  clone_value-id (array xs) = ap array (clone_items-id xs)
  clone_value-id (object m) = ap object (clone_fields-id m)

  pub clone_items-id : (xs : Items) → clone_items xs ≡ xs
  clone_items-id nil = refl
  clone_items-id (cons x xs) = ground (arith, clone_value-id x, clone_items-id xs)

  pub clone_fields-id : (m : Fields) → clone_fields m ≡ m
  clone_fields-id end = refl
  clone_fields-id (field k v m) = ground (arith, clone_value-id v, clone_fields-id m)
