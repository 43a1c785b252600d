-- ===== src/Base/Same.antt =====
-- Whether two JSON values are written alike.
use Prim.Native.String.{String}
use mathlib.Core.Path.{◌≡◌, refl, ap}
use mathlib.Core.Bool.{Bool, true, false, ◌&&◌}
use native.Mathlib.Omega.{arith}
use wso2_teamspace_demo.Base.Text.{◌==◌, nat_eq}
use wso2_teamspace_demo.Base.Json.{
  Json, null, bool, num, str, arr, obj, Items, nil, cons, Fields, end, field,
}

abbrev same_bool : Bool → Bool → Bool
same_bool true true = true
same_bool false false = true
same_bool _ _ = false

unfoldable mutual
  pub same_json : Json → Json → Bool
  same_json null null = true
  same_json (bool a) (bool b) = same_bool a b
  same_json (num a) (num b) = nat_eq a b
  same_json (str a) (str b) = a == b
  same_json (arr a) (arr b) = same_items a b
  same_json (obj a) (obj b) = same_fields a b
  same_json _ _ = false

  pub same_items : Items → Items → Bool
  same_items nil nil = true
  same_items (cons a x) (cons b y) = same_json a b && same_items x y
  same_items _ _ = false

  pub same_fields : Fields → Fields → Bool
  same_fields end end = true
  same_fields (field j a x) (field k b y) = j == k && same_json a b && same_fields x y
  same_fields _ _ = false

both_true : (a b : Bool) → (a && b) ≡ true → (a ≡ true) × (b ≡ true)
both_true true b h = (refl, h)
both_true false b h = cc

==-sound : (s t : String) → (s == t) ≡ true → s ≡ t
==-sound s t h = ground arith

same_bool_sound : (a b : Bool) → same_bool a b ≡ true → a ≡ b
same_bool_sound true true h = refl
same_bool_sound false false h = refl
same_bool_sound true false h = cc
same_bool_sound false true h = cc

mutual
  unfolding same_json same_items same_fields

  pub same_json_sound : (a b : Json) → same_json a b ≡ true → a ≡ b
  same_json_sound null null h = refl
  same_json_sound (bool a) (bool b) h = ap bool (same_bool_sound a b h)
  same_json_sound (num a) (num b) h = ground arith
  same_json_sound (str a) (str b) h = ground arith
  same_json_sound (arr a) (arr b) h = ap arr (same_items_sound a b h)
  same_json_sound (obj a) (obj b) h = ap obj (same_fields_sound a b h)
  same_json_sound _ _ h = cc

  same_items_sound : (a b : Items) → same_items a b ≡ true → a ≡ b
  same_items_sound nil nil h = refl
  same_items_sound (cons a x) (cons b y) h =
      ground (arith, same_json_sound a b, same_items_sound x y)
  same_items_sound _ _ h = cc

  same_fields_sound : (a b : Fields) → same_fields a b ≡ true → a ≡ b
  same_fields_sound end end h = refl
  same_fields_sound (field j a x) (field k b y) h =
      let (r, t) = both_true (j == k && same_json a b) (same_fields x y) h in
      let (p, q) = both_true (j == k) (same_json a b) r in
      rw (==-sound j k p, same_json_sound a b q, same_fields_sound x y t)
  same_fields_sound _ _ h = cc
