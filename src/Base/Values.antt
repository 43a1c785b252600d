-- ===== src/Base/Values.antt =====
-- What Python does with a JSON value that a handler takes apart: an operation that the value does not
-- have raises.
use Prim.Native.Nat.{ℕ}
use Prim.Native.String.{String}
use mathlib.Core.Path.{◌≡◌, refl}
use mathlib.Core.Bool.{Bool, false}
use mathlib.Core.Option.{Option, none, some}
use mathlib.Core.List.{List}
use wso2_teamspace_demo.Base.Text.{◌==◌, if◌then◌else◌}
use wso2_teamspace_demo.Base.Json.{Json, str, num, arr, obj, items, field_of, truthy}
use wso2_teamspace_demo.Base.Run.{Result, ok, err, attribute_error, other_error}

abbrev pub number_or : ℕ → Option Json → ℕ
number_or d (some (num n)) = n
number_or d _ = d

-- `value.get(key)` on a JSON value: only an object has it.
abbrev pub get_key : String → Json → Result (Option Json)
get_key k (obj fs) = ok (field_of k fs)
get_key k _ = err attribute_error

-- `value.get(key, default)`
abbrev pub value_or : Json → Option Json → Json
value_or d none = d
value_or d (some v) = v

-- `value[key]`
abbrev pub index_key : String → Json → Result Json
index_key k (obj fs) = elim (field_of k fs) [ none ↦ err other_error | some v ↦ ok v ]
index_key k _ = err other_error

-- iteration over a JSON value: arrays alone are expected
abbrev pub elements : Json → Result (List Json)
elements (arr xs) = ok (items xs)
elements _ = err other_error

abbrev pub is_text : String → Option Json → Bool
is_text s (some (str t)) = s == t
is_text s _ = false

infixl 10 ◌>>?◌
abbrev pub ◌>>?◌ : {A B : Type 0} → Result A → (A → Result B) → Result B
ok a >>? f = f a
err e >>? f = err e

-- `a or b`
abbrev pub or_value : Json → Json → Json
or_value a b = if truthy a then a else b

-- A chain that returns has returned at each step.
pub chain_returned :
    {A B : Type 0} (r : Result A) (f : A → Result B) (b : B)
    → (r >>? f) ≡ ok b
    → (a : A) × (r ≡ ok a) × (f a ≡ ok b)
chain_returned (ok a) f b h = (a, refl, h)
chain_returned (err e) f b h = cc
