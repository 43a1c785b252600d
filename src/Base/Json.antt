-- ===== src/Base/Json.antt =====
-- The values of Python's `json`. Numbers are naturals: no negative number and no fraction occurs in
-- the data that is modelled.
use Prim.Native.Nat.{ℕ}
use Prim.Native.String.{String}
use mathlib.Core.Path.{◌≡◌, refl, ap}
use mathlib.Core.Bool.{Bool, true, false, not}
use mathlib.Core.Option.{Option, none, some}
use mathlib.Core.List.{List, [], ◌∷◌}
use wso2_teamspace_demo.Base.Text.{◌==◌, if◌then◌else◌, nat_eq, nonempty}

mutual
  pub data Json : Type 0 where
    null : Json
    bool : Bool → Json
    num : ℕ → Json
    str : String → Json
    arr : Items → Json
    obj : Fields → Json

  pub data Items : Type 0 where
    nil : Items
    cons : Json → Items → Items

  pub data Fields : Type 0 where
    end : Fields
    field : String → Json → Fields → Fields

-- The items of an array, and an array of items.
unfoldable pub items : Items → List Json
items nil = []
items (cons x xs) = x ∷ items xs

unfoldable pub of_list : List Json → Items
of_list [] = nil
of_list (x ∷ xs) = cons x (of_list xs)

pub items-of_list : (xs : List Json) → items (of_list xs) ≡ xs
unfolding items of_list
items-of_list [] = refl
items-of_list (x ∷ xs) = ap (λ r. x ∷ r) (items-of_list xs)

-- `d.get(k)` on an object.
unfoldable pub field_of : String → Fields → Option Json
field_of k end = none
field_of k (field j v fs) = if j == k then some v else field_of k fs

-- `{k: v for k, v in d.items() if k != name}`
unfoldable pub without_field : String → Fields → Fields
without_field k end = end
without_field k (field j v fs) =
    let rest = without_field k fs in if j == k then rest else field j v rest

-- The truth value of a Python value.
abbrev pub truthy : Json → Bool
truthy null = false
truthy (bool b) = b
truthy (num n) = not (nat_eq n 0)
truthy (str s) = nonempty s
truthy (arr nil) = false
truthy (arr (cons x xs)) = true
truthy (obj end) = false
truthy (obj (field k v fs)) = true

-- `d[k] = v`: the value of a key that is there is replaced in its place.
unfoldable pub with_field : String → Json → Fields → Fields
with_field k v end = field k v end
with_field k v (field j u fs) =
    let rest = with_field k v fs in if j == k then field j v fs else field j u rest
