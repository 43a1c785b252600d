-- ===== src/Web/Claims.antt =====
-- webapp/auth.py: the roles and the display name in the claims of a user's tokens.
use Prim.Native.Char.{Char, code}
use wso2_teamspace_demo.Base.{
  ◌-◌, String, Bool, false, not, ◌&&◌, ◌||◌, Option, none, some, List, [], ◌∷◌, ◌++◌, nonempty,
  member, leb, if◌then◌else◌,
}
use text.Mathlib.Text.{char_at?}
use wso2_teamspace_demo.Base.Json.{Json, null, str, arr, obj, Fields, items, field_of, truthy}
use wso2_teamspace_demo.Base.Values.{value_or, or_value, ◌>>?◌}
use wso2_teamspace_demo.Base.Run.{Result, ok, err, other_error}
use wso2_teamspace_demo.Base.Strip.{lstrip, break_space}
use wso2_teamspace_demo.Base.Slices.{contains, partition, after_last, lower_char}

-- A set of texts, as the list of its members; Python leaves their order open.
abbrev pub add : String → List String → List String
add x xs = if member x xs then xs else xs ++ (x ∷ [])

-- `roles.add(…)` for each
unfoldable pub union : List String → List String → List String
union xs [] = xs
union xs (y ∷ ys) = union (add y xs) ys

-- The name in an entry: a text, or the value of an object's first key that counts; other entries have none.
unfoldable pub entry_name : Json → Result (Option String)
entry_name (str s) = ok (some s)
entry_name (obj fs) =
    elim (or_value (value_or null (field_of "value" fs)) (
      or_value (value_or null (field_of "display" fs))
        (value_or (str "") (field_of "displayName" fs)))) [
          | str s ↦ ok (some s)
          | _ ↦ err other_error
        ]
entry_name _ = ok none

-- The loop of `_normalize_roles`; what follows the last slash is the role.
unfoldable pub normalize_from : List String → List Json → Result (List String)
normalize_from roles [] = ok roles
normalize_from roles (entry ∷ raw) = entry_name entry >>? λ name. elim name [
  | none ↦ normalize_from roles raw
  | some s ↦
      let role = after_last "/" s in
      normalize_from (if nonempty role then add role roles else roles) raw
]

-- `_normalize_roles`
abbrev pub normalize_roles : List Json → Result (List String)
normalize_roles raw = normalize_from [] raw

-- The roles in one claim.
abbrev pub claim_roles : Option Json → Result (List String)
claim_roles (some (str s)) = if nonempty s then normalize_roles (str s ∷ []) else ok []
claim_roles (some (arr xs)) = normalize_roles (items xs)
claim_roles _ = ok []

-- The claims that may hold roles.
abbrev pub role_claims : List String
role_claims = "roles" ∷ "application_roles" ∷ "groups" ∷ []

collect : List String → List String → Fields → Result (List String)
collect roles [] claims = ok roles
collect roles (key ∷ keys) claims =
    claim_roles (field_of key claims) >>? λ more. collect (union roles more) keys claims

-- `_extract_roles`
unfoldable pub extract_roles : Fields → Fields → Result (List String)
unfolding collect
extract_roles id_claims access_claims =
    collect [] role_claims id_claims >>? λ roles. collect roles role_claims access_claims

-- `s.title()`: a letter behind a letter is lower case, any other letter upper case.
abbrev upper_char : Char → Char
upper_char c =
    if leb 97 (code c) && leb (code c) 122
    then elim (char_at? "ABCDEFGHIJKLMNOPQRSTUVWXYZ" (code c - 97)) [ none ↦ c | some d ↦ d ]
    else c

abbrev is_letter : Char → Bool
is_letter c = leb 65 (code c) && leb (code c) 90 || leb 97 (code c) && leb (code c) 122

title_from : Bool → String → String
title_from inside String.[] = ""
title_from inside (String.◌∷◌ c s) =
    String.◌∷◌ (if inside then lower_char c else upper_char c) (title_from (is_letter c) s)

abbrev title : String → String
title s = title_from false s

-- A text, or the empty one in place of a value that does not count.
abbrev text_value : Json → Result String
text_value (str s) = ok s
text_value v = if truthy v then err other_error else ok ""

-- The name split at its first white space; one of white space alone has no first part.
full_name_parts : String → Result (String × String)
full_name_parts s =
    let (first, behind) = break_space (lstrip s) in
    if nonempty first then ok (first, lstrip behind) else err other_error

from_email : String → String × String
from_email email =
    if not (contains "@" email)
    then ("User", "")
    else let (prefix, found, domain) = partition "@" email in
      let (domain_name, dot, tld) = partition "." domain in (title prefix, title domain_name)

-- `_derive_display_name`
unfoldable pub derive_display_name : Fields → String → Result (String × String)
unfolding full_name_parts from_email title_from
derive_display_name id_claims email =
    text_value (value_or null (field_of "given_name" id_claims)) >>? λ given_name.
    text_value (value_or null (field_of "family_name" id_claims)) >>? λ family_name.
    if nonempty given_name || nonempty family_name
    then ok (given_name, family_name)
    else (text_value (value_or null (field_of "name" id_claims)) >>? λ full_name.
        if nonempty full_name && not (contains "@" full_name)
        then full_name_parts full_name
        else ok (from_email email))
