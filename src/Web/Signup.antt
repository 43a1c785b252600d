-- ===== src/Web/Signup.antt =====
-- webapp/blueprints/signup.py, with `slugify` of webapp/utils/helpers.py: the registration of an organization.
-- A refusal names the field; what else is flashed is one of the outcomes. Letters are those of ASCII.
pub mod Steps
use Prim.Native.Char.{Char, code}
use wso2_teamspace_demo.Base.{
  is_space, ℕ, String, ◌<>◌, Bool, true, false, not, ◌&&◌, ◌||◌, Option, none, some, List, [], ◌∷◌,
  ◌++◌, Dict, lookup, nonempty, or_empty, leb, nat_eq, if◌then◌else◌,
}
use wso2_teamspace_demo.Base.Json.{Json, bool, str, arr, nil, cons, obj, end, field}
use wso2_teamspace_demo.Base.Values.{get_key, index_key, value_or}
use wso2_teamspace_demo.Base.Run.{Result, Run, pure, lift, ◌>>=◌, ◌>>◌}
use wso2_teamspace_demo.Base.Strip.{strip}
use wso2_teamspace_demo.Base.Slices.{char_count, contains, partition, lower, same_char, rstrip_char}
use wso2_teamspace_demo.Web.Session.{Web, outside}
use wso2_teamspace_demo.Web.Login.{Authlib, WebConfig, text_of}
use wso2_teamspace_demo.Web.ApiProxy.{ApiClient, save_organization_plan}
use wso2_teamspace_demo.Web.Access.{plan_roles, teamspace_admin, teamspace_user}
use wso2_teamspace_demo.Web.Identity.{
  IsServer, IsSettings, is_call, share_roles_with_org, assign_roles_to_user,
}

-- Whether a letter of a text passes a test: a `search` for one letter.
unfoldable pub any_char : (Char → Bool) → String → Bool
any_char p String.[] = false
any_char p (String.◌∷◌ c s) = let later = any_char p s in p c || later

-- `_FORBIDDEN_ORG_CHARS` and `_CONTROL_CHARS_RE`
abbrev is_forbidden : Char → Bool
is_forbidden c = same_char c "<" || same_char c ">" || same_char c "&" || nat_eq (code c) 0

abbrev is_control : Char → Bool
is_control c = let n = code c in leb n 31 && not (nat_eq n 9 || nat_eq n 10 || nat_eq n 13)

abbrev pub max_org_name : ℕ
max_org_name = 100

abbrev pub max_name : ℕ
max_name = 100

abbrev pub max_password : ℕ
max_password = 128

-- A dot with a letter behind it.
unfoldable pub dot_inside : String → Bool
dot_inside String.[] = false
dot_inside (String.◌∷◌ c s) = let later = dot_inside s in same_char c "." && nonempty s || later

abbrev pub tail : String → String
tail String.[] = ""
tail (String.◌∷◌ c s) = s

-- `_EMAIL_RE`: no `@`, white space or control character but one `@`, and a dot inside of what follows it.
abbrev is_odd : Char → Bool
is_odd c = same_char c "@" || is_space c || leb (code c) 31

unfoldable pub is_email : String → Bool
is_email s =
    let (local, found, domain) = partition "@" s in
    found
    && nonempty local
    && not (any_char is_odd local)
    && not (any_char is_odd domain)
    && dot_inside (tail domain)

-- The checks: the field that is refused, if any.
abbrev pub check_org_name : String → Option String
check_org_name value =
    if not (nonempty value)
      || not (leb (char_count value) max_org_name)
      || any_char is_forbidden value
      || any_char is_control value
    then some "Organization name"
    else none

abbrev pub check_org_handle : String → Option String
check_org_handle value =
    if nonempty value && any_char is_forbidden value then some "Organization handle" else none

abbrev pub check_admin_email : String → Option String
check_admin_email value =
    if not (nonempty value)
      || not (contains "@" value)
      || any_char is_control value
      || not (is_email value)
    then some "Email"
    else none

abbrev pub check_admin_password : String → Option String
check_admin_password value =
    if not (nonempty value) || not (leb (char_count value) max_password)
    then some "Password"
    else none

abbrev pub check_name_field : String → String → Option String
check_name_field label value =
    if not (leb (char_count value) max_name) || any_char is_control value then some label else none

-- The letters that `slugify` keeps, with a dash in place of white space and of an underscore.
abbrev is_word : Char → Bool
is_word c =
    let n = code c in
    leb 48 n && leb n 57 || leb 65 n && leb n 90 || leb 97 n && leb n 122 || same_char c "_"

slug_from : String → String
slug_from String.[] = ""
slug_from (String.◌∷◌ c s) =
    let rest = slug_from s in
    if is_space c || same_char c "_" || same_char c "-"
    then String.◌∷◌ "-" rest
    else if is_word c
    then String.◌∷◌ c rest
    else rest

-- `re.sub(r"-+", "-", text)`; the flag says whether the last letter was a dash.
squeeze : Bool → String → String
squeeze dash String.[] = ""
squeeze dash (String.◌∷◌ c s) =
    let after_dash = squeeze true s in
    let other = squeeze false s in
    if not (same_char c "-")
    then String.◌∷◌ c other
    else if dash
    then after_dash
    else String.◌∷◌ "-" after_dash

-- `slugify`; a leading dash is dropped as one that follows a dash.
unfoldable pub slugify : String → String
unfolding slug_from squeeze
slugify text = rstrip_char "-" (squeeze true (slug_from (strip (lower text))))
