-- ===== src/Common/Tls.antt =====
-- common/config.py: how a TLS setting is read. Whether a path is a file is a parameter.
use wso2_teamspace_demo.Base.{
  String, ◌≡◌, Bool, true, false, not, ◌&&◌, Option, List, [], ◌∷◌, any, or_empty, nonempty,
  if◌then◌else◌, arith,
}
use wso2_teamspace_demo.Base.Strip.{strip, lower_is}

-- `True`, `False`, or the path of a CA bundle
pub data VerifyTls : Type 0 where
  verify skip : VerifyTls
  bundle : String → VerifyTls

-- `_TRUE_VALUES` and `_FALSE_VALUES`
abbrev pub true_values : List String
true_values = "1" ∷ "true" ∷ "yes" ∷ "on" ∷ []

abbrev pub false_values : List String
false_values = "0" ∷ "false" ∷ "no" ∷ "off" ∷ []

-- `value.lower() in values`
abbrev pub lower_in : String → List String → Bool
lower_in value values = any (λ v. lower_is value v) values

unfoldable pub resolve_verify_tls : (String → Bool) → Option String → Bool → VerifyTls
resolve_verify_tls is_file raw default =
    let value = strip (or_empty raw) in
    if nonempty value
    then (if lower_in value true_values
        then verify
        else if not (lower_in value false_values)
        then (if is_file value then bundle value else verify)
        else skip)
    else (if default then verify else skip)

abbrev pub is_skip : VerifyTls → Bool
is_skip skip = true
is_skip _ = false

-- Verification is off only where the setting is one of the words for false, or nothing is set and
-- the default is off; a CA bundle is used only if its path is the setting and is a file.
pub resolve_verify_tls_lem :
    (is_file : String → Bool) (raw : Option String) (default : Bool)
    → let value = strip (or_empty raw) in
      (is_skip (resolve_verify_tls is_file raw default) ≡ (
        if nonempty value
        then not (lower_in value true_values) && lower_in value false_values
        else not default))
      × ((path : String)
          → resolve_verify_tls is_file raw default ≡ bundle path
          → (path ≡ value) × (is_file path ≡ true))
unfolding resolve_verify_tls
resolve_verify_tls_lem is_file raw default = (ground arith, λ path h. (ground arith, ground arith))
