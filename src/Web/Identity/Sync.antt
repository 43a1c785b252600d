-- ===== src/Web/Identity/Sync.antt =====
-- What the identity server is told of a branding is what is read back from it (webapp/is_operations.py).
use wso2_teamspace_demo.Base.{String, ◌≡◌, refl, string_dec}
use wso2_teamspace_demo.Base.Json.{str, Fields, end, field, field_of}
use wso2_teamspace_demo.Base.Values.{value_or}
use wso2_teamspace_demo.Base.Run.{ok}
use wso2_teamspace_demo.Web.Branding.{
  build_is_branding_payload, default_primary_color, default_secondary_color,
}
use wso2_teamspace_demo.Web.Identity.Dual.{branding_of}

-- The branding of an organization, with the defaults for what is missing.
unfoldable pub filled : String → Fields → Fields
filled org_id fs = field "org" (str org_id) (
    field "logo_url" (value_or (str "") (field_of "logo_url" fs)) (
      field "logo_alt_text" (value_or (str "") (field_of "logo_alt_text" fs)) (
        field "favicon_url" (value_or (str "") (field_of "favicon_url" fs)) (
          field "primary_color" (value_or (str default_primary_color) (field_of "primary_color" fs))
            (field "secondary_color"
              (value_or (str default_secondary_color) (field_of "secondary_color" fs)) end)))))

-- The branding that is read back from the payload built for the identity server is the values it
-- was built from, with the defaults filled in.
pub branding_of-build_is_branding_payload :
    (org_id org_name : String) (values : Fields)
    → branding_of org_id (build_is_branding_payload values org_name) ≡ ok (filled org_id values)
unfolding branding_of build_is_branding_payload filled field_of string_dec
branding_of-build_is_branding_payload org_id org_name values = refl
