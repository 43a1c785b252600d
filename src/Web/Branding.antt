-- ===== src/Web/Branding.antt =====
-- webapp/is_operations.py: the branding preference that is written to the identity server.
use wso2_teamspace_demo.Base.{String, true, [], ◌∷◌, Dict}
use wso2_teamspace_demo.Base.Json.{Json, bool, str, obj, Fields, end, field, field_of}
use wso2_teamspace_demo.Base.Values.{value_or}

-- `DEFAULT_#4F46E5ARY_COLOR` and `DEFAULT_SECONDARY_COLOR` of common/constants.py
abbrev pub default_primary_color : String
default_primary_color = "#4F46E5"

abbrev pub default_secondary_color : String
default_secondary_color = "#E0E7FF"

-- A dictionary as a JSON object.
unfoldable pub fields_of : Dict Json → Fields
fields_of [] = end
fields_of ((k, v) ∷ d) = field k v (fields_of d)

abbrev pub dict : Dict Json → Json
dict d = obj (fields_of d)

-- The values that a branding gives, with their defaults.
record Chosen : Type 0 where
  primary : Json
  secondary : Json
  logo_url : Json
  logo_alt : Json
  favicon_url : Json

abbrev chosen : Fields → Chosen
chosen fs = record {
  primary = value_or (str default_primary_color) (field_of "primary_color" fs);
  secondary = value_or (str default_secondary_color) (field_of "secondary_color" fs);
  logo_url = value_or (str "") (field_of "logo_url" fs);
  logo_alt = value_or (str "") (field_of "logo_alt_text" fs);
  favicon_url = value_or (str "") (field_of "favicon_url" fs);
}

-- The buttons of the theme.
abbrev theme_buttons : Chosen → Json
theme_buttons b = dict (
    (
      "externalConnection",
      dict (
          (
            "base",
            dict (
                ("background", dict (("backgroundColor", str "#FFFFFF") ∷ []))
                ∷ ("border", dict (("borderRadius", str "22px") ∷ []))
                ∷ ("font", dict (("color", str "#000000de") ∷ []))
                ∷ []),
          )
          ∷ []),
    )
    ∷ (
      "primary",
      dict (
          (
            "base",
            dict (
                ("border", dict (("borderRadius", str "22px") ∷ []))
                ∷ ("font", dict (("color", str "#ffffffe6") ∷ []))
                ∷ []),
          )
          ∷ []),
    )
    ∷ (
      "secondary",
      dict (
          (
            "base",
            dict (
                ("border", dict (("borderRadius", str "22px") ∷ []))
                ∷ ("font", dict (("color", str "#000000de") ∷ []))
                ∷ []),
          )
          ∷ []),
    )
    ∷ [])

-- The colors of the theme.
abbrev theme_colors : Chosen → Json
theme_colors b = dict (
    (
      "alerts",
      dict (
          ("error", dict (("main", str "#ffd8d8") ∷ []))
          ∷ ("info", dict (("main", str "#eff7fd") ∷ []))
          ∷ ("neutral", dict (("main", str "#f8f8f9") ∷ []))
          ∷ ("warning", dict (("main", str "#fff6e7") ∷ []))
          ∷ []),
    )
    ∷ (
      "background",
      dict (
          ("body", dict (("main", str "#fbfbfb") ∷ []))
          ∷ (
            "surface",
            dict (
                ("main", str "#ffffff")
                ∷ ("dark", str "#F6F4F2")
                ∷ ("light", str "#f9fafb")
                ∷ ("inverted", str "#212A32")
                ∷ []),
          )
          ∷ []),
    )
    ∷ (
      "illustrations",
      dict (
          ("accent1", dict (("main", str "#3865B5") ∷ []))
          ∷ ("accent2", dict (("main", str "#19BECE") ∷ []))
          ∷ ("accent3", dict (("main", str "#FFFFFF") ∷ []))
          ∷ ("primary", dict (("main", b.primary) ∷ []))
          ∷ ("secondary", dict (("main", str "#E0E1E2") ∷ []))
          ∷ []),
    )
    ∷ ("outlined", dict (("default", str "#dadce0") ∷ []))
    ∷ ("primary", dict (("main", b.primary) ∷ []))
    ∷ ("secondary", dict (("main", b.secondary) ∷ []))
    ∷ ("text", dict (("primary", str "#000000de") ∷ ("secondary", str "#00000066") ∷ []))
    ∷ [])

-- The images of the theme.
abbrev theme_images : Chosen → Json
theme_images b = dict (
    ("favicon", dict (("imgURL", b.favicon_url) ∷ []))
    ∷ ("logo", dict (("altText", b.logo_alt) ∷ ("imgURL", b.logo_url) ∷ []))
    ∷ ("myAccountLogo", dict (("title", str "Account") ∷ []))
    ∷ [])

abbrev light_theme : Chosen → Json
light_theme b = dict (
    ("buttons", theme_buttons b)
    ∷ ("colors", theme_colors b)
    ∷ ("images", theme_images b)
    ∷ (
      "inputs",
      dict (
          (
            "base",
            dict (
                ("background", dict (("backgroundColor", str "#FFFFFF") ∷ []))
                ∷ ("border", dict (("borderRadius", str "8px") ∷ []))
                ∷ []),
          )
          ∷ []),
    )
    ∷ (
      "loginBox",
      dict (("border", dict (("borderRadius", str "12px") ∷ ("borderWidth", str "1px") ∷ [])) ∷ []),
    )
    ∷ ("typography", dict (("font", dict (("fontFamily", str "Gilmer") ∷ [])) ∷ []))
    ∷ [])

abbrev preference : String → Chosen → Json
preference org_name b = dict (
    ("configs", dict (("isBrandingEnabled", bool true) ∷ ("removeDefaultBranding", bool true) ∷ []))
    ∷ ("layout", dict (("activeLayout", str "centered") ∷ []))
    ∷ ("organizationDetails", dict (("displayName", str org_name) ∷ ("supportEmail", str "") ∷ []))
    ∷ ("theme", dict (("activeTheme", str "LIGHT") ∷ ("LIGHT", light_theme b) ∷ []))
    ∷ (
      "urls",
      dict (
          ("cookiePolicyURL", str "")
          ∷ ("privacyPolicyURL", str "")
          ∷ ("termsOfUseURL", str "")
          ∷ []),
    )
    ∷ [])

-- `build_is_branding_payload`
unfoldable pub build_is_branding_payload : Fields → String → Json
unfolding fields_of
build_is_branding_payload values org_name = dict (
    ("type", str "ORG")
    ∷ ("locale", str "en-US")
    ∷ ("preference", preference org_name (chosen values))
    ∷ [])
