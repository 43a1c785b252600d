-- ===== src/Api/Tests.antt =====
-- Examples for the Business API (api/).
use wso2_teamspace_demo.Base.{
  ℕ, ◌≡◌, ◌⊎◌, ◌||◌, refl, Bool, true, false, ◌&&◌, none, some, [], ◌∷◌, String, Option, words,
  member, string_dec, arith, ◌==◌, ≢-of-==, nat_eq,
}
use wso2_teamspace_demo.Base.Json.{
  Json, str, arr, obj, Fields, end, field, field_of, cons, nil, items,
}
use wso2_teamspace_demo.Base.Same.{same_json, same_json_sound}
use wso2_teamspace_demo.Base.Run.{Result, ok, err, http}
use wso2_teamspace_demo.Common.Jwt.{PyJwt, select_signing_key, find_key}
use wso2_teamspace_demo.Base.Number.{digits}
use wso2_teamspace_demo.Base.Slices.{char_count, drop_chars, take_chars}
use wso2_teamspace_demo.Api.Schemas.{date_iso, start_time_hhmm, fits_mask, days_in, is_leap}
use wso2_teamspace_demo.Api.Table.{Table, memory_table}
use wso2_teamspace_demo.Api.Auth.{
  AuthWorld, Fetched, fetched, get_jwks, keep_keys, UserInfo, user_info, ApiSettings, authenticate,
  get_current_user, require_scope,
}
use wso2_teamspace_demo.Api.Auth.Keys.{get_jwks-get_jwks}
use wso2_teamspace_demo.Api.Auth.Identity.{get_current_user_sound}
use wso2_teamspace_demo.Api.Meetings.{Meeting, MeetingCreate, of_org, new_meeting}
use wso2_teamspace_demo.Api.Meetings.Isolation.{delete, after, other_organizations_kept}
use wso2_teamspace_demo.Api.Records.{
  AgentConfig, Row, has_org, is_own, find_row, upsert_own, delete_own, get_agent_config,
  delete_agent_config,
}
use wso2_teamspace_demo.Api.Records.Boundary.{
  other_rows_kept, get_agent_config_sound, get_agent_config-delete_agent_config,
}

same_option : Option String → Option String → Bool
same_option none none = true
same_option (some a) (some b) = a == b
same_option _ _ = false

same_option_sound : (a b : Option String) → same_option a b ≡ true → a ≡ b
unfolding same_option
same_option_sound none none h = refl
same_option_sound (some a) (some b) h = ground arith
same_option_sound none (some b) h = cc
same_option_sound (some a) none h = cc

abbrev keys : Json
keys = obj (field "keys" (arr (cons (obj (field "kid" (str "k") end)) nil)) end)

abbrev idle : AuthWorld
idle = record { cache = none; mono = 10; wall = 1000 }

abbrev up : String → AuthWorld → Fetched × AuthWorld
up url w = (fetched keys, w)

get_jwks-get_jwks_example :
    get_jwks up "https://is" "/t/a" (record (get_jwks up "https://is" "/t/a" idle).1 { mono = 309 })
    ≡ (ok keys, record (get_jwks up "https://is" "/t/a" idle).1 { mono = 309 })
unfolding get_jwks keep_keys field_of string_dec
get_jwks-get_jwks_example =
    get_jwks-get_jwks up "https://is" "/t/a" "https://is" "/t/a" idle keys 299 refl refl

abbrev claimed : Fields
claimed =
    field "sub" (str "u1") (field "org_id" (str "acme") (field "scope" (str "delete_meeting") end))

abbrev py_jwt : PyJwt
py_jwt = record {
  unverified_header = λ token. ok (field "kid" (str "k") end);
  from_jwk = λ entry. ok entry;
  decode = λ token k audience issuer leeway now. ok claimed;
}

abbrev settings : ApiSettings
settings = record {
  is_base_url = "https://is";
  tenant_path = "/t/a";
  client_id = "app";
  clock_skew = 60;
}

abbrev user : UserInfo
user = record {
  user_id = str "u1";
  org = str "acme";
  email = str "";
  scopes = "delete_meeting" ∷ [];
  groups = arr nil;
  actor_user_id = str "";
  auth_type = str "APPLICATION_USER";
}

get_current_user_example :
    (token : String) × (jwks : Json) × (key : Json) × (decoded : Fields) × (◌≡◌ {A = Option String}
      (some "tok")
      (some token))
    × ((get_jwks up "https://is" "/t/a" idle).0 ≡ ok jwks)
    × (select_signing_key py_jwt jwks token ≡ ok key)
    × (◌≡◌ {A = Result Fields} (ok claimed) (ok decoded))
    × (user_info decoded ≡ ok user)
unfolding get_current_user get_jwks keep_keys authenticate select_signing_key find_key items
    field_of user_info words string_dec
get_current_user_example = get_current_user_sound py_jwt settings up (some "tok") idle user refl

same_meeting : Meeting → Meeting → Bool
same_meeting a b =
    a.id == b.id
    && same_json a.org b.org
    && nat_eq a.created_at b.created_at
    && a.topic == b.topic
    && a.date == b.date
    && a.start_time == b.start_time
    && a.duration == b.duration
    && a.time_zone == b.time_zone
    && same_json a.user_id b.user_id
    && same_json a.email_address b.email_address
    && same_json a.actor_user_id b.actor_user_id

same_meeting_sound : (a b : Meeting) → same_meeting a b ≡ true → a ≡ b
unfolding same_meeting
same_meeting_sound a b h = ground (
  arith,
  same_json_sound a.org b.org,
  same_json_sound a.user_id b.user_id,
  same_json_sound a.email_address b.email_address,
  same_json_sound a.actor_user_id b.actor_user_id,
)

abbrev meetings : Table Meeting
meetings = memory_table same_meeting same_meeting_sound

abbrev body : MeetingCreate
body = record {
  topic = "t";
  date = "2026-01-02";
  start_time = "10:00";
  duration = 30;
  time_zone = "UTC";
}

-- Half an hour is the only duration in these runs.
abbrev in_minutes : ℕ → String
in_minutes n = "30"

abbrev row : Meeting
row = new_meeting in_minutes "m1" 5 body user

str_inj : {a b : String} → str a ≡ str b → a ≡ b
str_inj e = cc

other_organizations_kept_example :
    meetings.query
      (of_org (str "other"))
      (after meetings in_minutes (delete "m1") (some user) (row ∷ []))
    ≡ meetings.query (of_org (str "other")) (row ∷ [])
unfolding string_dec
other_organizations_kept_example =
    other_organizations_kept meetings in_minutes (delete "m1") user (str "other") (row ∷ [])
      (λ e. ≢-of-== "acme" "other" refl (str_inj e))

same_config : Row AgentConfig → Row AgentConfig → Bool
same_config a b =
    a.org == b.org
    && a.columns.agent_id == b.columns.agent_id
    && a.columns.agent_secret == b.columns.agent_secret
    && a.columns.display_name == b.columns.display_name
    && same_option a.columns.description b.columns.description
    && same_option a.columns.gemini_api_key b.columns.gemini_api_key
    && same_option a.columns.org_client_id b.columns.org_client_id
    && same_option a.columns.org_client_secret b.columns.org_client_secret
    && same_option a.columns.custom_prompt b.columns.custom_prompt

same_config_sound : (a b : Row AgentConfig) → same_config a b ≡ true → a ≡ b
unfolding same_config
same_config_sound a b h = ground (
  arith,
  same_option_sound a.columns.description b.columns.description,
  same_option_sound a.columns.gemini_api_key b.columns.gemini_api_key,
  same_option_sound a.columns.org_client_id b.columns.org_client_id,
  same_option_sound a.columns.org_client_secret b.columns.org_client_secret,
  same_option_sound a.columns.custom_prompt b.columns.custom_prompt,
)

abbrev configs : Table (Row AgentConfig)
configs = memory_table same_config same_config_sound

abbrev config : Row AgentConfig
config = record {
  org = "acme";
  columns = record {
    agent_id = "a1";
    agent_secret = "s1";
    display_name = "Bot";
    description = none;
    gemini_api_key = none;
    org_client_id = none;
    org_client_secret = none;
    custom_prompt = none;
  };
}

other_rows_kept_example :
    ((b : Row AgentConfig)
      → configs.query (has_org "other") (upsert_own configs b user (config ∷ [])).1
        ≡ configs.query (has_org "other") (config ∷ []))
    × ((org_id : String)
        → configs.query (has_org "other") (delete_own configs org_id user (config ∷ [])).1
          ≡ configs.query (has_org "other") (config ∷ []))
unfolding string_dec
other_rows_kept_example = other_rows_kept configs user "other" (config ∷ []) refl

get_agent_config_sound_example :
    (has_org "acme" config ≡ true)
    × (((claims : Fields) × (◌≡◌ {A = Option (Result Fields)}
            (some (ok claimed))
            (some (ok claims))))
        ⊎ ((u : UserInfo) × (◌≡◌ {A = Option UserInfo} none (some u))
            × (◌≡◌ {A = Option (Result Fields)} (some (ok claimed)) none)
            × ((member "view_agent_config" u.scopes || member "view_agent_config_agent" u.scopes)
                ≡ true)
            × (is_own "acme" u ≡ true)))
unfolding get_agent_config find_row string_dec
get_agent_config_sound_example =
    get_agent_config_sound configs "acme" none (some (ok claimed)) (config ∷ []) config refl

abbrev admin : UserInfo
admin = record user { scopes = "manage_agent_config" ∷ [] }

get_agent_config-delete_agent_config_example :
    (get_agent_config configs "acme" none
      (some (ok claimed))
      (delete_agent_config configs "acme" (some admin) (config ∷ [])).1).0
    ≡ err (http 404 "No agent config found")
unfolding delete_agent_config delete_own require_scope string_dec
get_agent_config-delete_agent_config_example =
    get_agent_config-delete_agent_config configs "acme" (some admin) claimed (config ∷ []) refl

-- A line feed behind a start time is accepted, behind a date it is not.
start_time_with_line_feed : (start_time_hhmm "14:00\n" ≡ true) × (start_time_hhmm "24:00" ≡ false)
unfolding start_time_hhmm fits_mask digits drop_chars take_chars string_dec
start_time_with_line_feed = (refl, refl)

leap_days :
    (date_iso "2024-02-29" ≡ true)
    × (date_iso "2100-02-29" ≡ false)
    × (date_iso "2024-02-29\n" ≡ false)
unfolding date_iso fits_mask digits drop_chars take_chars char_count days_in is_leap string_dec
leap_days = (refl, refl, refl)
