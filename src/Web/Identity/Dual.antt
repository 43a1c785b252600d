-- ===== src/Web/Identity/Dual.antt =====
-- webapp/is_operations.py: the branding, which is written to the Business API and to the identity server.
use wso2_teamspace_demo.Base.{
  ℕ, String, ◌<>◌, Bool, true, false, not, ◌||◌, Option, none, some, [], nonempty, nat_eq,
  if◌then◌else◌,
}
use wso2_teamspace_demo.Base.Json.{Json, str, obj, Fields, end, field, truthy}
use wso2_teamspace_demo.Base.Values.{get_key, value_or, ◌>>?◌}
use wso2_teamspace_demo.Base.Run.{Result, ok, err, Run, pure, ◌>>=◌}
use wso2_teamspace_demo.Web.Session.{Web, outside}
use wso2_teamspace_demo.Web.ApiProxy.{ApiClient, upsert_personalization, delete_personalization}
use wso2_teamspace_demo.Web.Branding.{
  build_is_branding_payload, default_primary_color, default_secondary_color,
}
use wso2_teamspace_demo.Web.Identity.{IsReply, IsSettings, IsServer, is_call}

-- `DualWriteResult`, its debug data left out
pub record DualWriteResult : Type 0 where
  pub db_success : Bool
  pub is_success : Bool
  pub db_status : ℕ
  pub is_status : ℕ

abbrev pub is_saved : ℕ → Bool
is_saved status = nat_eq status 200 || nat_eq status 201

abbrev pub is_removed : ℕ → Bool
is_removed status = is_saved status || nat_eq status 204

module _ {R : Type 0} (s : IsServer R) (c : IsSettings) (api : ApiClient R) where
  abbrev synced : Bool → ℕ → ℕ → DualWriteResult
  synced is_success db_status is_status = record {
    db_success = true;
    is_success = is_success;
    db_status = db_status;
    is_status = is_status;
  }

  -- The write to the identity server: an update, or a creation where there was nothing to update.
  write_branding : String → String → Json → Run R IsReply
  write_branding endpoint token body = do
    result ← is_call s c "PUT" endpoint token [] (some body)
    if nat_eq result.status_code 404
        then is_call s c "POST" endpoint token [] (some body)
        else pure result

  -- `update_branding`
  unfoldable pub update_branding : Fields → String → String → String → Run (Web R) DualWriteResult
  unfolding write_branding
  update_branding values token tenant_path org_name = do
    db_result ← upsert_personalization api (obj values)
    if not (is_saved db_result.status_code)
        then pure (record {
          db_success = false;
          is_success = false;
          db_status = db_result.status_code;
          is_status = 0;
        })
        else if not (nonempty token)
        then pure (synced false db_result.status_code 0)
        else do
          result ← outside (
              write_branding (tenant_path <> "/o/api/server/v1/branding-preference") token
                (build_is_branding_payload values org_name))
          pure (synced (is_saved result.status_code) db_result.status_code result.status_code)

  -- `delete_branding`
  unfoldable pub delete_branding : String → String → String → Run (Web R) DualWriteResult
  delete_branding org_id token tenant_path = do
    db_result ← delete_personalization api org_id
    if not (nonempty token)
        then pure (record {
          db_success = is_removed db_result.status_code;
          is_success = false;
          db_status = db_result.status_code;
          is_status = 0;
        })
        else do
          result ← outside (
              is_call s c "DELETE"
                (tenant_path
                  <> ("/o/api/server/v1/branding-preference?locale=en-US&name="
                      <> (org_id <> "&type=ORG")))
                token [] none)
          pure (record {
            db_success = is_removed db_result.status_code;
            is_success = nat_eq result.status_code 200 || nat_eq result.status_code 204;
            db_status = db_result.status_code;
            is_status = result.status_code;
          })

-- `value.get(key, {})`
abbrev sub_object : String → Json → Result Json
sub_object key v = get_key key v >>? λ found. ok (value_or (obj end) found)

-- `t.get(outer, {}).get(inner, {}).get(key, default)`
abbrev deep : String → String → String → Json → Json → Result Json
deep outer inner key default t = sub_object outer t >>? λ a.
    sub_object inner a >>? λ b. get_key key b >>? λ found. ok (value_or default found)

-- The `try` block of `fetch_branding_from_is`
unfoldable pub branding_of : String → Json → Result Fields
branding_of org_id answer = sub_object "preference" answer >>? λ pref.
    sub_object "theme" pref >>? λ theme. get_key "activeTheme" theme >>? λ named.
    sub_object (elim (value_or (str "LIGHT") named) [ str s ↦ s | _ ↦ "" ]) theme >>? λ t.
    deep "images" "logo" "imgURL" (str "") t >>? λ logo_url.
    deep "images" "logo" "altText" (str "") t >>? λ logo_alt_text.
    deep "images" "favicon" "imgURL" (str "") t >>? λ favicon_url.
    deep "colors" "primary" "main" (str default_primary_color) t >>? λ primary_color.
    deep "colors" "secondary" "main" (str default_secondary_color) t >>? λ secondary_color. ok (
      field "org" (str org_id) (
        field "logo_url" logo_url (
          field "logo_alt_text" logo_alt_text (
            field "favicon_url" favicon_url (
              field "primary_color" primary_color (field "secondary_color" secondary_color end))))))

module _ {R : Type 0} (s : IsServer R) (c : IsSettings) where
  -- `fetch_branding_from_is`
  unfoldable pub fetch_branding_from_is : String → String → String → Run R (Option Fields)
  fetch_branding_from_is org_id token tenant_path = if not (nonempty token) then pure none else do
    result ←
        is_call s c "GET"
          (tenant_path
            <> ("/o/api/server/v1/branding-preference/resolve?locale=en-US&name="
                <> (org_id <> "&type=ORG")))
          token [] none
    if not (nat_eq result.status_code 200) || not (truthy result.content)
        then pure none
        else pure (elim (branding_of org_id result.content) [ ok fs ↦ some fs | err e ↦ none ])
