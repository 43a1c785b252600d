-- ===== src/Api/Records/Boundary.antt =====
-- The tenant boundary of the tables with one row for each organization (api/routers/agent_configs.py,
-- personalization.py and plans.py).
use wso2_teamspace_demo.Base.{
  String, ◌≡◌, ◌⊎◌, refl, true, false, ◌&&◌, ◌||◌, Option, none, some, ◌==◌, head?, member, arith,
  inl, inr, Bool-cases, Option-cases, head-all,
}
use wso2_teamspace_demo.Base.Json.{Fields, str, Json}
use wso2_teamspace_demo.Base.Values.{is_text}
use wso2_teamspace_demo.Base.Run.{Result, ok, err, http}
use wso2_teamspace_demo.Api.Auth.{UserInfo, require_scope}
use wso2_teamspace_demo.Api.Table.{Table}
use wso2_teamspace_demo.Api.Records.{
  AgentConfig, Row, has_org, is_own, find_row, upsert, upsert_own, delete_own, get_agent_config,
  delete_agent_config,
}

text_lem :
    (a b : String) (v : Json)
    → is_text a (some v) ≡ true
    → is_text b (some v) ≡ false
    → (a == b) ≡ false
text_lem a b (str t) h k = ground arith
text_lem a b _ h k = cc

disjoint : (a b o : String) → (a == b) ≡ false → (o == a && o == b) ≡ false
disjoint a b o h = ground arith

own_same :
    (a b : String) (user : UserInfo) → (a == b) ≡ true → is_own b user ≡ true → is_own a user ≡ true
own_same a b user same own = ground arith

module _ {A : Type 0} where
  find_row_sound :
      (T : Table (Row A)) (missing org_id : String) (s : T.State) (r : Row A)
      → (find_row T missing org_id s).0 ≡ ok r
      → has_org org_id r ≡ true
  unfolding find_row
  find_row_sound T missing org_id s r h = elim (Option-cases (head? (T.query (has_org org_id) s))) [
    | inl e ↦ absurd (ground arith)
    | inr (x, e) ↦ ground (
      arith,
      head-all (has_org org_id) (T.query (has_org org_id) s) (T.query_sound (has_org org_id) s) e,
    )
  ]

  foreign :
      (org : String) (user : UserInfo) (r : Row A)
      → is_own r.org user ≡ true
      → is_own org user ≡ false
      → has_org org r ≡ false
  foreign org user r own other = text_lem r.org org user.org own other

  kept_upsert :
      (T : Table (Row A)) (user : UserInfo) (org : String) (s : T.State) (body : Row A)
      → is_own org user ≡ false
      → T.query (has_org org) (upsert_own T body user s).1 ≡ T.query (has_org org) s
  unfolding upsert_own upsert
  kept_upsert T user org s body other = elim (Bool-cases (is_own body.org user)) [
    | inr e ↦ ground arith
    | inl own ↦ elim (Option-cases (head? (T.query (has_org body.org) s))) [
      | inl e ↦ ground (arith, T.add_kept body (has_org org) s (foreign org user body own other))
      | inr (r, e) ↦
          let same =
            head-all (has_org body.org) (T.query (has_org body.org) s)
              (T.query_sound (has_org body.org) s) e in
          ground (
            arith,
            T.save_kept r body (has_org org) s
                (foreign org user r (own_same r.org body.org user same own) other)
                (foreign org user body own other),
          )
    ]
  ]

  kept_delete :
      (T : Table (Row A)) (user : UserInfo) (org : String) (s : T.State) (org_id : String)
      → is_own org user ≡ false
      → T.query (has_org org) (delete_own T org_id user s).1 ≡ T.query (has_org org) s
  unfolding delete_own
  kept_delete T user org s org_id other = elim (Bool-cases (is_own org_id user)) [
    | inr e ↦ ground arith
    | inl own ↦ ground (
      arith,
      T.delete_kept (has_org org_id) (has_org org) s
          (λ r. disjoint org_id org r.org (text_lem org_id org user.org own other)),
    )
  ]

  -- Upserts and deletions under the tenant check leave the row of every organization that is not
  -- the caller's as it was.
  pub other_rows_kept :
      (T : Table (Row A)) (user : UserInfo) (org : String) (s : T.State)
      → is_own org user ≡ false
      → ((body : Row A)
          → T.query (has_org org) (upsert_own T body user s).1 ≡ T.query (has_org org) s)
        × ((org_id : String)
            → T.query (has_org org) (delete_own T org_id user s).1 ≡ T.query (has_org org) s)
  other_rows_kept T user org s other =
      (λ body. kept_upsert T user org s body other, λ org_id. kept_delete T user org s org_id other)

module _ (T : Table (Row AgentConfig)) where
  -- The configuration that the route returns is the one of the organization asked for, and either
  -- the service gate passed or, without a service header, the caller is a user of that organization
  -- with the scope view_agent_config or view_agent_config_agent.
  pub get_agent_config_sound :
      (org_id : String) (caller : Option UserInfo) (gate : Option (Result Fields)) (s : T.State)
      (r : Row AgentConfig)
      → (get_agent_config T org_id caller gate s).0 ≡ ok r
      → (has_org org_id r ≡ true)
        × (((claims : Fields) × (gate ≡ some (ok claims)))
            ⊎ ((user : UserInfo) × (caller ≡ some user)
                × (gate ≡ none)
                × ((member "view_agent_config" user.scopes
                      || member "view_agent_config_agent" user.scopes)
                    ≡ true)
                × (is_own org_id user ≡ true)))
  unfolding get_agent_config
  get_agent_config_sound org_id caller (some (err e)) s r h = absurd (ground arith)
  get_agent_config_sound org_id caller (some (ok claims)) s r h =
      (find_row_sound T _ org_id s r h, inl (claims, refl))
  get_agent_config_sound org_id none none s r h = absurd (ground arith)
  get_agent_config_sound org_id (some user) none s r h = (
    ground (arith, find_row_sound T "No agent config found" org_id s r),
    inr (user, refl, refl, ground arith, ground arith),
  )

  -- After a deletion of an agent's configuration that returned, a service is told that there is
  -- none for the organization.
  pub get_agent_config-delete_agent_config :
      (org_id : String) (caller : Option UserInfo) (claims : Fields) (s : T.State)
      → (delete_agent_config T org_id caller s).0 ≡ ok tt
      → (get_agent_config T org_id none
          (some (ok claims))
          (delete_agent_config T org_id caller s).1).0
        ≡ err (http 404 "No agent config found")
  unfolding get_agent_config delete_agent_config delete_own find_row require_scope
  get_agent_config-delete_agent_config org_id none claims s h = absurd (ground arith)
  get_agent_config-delete_agent_config org_id (some user) claims s h =
      ground (arith, T.delete_gone (has_org org_id) s)
