-- ===== src/Agent/Outside.antt =====
-- What the agent's handlers call that is not the repository's: the identity server over HTTP,
-- the Business API, PyJWT, `secrets`, `hashlib` and
-- `urllib`. A call that is awaited may change the world: its clocks go on,
-- and other requests are served.
use wso2_teamspace_demo.Base.{ℕ, ◌+◌, String, Dict, Option}
use wso2_teamspace_demo.Base.Json.{Json, Fields}
use wso2_teamspace_demo.Base.Run.{Result, Run, ok}
use wso2_teamspace_demo.Agent.World.{World}

pub data Method : Type 0 where
  get post put delete : Method

pub record Reply : Type 0 where
  pub status_code : ℕ
  pub json : Json
  pub text : String

pub record Outside (S : Type 0) : Type 0 where
  -- `(await client.post(url, data=…)).json()` and the same with `json=…`
  pub post_form : String → Dict Json → Run (World S) Json
  pub post_json : String → Json → Run (World S) Json
  -- the n-th result of `secrets.token_urlsafe`
  pub random_token : ℕ → String
  -- the S256 challenge of a PKCE verifier
  pub challenge : String → String
  pub urlencode : Dict String → String
  -- `httpx.get(…)`, `raise_for_status()` and `json()` of the key set; what it raises is an
  -- `HTTPError` or a `ValueError`
  pub fetch_jwks : Run (World S) Json
  -- PyJWT: the unverified header, and the claims of a token under a key, an audience, an issuer, a
  -- leeway and the wall clock
  pub unverified_header : String → Result Fields
  pub decode_rs256 : String → Json → String → String → ℕ → ℕ → Result Fields
  -- the Business API over HTTP: method, path, bearer token, body
  pub call_api : Method → String → String → Option Json → Run (World S) Reply
  -- `str(value)`
  pub show : Json → String

module _ {S : Type 0} (out : Outside S) where
  abbrev pub token_urlsafe : Run (World S) String
  token_urlsafe w = (ok (out.random_token w.drawn), record w { drawn = w.drawn + 1 })
