-- ===== src/Web/Chat.antt =====
-- webapp/blueprints/chat.py: the portal's side of a chat.
-- HTTP to the agent's service, `uuid`, `json.loads` and the rendering of templates are parameters.
pub mod Marker
use wso2_teamspace_demo.Base.{
  ℕ, String, ◌<>◌, Bool, true, false, not, Option, none, some, List, [], ◌∷◌, ◌++◌, Dict, lookup,
  nonempty, nat_eq, if◌then◌else◌,
}
use wso2_teamspace_demo.Base.Json.{Json, null, str, obj, Fields, end, field, field_of, truthy}
use wso2_teamspace_demo.Base.Values.{get_key, value_or, or_value, ◌>>?◌}
use wso2_teamspace_demo.Base.Run
use wso2_teamspace_demo.Base.Run.{Result, ok, err, Run, pure, lift, ◌>>=◌, ◌>>◌}
use wso2_teamspace_demo.Base.Strip.{strip}
use wso2_teamspace_demo.Base.Slices.{contains, behind, before}
use wso2_teamspace_demo.Web.Session.{
  Web, outside, session_get, session_set, session_pop, user_field,
}
use wso2_teamspace_demo.Web.ApiProxy.{ApiClient, get_agent_config_via_service_token}

abbrev pub marker : String
marker = "__METADATA_START__"

-- `chunk.split("__METADATA_START__")` at 0 and at 1
abbrev head_of : String → String
head_of chunk = before marker chunk

abbrev tail_of : String → String
tail_of chunk = elim (behind marker chunk) [ none ↦ "" | some rest ↦ before marker rest ]

-- `_stream_response_chunks`: the texts that are yielded, and the metadata; the flag says whether the marker was
-- seen.
unfoldable pub stream_from : Bool → String → List String → List String × String
stream_from is_metadata metadata [] = ([], metadata)
stream_from is_metadata metadata (chunk ∷ chunks) =
    let skipped = stream_from is_metadata metadata chunks in
    let (later, found) = stream_from true (tail_of chunk) chunks in
    let longer = stream_from true (metadata <> chunk) chunks in
    let (texts, ending) = stream_from false metadata chunks in
    if not (nonempty chunk)
    then skipped
    else if contains marker chunk
    then (head_of chunk ∷ later, found)
    else if is_metadata
    then longer
    else (chunk ∷ texts, ending)

abbrev pub stream_response_chunks : List String → List String × String
stream_response_chunks chunks = stream_from false "" chunks

-- A value of the configuration, or the empty text: `agent_cfg.get(key) or ""`
abbrev cfg : String → String → Fields → Json
cfg key default fs = or_value (value_or null (field_of key fs)) (str default)

-- `_build_agent_chat_payload`, with the locale; `None` is null.
unfoldable pub build_agent_chat_payload : String → String → Json → String → Json → Result Fields
build_agent_chat_payload thread_id message org_name language agent_cfg =
    let agent_fields : Result Fields = if not (truthy agent_cfg) then ok end else elim agent_cfg [
      | obj fs ↦ ok (
          field "agent_id" (cfg "agent_id" "" fs) (
            field "agent_secret" (cfg "agent_secret" "" fs) (
              field "gemini_api_key" (cfg "gemini_api_key" "" fs) (
                field "custom_prompt" (cfg "custom_prompt" "" fs)
                  (field "agent_name" (cfg "display_name" "Worklink Assistant" fs) end)))))
      | _ ↦ err Run.attribute_error
    ] in
    agent_fields >>? λ rest. ok (
      field "thread_id" (str thread_id) (
        field "message" (str message)
          (field "org_name" org_name (field "language" (str language) rest))))

-- The end of an answer of /chat/stream: complete, or a failed connection, or any other exception.
pub data Ending : Type 0 where
  complete unreachable broken : Ending

pub record Answered : Type 0 where
  pub status_code : ℕ
  pub chunks : List String
  pub ending : Ending

-- The agent's service, what is rendered for a pair of tokens, and the rest that is outside.
pub record AgentService (R : Type 0) : Type 0 where
  pub uuid4 : Run R String
  pub locale : Run R String
  pub post_stream : Dict String → Json → R → Option Answered × R
  pub post_clear : String → Dict String → R → R
  pub loads : String → Result Json
  pub inspector : Json → Json → Result String
  pub dumps_inspector : String → String

module _ {R : Type 0} (g : AgentService R) (api : ApiClient R) where
  -- `_ensure_thread_id`
  unfoldable pub ensure_thread_id : Run (Web R) Json
  ensure_thread_id = do
    found ← session_get "chat_thread_id"
    if truthy (value_or null found) then pure (value_or null found) else do
      thread_id ← outside g.uuid4
      session_set "chat_thread_id" (str thread_id)
      session_pop "last_obo_jwt"
      session_pop "last_agent_jwt"
      pure (str thread_id)

  abbrev text_of : Json → String
  text_of (str s) = s
  text_of _ = ""

  -- `_build_agent_chat_payload_via_m2m`
  unfoldable pub build_agent_chat_payload_via_m2m : String → String → Run (Web R) Fields
  build_agent_chat_payload_via_m2m thread_id message w =
      let org_id = user_field "org_id" (str "") w.session in
      let org_name = user_field "org_name" (str "") w.session in
      (do
        agent_cfg ←
            if truthy org_id
            then get_agent_config_via_service_token api (text_of org_id)
            else pure null
        language ← outside g.locale
        lift (build_agent_chat_payload thread_id message org_name language agent_cfg))
        w

  -- `_finalize_stream_metadata`; anything that is raised gives nothing, and what was stored stays.
  unfoldable pub finalize_stream_metadata : String → Web R → Option String × Web R
  finalize_stream_metadata metadata w =
      let (r, w') =
        (do
          value ← lift (g.loads (strip metadata))
          obo ← lift (get_key "obo_jwt" value)
          agent ← lift (get_key "agent_jwt" value)
          let obo_jwt = or_value (value_or null obo) null
          let agent_jwt = or_value (value_or null agent) null
          session_set "last_obo_jwt" obo_jwt
          session_set "last_agent_jwt" agent_jwt
          html ← lift (g.inspector obo_jwt agent_jwt)
          pure (marker <> g.dumps_inspector html))
          w in
      elim r [ ok s ↦ (some s, w') | err e ↦ (none, w') ]

  -- What follows the texts: the metadata, or the message for a failure.
  conclude : Ending → String → Web R → List String × Web R
  conclude unreachable metadata w =
      ("<p>AI Agent service is not running. Start it on port 8000.</p>" ∷ [], w)
  conclude broken metadata w = ("<p>An error occurred while streaming the response.</p>" ∷ [], w)
  conclude complete metadata w =
      if not (nonempty metadata)
      then ([], w)
      else let (last, w') = finalize_stream_metadata metadata w in
        (elim last [ none ↦ [] | some s ↦ s ∷ [] ], w')

  -- The chunks that `generate` yields for an answer of the agent's service; `none` where it was not reached.
  unfoldable pub relay : (ℕ → String) → Option Answered → Web R → List String × Web R
  unfolding conclude
  relay show none w = conclude unreachable "" w
  relay show (some answer) w =
      if not (nat_eq answer.status_code 200)
      then (("<p>Error from Agent Service: status " <> (show answer.status_code <> "</p>")) ∷ [], w)
      else let (texts, metadata) = stream_response_chunks answer.chunks in
        let (last, w') = conclude answer.ending metadata w in (texts ++ last, w')

  -- `send_message_stream`: a refusal, or the chunks of the answer.
  unfoldable pub send_message_stream : (ℕ → String) → String → Run (Web R) (List String)
  send_message_stream show form_message =
      let message = strip form_message in
      if not (nonempty message) then Run.raise (Run.http 400 "Please type a message.") else do
        thread_id ← ensure_thread_id
        payload ← build_agent_chat_payload_via_m2m (text_of thread_id) message
        headers ← outside (λ rest. let (h, rest') = api.auth_headers false rest in (ok h, rest'))
        answer ←
            outside
              (λ rest. let (r, rest') = g.post_stream headers (obj payload) rest in (ok r, rest'))
        λ w. (let (chunks, w') = relay show answer w in (ok chunks, w'))

  -- `clear_chat`
  unfoldable pub clear_chat : Run (Web R) (Unit {0})
  clear_chat = do
    thread_id ← session_get "chat_thread_id"
    session_pop "chat_thread_id"
    session_pop "last_obo_jwt"
    session_pop "last_agent_jwt"
    if truthy (value_or null thread_id)
        then (do
          headers ← outside (λ rest. let (h, rest') = api.auth_headers false rest in (ok h, rest'))
          outside (λ rest. (ok tt, g.post_clear (text_of (value_or null thread_id)) headers rest)))
        else pure tt
