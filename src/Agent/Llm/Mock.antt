-- ===== src/Agent/Llm/Mock.antt =====
-- agent/gemini_agent.py: the answers without a model, which the setting MOCK_LLM asks for.
-- The dispatch of a tool call is a parameter, and so is `str(value)`.
use wso2_teamspace_demo.Base.{
  String, ◌<>◌, Bool, ◌&&◌, ◌||◌, Option, none, some, List, [], ◌∷◌, Dict, any, words, ltb,
  if◌then◌else◌,
}
use wso2_teamspace_demo.Base.Json.{Json, str, arr, nil, Fields, end, field, field_of, truthy}
use wso2_teamspace_demo.Base.Values.{get_key, index_key, value_or, is_text, elements}
use wso2_teamspace_demo.Base.Run.{Result, ok, err, attribute_error, Run, pure, lift, ◌>>=◌}
use wso2_teamspace_demo.Base.Strip.{strip}
use wso2_teamspace_demo.Base.Slices.{char_count, contains, lower, behind, before, rstrip_char}
use wso2_teamspace_demo.Agent.Llm.Html.{html_escape}
use wso2_teamspace_demo.Agent.Llm.Messages.{msg, template_of, button_label, auth_button}
use wso2_teamspace_demo.Agent.Llm.Html.{format}

-- `_default_meeting_args`
abbrev pub default_meeting_args : String → Fields
default_meeting_args start_time = field "date" (str "2026-05-22") (
    field "start_time" (str start_time)
      (field "duration" (str "60") (field "time_zone" (str "America/Sao_Paulo") end)))

-- A word of more than ten letters with a dash.
abbrev pub is_meeting_id : String → Bool
is_meeting_id w = ltb 10 (char_count w) && contains "-" w

first_id : String → List String → String
first_id default [] = default
first_id default (w ∷ ws) = let later = first_id default ws in if is_meeting_id w then w else later

-- `_extract_meeting_id`
unfoldable pub extract_meeting_id : String → String
unfolding first_id
extract_meeting_id message = first_id "test-meeting-id" (words message)

-- `parts[1].strip().rstrip(".")`
topic_behind : String → String → Option String
topic_behind mark message = elim (behind mark message) [
  | none ↦ none
  | some rest ↦ some (rstrip_char "." (strip (before mark rest)))
]

-- `_extract_topic`
unfoldable pub extract_topic : String → String → String
unfolding topic_behind
extract_topic message default = elim (topic_behind "Topic:" message) [
  | some topic ↦ topic
  | none ↦ elim (topic_behind "topic:" (lower message)) [ some topic ↦ topic | none ↦ default ]
]

-- `html.escape(meeting[key])`, which only a text has
abbrev pub escaped_field : String → Json → Result String
escaped_field key (Json.obj fs) = elim (field_of key fs) [
  | some (str s) ↦ ok (html_escape s)
  | _ ↦ err attribute_error
]
escaped_field key _ = err attribute_error

-- Whether a message says that the user has authorized the agent.
abbrev pub says_authorized : String → Bool
says_authorized message =
    let lowered = lower message in
    contains "authorized" lowered
    || contains "check" lowered
    || contains "autorizado" lowered
    || contains "verifique" lowered

-- `str(value)`, where `show` is that of the values that are no texts
abbrev pub shown : (Json → String) → Json → String
shown show (str s) = s
shown show v = show v

-- `_msg`
abbrev pub say : {W : Type 0} → String → String → Dict String → Run W String
say language key kwargs = lift (msg language key kwargs)

module _ {W : Type 0} where
  -- `_meeting_list_item`; its template is there in every language.
  unfoldable pub meeting_list_item : String → Json → Run W String
  meeting_list_item language meeting = do
    topic ← lift (escaped_field "topic" meeting)
    date ← lift (escaped_field "date" meeting)
    start_time ← lift (escaped_field "start_time" meeting)
    id ← lift (escaped_field "id" meeting)
    lift (
        format (("topic", topic) ∷ ("date", date) ∷ ("start_time", start_time) ∷ ("id", id) ∷ [])
          (template_of language "meeting_list_item"))

  -- `_meeting_list_html`
  unfoldable pub meeting_list_html : String → List Json → Run W String
  meeting_list_html language [] = pure ""
  meeting_list_html language (m ∷ ms) = do
    item ← meeting_list_item language m
    rest ← meeting_list_html language ms
    pure (item <> rest)

  abbrev pub listed : String → String → List Json → Run W String
  listed language header_key meetings = do
    header ← say language header_key []
    body ← meeting_list_html language meetings
    pure (header <> ("<ul>" <> (body <> "</ul>")))

  -- `res.get("status") == status`, `res.get("message", "Unknown error")`, `res.get("meetings", [])`
  abbrev pub has_status : String → Json → Run W Bool
  has_status status res = do s ← lift (get_key "status" res); pure (is_text status s)

  abbrev pub meetings_of : Json → Run W (List Json)
  meetings_of res = do
    meetings ← lift (get_key "meetings" res)
    if truthy (value_or (arr nil) meetings)
        then lift (elements (value_or (arr nil) meetings))
        else pure []

module _ {W : Type 0} (show : Json → String) where
  abbrev pub message_of : Json → Run W String
  message_of res = do
    message ← lift (get_key "message" res)
    pure (shown show (value_or (str "Unknown error") message))

  button : String → String → Json → Run W String
  button language action res = do
    url ← lift (index_key "authorization_url" res)
    pure (auth_button (shown show url) (button_label action language))

  -- A preview's answer: the text and the button, or the failure.
  preview : String → String → String → String → Dict String → Json → Run W String
  preview language action intro failed kwargs res = do
    url ← lift (get_key "authorization_url" res)
    elim url [
      | none ↦ (do message ← message_of res; say language failed (("message", message) ∷ []))
      | some _ ↦ (do
        text ← say language intro kwargs
        link ← button language action res
        pure (text <> link))
    ]

module _ {W : Type 0} (dispatch_tool : String → Fields → String → Run W Json)
    (show : Json → String) where
  unfoldable pub mock_list_response : String → String → String → String → Run W String
  unfolding button
  mock_list_response message thread agent_name language = do
    res ← dispatch_tool "list_meetings" end thread
    ready ← has_status "preview_ready" res
    if ready
        then (do
          text ← say language "auth_list_intro" (("agent_name", agent_name) ∷ [])
          link ← button show language "list" res
          pure (text <> link))
        else (do
          meetings ← meetings_of res
          success ← has_status "success" res
          elim meetings [
            | [] ↦ say language "no_meetings" []
            | m ∷ ms ↦
                listed language (if success then "auth_list_header_no_auth" else "auth_list_header")
                  (m ∷ ms)
          ])

  unfoldable pub mock_delete_response : String → String → String → String → Run W String
  unfolding preview button
  mock_delete_response message thread agent_name language = do
    let meeting_id = extract_meeting_id message
    res ←
        dispatch_tool "delete_meeting_preview"
          (field "meeting_id" (str meeting_id)
            (field "topic" (str "Test E2E Meeting") (field "action" (str "delete") end)))
          thread
    preview show language "delete" "delete_intro" "delete_preview_failed"
        (("meeting_id", meeting_id) ∷ ("agent_name", agent_name) ∷ []) res

  unfoldable pub mock_update_response : String → String → String → String → Run W String
  unfolding preview button
  mock_update_response message thread agent_name language = do
    let meeting_id = extract_meeting_id message
    let topic = extract_topic message "Updated E2E Meeting"
    res ←
        dispatch_tool "update_meeting_preview"
          (field "meeting_id" (str meeting_id)
            (field "topic" (str topic) (default_meeting_args "15:00")))
          thread
    preview show language "update" "update_intro" "update_preview_failed"
        (("meeting_id", meeting_id)
          ∷ ("topic", topic)
          ∷ ("start_time", "15:00")
          ∷ ("agent_name", agent_name)
          ∷ [])
        res

  unfoldable pub mock_schedule_response : String → String → String → String → Run W String
  unfolding preview button
  mock_schedule_response message thread agent_name language = do
    let topic = extract_topic message "Test E2E Meeting"
    res ←
        dispatch_tool "schedule_meeting_preview"
          (field "topic" (str topic) (default_meeting_args "14:00")) thread
    preview show language "schedule" "schedule_intro" "schedule_preview_failed"
        (("topic", topic)
          ∷ ("date", "2026-05-22")
          ∷ ("start_time", "14:00")
          ∷ ("duration", "60")
          ∷ ("agent_name", agent_name)
          ∷ [])
        res

  -- `_MOCK_INTENT_HANDLERS`: the words of an intent, and its handler.
  abbrev pub mock_intent_handlers :
      List (List String × (String → String → String → String → Run W String))
  mock_intent_handlers =
      (("list" ∷ "show" ∷ "listar" ∷ "reuni" ∷ "mostrar" ∷ []), mock_list_response)
      ∷ (("delete" ∷ "remove" ∷ "deletar" ∷ "excluir" ∷ []), mock_delete_response)
      ∷ (("update" ∷ "change" ∷ "reschedule" ∷ "alterar" ∷ "atualizar" ∷ []), mock_update_response)
      ∷ (("schedule" ∷ "meeting" ∷ "agendar" ∷ "marcar" ∷ []), mock_schedule_response)
      ∷ []

  -- `_dispatch_mock_intent`
  unfoldable pub dispatch_mock_intent :
      List (List String × (String → String → String → String → Run W String))
      → String
      → String
      → String
      → String
      → String
      → Run W (Option String)
  dispatch_mock_intent [] message lowered thread agent_name language = pure none
  dispatch_mock_intent ((keywords, handler) ∷ handlers) message lowered thread agent_name language =
      let rest = dispatch_mock_intent handlers message lowered thread agent_name language in
      if any (λ kw. contains kw lowered) keywords
      then (do text ← handler message thread agent_name language; pure (some text))
      else rest

  -- `_mock_response`
  unfoldable pub mock_response : String → String → String → String → Run W String
  mock_response message thread agent_name language = if says_authorized message then pure "" else do
    answer ←
        dispatch_mock_intent mock_intent_handlers message (lower message) thread agent_name language
    elim answer [ some text ↦ pure text | none ↦ say language "greeting" [] ]
