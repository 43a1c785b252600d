-- ===== src/Agent/Llm/Tests.antt =====
-- Runs of the agent's texts, of its loop and of its gate (agent/gemini_agent.py).
use wso2_teamspace_demo.Base.{
  ℕ, ◌+◌, ◌≤◌, String, ◌≡◌, refl, some, List, [], ◌∷◌, Dict, lookup, insert, Option, arith,
  string_dec, if◌then◌else◌, ◌==◌, true, all, leb,
}
use wso2_teamspace_demo.Base.Json.{Json, null, num, obj, Fields, end}
use wso2_teamspace_demo.Base.Run.{Run, ok}
use wso2_teamspace_demo.Base.Slices.{
  char_count, take_chars, drop_chars, partition, lower, behind, before, rstrip_char,
}
use wso2_teamspace_demo.Base.Strip.{rstrip, lstrip}
use wso2_teamspace_demo.Agent.Store
use wso2_teamspace_demo.Agent.Store.{InMemoryStore, empty}
use wso2_teamspace_demo.Agent.Store.Interface.{in_memory}
use wso2_teamspace_demo.Agent.World.{World}
use wso2_teamspace_demo.Agent.StateManager.{delete_authorized, get_state, set_state, flow_state_of}
use wso2_teamspace_demo.Agent.Fixture.{fresh}
use wso2_teamspace_demo.Agent.Llm.Html.{html_escape, escaped, format_in, strip_tags, strip_tags_in}
use wso2_teamspace_demo.Agent.Llm.Messages.{msg, template_of}
use wso2_teamspace_demo.Agent.Llm.Messages.Inert.{markup, msg-markup}
use wso2_teamspace_demo.Agent.Llm.Mock.{extract_topic}
use wso2_teamspace_demo.Agent.Llm.Authorized.{handle_authorization_callback}
use wso2_teamspace_demo.Agent.Llm.Authorized.Gate.{handle_authorization_callback-alike}
use wso2_teamspace_demo.Agent.Llm.Turns.{function_call, Content, user, Response}
use wso2_teamspace_demo.Agent.Llm.Turns.Bounds.{counts_of, run_gemini_tool_loop_bounds}
use wso2_teamspace_demo.Agent.Llm.Stream.{stream_text_in_chunks, chunks_in}
use wso2_teamspace_demo.Agent.Llm.Stream.Chunks.{text_of, stream_text_in_chunks_lem}

abbrev bold : Dict String
bold = ("topic", "<b>") ∷ []

bold_booked :
    msg "en" "booking_ok" bold
    ≡ ok "<p>I have booked the meeting successfully! Topic: <strong>&lt;b&gt;</strong>.</p>"
unfolding msg template_of lookup string_dec format_in escaped html_escape
bold_booked = refl

msg-markup_example :
    markup "<p>I have booked the meeting successfully! Topic: <strong>&lt;b&gt;</strong>.</p>"
    ≤ markup (template_of "en" "booking_ok")
msg-markup_example =
    msg-markup "en" "booking_ok" bold
      "<p>I have booked the meeting successfully! Topic: <strong>&lt;b&gt;</strong>.</p>"
      bold_booked

stripped : strip_tags "<p>a < b</p>" ≡ "a "
unfolding strip_tags_in partition
stripped = refl

topic : extract_topic "Book it. topic: Plans. " "none" ≡ "plans"
unfolding extract_topic behind before lower rstrip_char rstrip lstrip drop_chars char_count
    string_dec
topic = refl

chunked : stream_text_in_chunks "abcdefg" ≡ "abcde" ∷ "fg" ∷ []
unfolding chunks_in char_count take_chars drop_chars string_dec
chunked = refl

stream_text_in_chunks_example :
    (text_of (stream_text_in_chunks "abcdefg") ≡ "abcdefg")
    × (all (λ chunk. leb (char_count chunk) 5) (stream_text_in_chunks "abcdefg") ≡ true)
stream_text_in_chunks_example = stream_text_in_chunks_lem "abcdefg"

-- A model that asks for a tool every time.
abbrev always : List Content → Run ℕ Response
always messages w = (ok ((function_call "list_meetings" end ∷ []) ∷ []), w)

abbrev answered : String → Fields → String → Run ℕ Json
answered name args thread w = (ok null, w + 1)

run_gemini_tool_loop_bounds_example :
    ((counts_of always answered 2 (user "hi" ∷ []) "t1" 0).tool_calls ≤ 2)
    × ((counts_of always answered 2 (user "hi" ∷ []) "t1" 0).requests
        ≤ (counts_of always answered 2 (user "hi" ∷ []) "t1" 0).tool_calls + 1)
run_gemini_tool_loop_bounds_example =
    run_gemini_tool_loop_bounds always answered 2 (user "hi" ∷ []) "t1" 0

-- Two dispatchers that differ in every tool but delete_meeting.
abbrev first : String → Fields → String → Run (World InMemoryStore) Json
first name args thread w = if name == "delete_meeting" then (ok (obj end), w) else (ok null, w)

abbrev second : String → Fields → String → Run (World InMemoryStore) Json
second name args thread w = if name == "delete_meeting" then (ok (obj end), w) else (ok (num 1), w)

abbrev ready : World InMemoryStore
ready = (set_state in_memory "t1" delete_authorized fresh).1

alike :
    (name : String) (args : Fields) (w : World InMemoryStore)
    → ◌≡◌ {A = Option String} (some "delete_meeting") (some name)
    → first name args "t1" w ≡ second name args "t1" w
alike name args w e = ground (arith, e)

handle_authorization_callback_example :
    handle_authorization_callback in_memory first (λ v. "shown") "authorized" "t1" "en" ready
    ≡ handle_authorization_callback in_memory second (λ v. "shown") "authorized" "t1" "en" ready
unfolding get_state set_state string_dec flow_state_of Store.get lookup Store.set insert
handle_authorization_callback_example =
    handle_authorization_callback-alike in_memory (λ v. "shown") "t1" first second "authorized" "en"
      delete_authorized ready refl alike
