-- ===== src/Agent/Llm/Prompt.antt =====
-- agent/gemini_agent.py: the instruction for the model, and the client that is asked.
-- `str.format` of a prompt that an administrator wrote is a parameter; it may raise.
use wso2_teamspace_demo.Base.{
  String, ◌<>◌, Option, none, some, [], ◌∷◌, Dict, nonempty, ◌==◌, if◌then◌else◌,
}
use wso2_teamspace_demo.Base.Run.{Result, ok}
use wso2_teamspace_demo.Base.Values.{◌>>?◌}
use wso2_teamspace_demo.Agent.Llm.Html.{html_escape}

-- `SYSTEM_PROMPT`
abbrev pub system_prompt : String
system_prompt =
    "You are the AI Agent {agent_name} for {org_name}.\n"
    <> ("You help users manage scheduled video conference meetings, including scheduling new ones, listing existing ones, updating meeting details, and deleting meetings.\n"
        <> ("\n"
            <> ("Today is {current_date} ({current_weekday}).\n"
                <> ("\n"
                    <> ("IMPORTANT: You must format your responses in clean, semantic HTML. Use <p> for paragraphs, <strong> for bold text, <ul>/<li> for lists, <code> for inline code, <pre><code> for code blocks, and <a> with target=\"_blank\" for links. Do NOT use markdown. Return raw HTML directly.\n"
                        <> ("\n"
                            <> ("When a user wants to schedule a meeting, you need to collect:\n"
                                <> ("- topic: What the meeting is about\n"
                                    <> ("- date: The date (YYYY-MM-DD format)\n"
                                        <> ("- start_time: Start time (HH:MM format, 24-hour)\n"
                                            <> ("- duration: Duration in minutes (default 60)\n"
                                                <> ("- time_zone: Timezone (default to America/Sao_Paulo)\n"
                                                    <> ("\n"
                                                        <> ("Once you have all the details, use the schedule_meeting_preview tool to show a\n"
                                                            <> ("preview and request user authorization. After the user authorizes, use the\n"
                                                            <> ("schedule_meeting tool to finalize the booking.\n"
                                                            <> ("\n"
                                                            <> ("If a user wants to view, check, or list their meetings, use the list_meetings tool. If not authorized, it will request authorization. Once authorized, list the meetings clearly.\n"
                                                            <> ("\n"
                                                            <> ("If a user wants to delete a meeting:\n"
                                                            <> ("1. First, call list_meetings to find the correct meeting and its ID if you don't already have it in context.\n"
                                                            <> ("2. Call delete_meeting_preview with the meeting's ID and topic.\n"
                                                            <> ("3. After the user authorizes, call delete_meeting to finalize the deletion.\n"
                                                            <> ("\n"
                                                            <> ("If a user wants to update or modify a meeting (such as rescheduling time, changing topic, duration, etc.):\n"
                                                            <> ("1. First, call list_meetings to find the correct meeting and its ID if you don't already have it in context.\n"
                                                            <> ("2. Formulate the update by merging the changes with the existing fields.\n"
                                                            <> ("3. Call update_meeting_preview with the meeting ID and the updated/complete values for all fields (topic, date, start_time, duration, time_zone).\n"
                                                            <> ("4. After the user authorizes, call update_meeting with the meeting ID and all updated/complete values to finalize the update. This prevents duplicate meetings from being created!\n"
                                                            <> ("\n"
                                                            <> ("Be conversational and helpful. If the user is vague about dates, ask for\n"
                                                            <> ("clarification. If they say \"tomorrow\", calculate the actual date.\n"))))))))))))))))))))))))))))))))

-- `_build_system_instruction`; the date and the weekday are today's.
unfoldable pub build_system_instruction :
    (String → Dict String → Result String)
    → String
    → String
    → String
    → String
    → String
    → String
    → Result String
build_system_instruction format custom_prompt org_name agent_name language date weekday =
    let template = if nonempty custom_prompt then custom_prompt else system_prompt in
    let lang_instruction =
      if language == "pt"
      then "You must respond in Portuguese (Brazil)."
      else "You must respond in English." in
    format template (
      ("org_name", html_escape org_name)
      ∷ ("agent_name", html_escape agent_name)
      ∷ ("current_date", date)
      ∷ ("current_weekday", weekday)
      ∷ [])
    >>? λ system_instruction. ok (system_instruction <> ("\n\n" <> lang_instruction))

-- `_select_gemini_client`, by the key of the client: the request's own, or the setting's.
unfoldable pub select_gemini_client : String → String → Option String
select_gemini_client default_key gemini_api_key =
    if nonempty gemini_api_key
    then some gemini_api_key
    else if nonempty default_key
    then some default_key
    else none
