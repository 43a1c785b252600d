-- ===== src/Agent/Llm/Messages.antt =====
-- agent/gemini_agent.py: what the agent says, in English and in Portuguese, with its escaping of what is put in.
pub mod Inert
use wso2_teamspace_demo.Base.{
  ℕ, String, ◌<>◌, Option, none, some, [], ◌∷◌, Dict, lookup, nonempty, if◌then◌else◌,
}
use wso2_teamspace_demo.Base.Run.{Result, ok, err, value_error, other_error}
use wso2_teamspace_demo.Base.Values.{◌>>?◌}
use wso2_teamspace_demo.Agent.Llm.Html.{html_escape, format, escaped}

-- The copies of one text, in Portuguese and in English.
abbrev pub copies : String → String → Dict String
copies pt en = ("pt", pt) ∷ ("en", en) ∷ []

-- `MESSAGES`
abbrev pub messages : Dict (Dict String)
messages =
    (
      "greeting",
      copies
          "<p>Olá! Sou o Assistente de Reuniões do Teamspace. Experimente dizer <em>'Agendar uma reunião para amanhã às 15h'</em>.</p>"
          "<p>Hi there! I am the Teamspace Meeting Assistant. Try saying <em>'Schedule a meeting for tomorrow at 2 PM'</em>.</p>",
    )
    ∷ (
      "no_meetings",
      copies "<p>Você não possui reuniões agendadas.</p>" "<p>You have no scheduled meetings.</p>",
    )
    ∷ (
      "not_authorized_prompt",
      copies "<p>Não encontrei sua autorização. Por favor, autorize-me pelo link primeiro.</p>"
          "<p>I couldn't find your authorization. Please authorize me using the link first.</p>",
    )
    ∷ (
      "deleted_ok",
      copies "<p>O agendamento foi deletado com sucesso.</p>"
          "<p>I have successfully deleted the meeting.</p>",
    )
    ∷ (
      "delete_failed",
      copies "<p>Falha ao deletar: {message}</p>" "<p>Deletion failed: {message}</p>",
    )
    ∷ (
      "update_ok",
      copies "<p>Agendamento atualizado com sucesso! Tópico: <strong>{topic}</strong>.</p>"
          "<p>I have updated the meeting successfully! Topic: <strong>{topic}</strong>.</p>",
    )
    ∷ (
      "update_failed",
      copies "<p>Falha na atualização: {message}</p>" "<p>Update failed: {message}</p>",
    )
    ∷ (
      "delete_preview_failed",
      copies "<p>Desculpe, falha ao preparar a prévia de exclusão: {message}</p>"
          "<p>Sorry, I failed to prepare the deletion preview: {message}</p>",
    )
    ∷ (
      "update_preview_failed",
      copies "<p>Desculpe, falha ao preparar a prévia de atualização: {message}</p>"
          "<p>Sorry, I failed to prepare the update preview: {message}</p>",
    )
    ∷ (
      "schedule_preview_failed",
      copies "<p>Desculpe, falha ao preparar a prévia de agendamento: {message}</p>"
          "<p>Sorry, I failed to prepare the meeting preview: {message}</p>",
    )
    ∷ (
      "auth_list_intro",
      copies
          "<p>Por favor, autorize {agent_name} a visualizar suas reuniões clicando no link abaixo:</p>"
          "<p>Please authorize {agent_name} to view your meetings by clicking the link below:</p>",
    )
    ∷ (
      "auth_list_header",
      copies "<p>Autorizado com sucesso! Aqui estão suas reuniões agendadas:</p>"
          "<p>I have authorized successfully! Here are your scheduled meetings:</p>",
    )
    ∷ (
      "auth_list_header_no_auth",
      copies "<p>Aqui estão suas reuniões agendadas:</p>"
          "<p>Here are your scheduled meetings:</p>",
    )
    ∷ (
      "delete_intro",
      copies
          "<p>Preparei uma prévia para deletar sua reunião:</p><p>ID da Reunião: <code>{meeting_id}</code></p><p>Para confirmar esta exclusão, por favor autorize {agent_name} clicando no link abaixo:</p>"
          "<p>I have prepared a preview to delete your meeting:</p><p>Meeting ID: <code>{meeting_id}</code></p><p>To finalize this deletion, please authorize {agent_name} by clicking the link below:</p>",
    )
    ∷ (
      "update_intro",
      copies
          "<p>Preparei uma prévia para atualizar sua reunião:</p><ul><li>ID da Reunião: <code>{meeting_id}</code></li><li>Novo Tópico: <strong>{topic}</strong></li><li>Novo Horário: <strong>{start_time}</strong></li></ul><p>Para confirmar esta atualização, por favor autorize {agent_name} clicando no link abaixo:</p>"
          "<p>I have prepared a preview to update your meeting:</p><ul><li>Meeting ID: <code>{meeting_id}</code></li><li>New Topic: <strong>{topic}</strong></li><li>New Time: <strong>{start_time}</strong></li></ul><p>To finalize this update, please authorize {agent_name} by clicking the link below:</p>",
    )
    ∷ (
      "schedule_intro",
      copies
          "<p>Preparei uma prévia para sua reunião:</p><ul><li>Tópico: <strong>{topic}</strong></li><li>Data: {date}</li><li>Horário: {start_time}</li><li>Duração: {duration} minutos</li></ul><p>Para confirmar e agendar esta reunião, por favor autorize {agent_name} clicando no link abaixo:</p>"
          "<p>I have prepared a preview for your meeting:</p><ul><li>Topic: <strong>{topic}</strong></li><li>Date: {date}</li><li>Time: {start_time}</li><li>Duration: {duration} minutes</li></ul><p>To finalize and book this meeting, please authorize {agent_name} by clicking the link below:</p>",
    )
    ∷ (
      "booking_ok",
      copies "<p>Agendamento realizado com sucesso! Tópico: <strong>{topic}</strong>.</p>"
          "<p>I have booked the meeting successfully! Topic: <strong>{topic}</strong>.</p>",
    )
    ∷ (
      "booking_ok_with_id",
      copies
          "<p>Agendamento realizado com sucesso! Tópico: <strong>{topic}</strong> (ID: <code>{meeting_id}</code>).</p>"
          "<p>I have booked the meeting successfully! Topic: <strong>{topic}</strong> (ID: <code>{meeting_id}</code>).</p>",
    )
    ∷ (
      "booking_failed",
      copies "<p>Falha no agendamento: {message}</p>" "<p>Booking failed: {message}</p>",
    )
    ∷ (
      "meeting_list_item",
      copies "<li><strong>{topic}</strong> ({date} às {start_time}, ID: <code>{id}</code>)</li>"
          "<li><strong>{topic}</strong> ({date} at {start_time}, ID: <code>{id}</code>)</li>",
    )
    ∷ []

-- `AUTH_BUTTON_LABELS`
abbrev pub auth_button_labels : Dict (Dict String)
auth_button_labels =
    ("list", copies "Autorizar Lista" "Authorize List")
    ∷ ("delete", copies "Autorizar Exclusão" "Authorize Delete")
    ∷ ("update", copies "Autorizar Atualização" "Authorize Update")
    ∷ ("schedule", copies "Autorizar Reunião" "Authorize Meeting")
    ∷ []

-- `entry.get(language, entry.get("en", default))`
abbrev pub in_language : String → String → Dict String → String
in_language default language entry = elim (lookup language entry) [
  | some text ↦ text
  | none ↦ elim (lookup "en" entry) [ some text ↦ text | none ↦ default ]
]

-- The template of a message in a language; a message that is not there is empty, and so is its text.
unfoldable pub template_of : String → String → String
template_of language key = elim (lookup key messages) [
  | none ↦ ""
  | some entry ↦ in_language "" language entry
]

-- `_msg`
unfoldable pub msg : String → String → Dict String → Result String
msg language key kwargs = format (escaped kwargs) (template_of language key)

-- `_button_label`
unfoldable pub button_label : String → String → String
button_label action language = elim (lookup action auth_button_labels) [
  | none ↦ "Authorize"
  | some entry ↦ in_language "Authorize" language entry
]

-- `_auth_button`
unfoldable pub auth_button : String → String → String
auth_button url label =
    "<div style=\"margin-top: 10px;\"><a href=\""
    <> (html_escape url
        <> ("\" target=\"_blank\" class=\"btn btn-primary\">"
            <> (html_escape label <> "</a></div>")))
