-- ===== src/Lib.antt =====
-- The teamspace demo: an AI agent that books meetings on behalf of a user, with the user's consent.
--
-- Three services work together. The web application logs users in and shows the chat. The agent
-- service (agent/) runs the model; its tools act with a delegated token, which a consent round trip
-- through the identity server gives it. The Business API (api/) keeps meetings and settings, one
-- organization apart from the other. Each service checks tokens of the identity server, and services
-- authenticate each other by client-credentials tokens (common/).
--
-- Which file models what:
--   Base            texts, lists, dictionaries, JSON values, and handlers that may raise
--   Agent.Store     agent/store.py: the in-process store; Agent.Store.Interface is the protocol with its
--                   laws, which the managers take as a parameter and InMemoryStore fills
--   Agent.Store.Replay, Agent.Store.Redis
--                   what a client of the store sees, and agent/store.py: the Redis store
--   Agent.World     what the handlers share: the store, the clocks, the random tokens, the key set
--   Agent.Outside   what they call outside of the repository
--   Agent.StateManager, Agent.ChatHistory, Agent.AuthManager
--                   agent/state_manager.py, chat_history.py, auth_manager.py
--   Agent.OAuth     agent/main.py: /authorize and /callback; Agent.OAuth.Signed is what they sign
--   Agent.Mcp       agent/mcp_server.py: the token check, the tools and their dispatch
--   Agent.Chat      agent/main.py: /chat, /chat/stream, /state and /clear
--   Agent.Tools     agent/tools.py: the model's tool calls
--   Agent.Streams   agent/main.py: the slots of the MCP streams
--   Agent.Llm       agent/gemini_agent.py: the messages, the mock model, the authorization message, and the
--                   loop and the stream around the model, a child module each
--   Agent.ConfigCache
--                   agent/agent_config_cache.py
--   Agent.Config    agent/config.py: the settings that are read
--   Common.Jwt      common/jwt_validation.py
--   Common.Service, Common.Token
--                   common/m2m_auth.py: the check of a service token, and the client that acquires one
--   Common.Tls      common/config.py: the TLS setting
--   Common.RateLimit
--                   common/rate_limit.py
--   Api.Table       a table as SQLAlchemy offers it, with laws, and one in memory that fills them
--   Api.Auth        api/auth.py
--   Api.Meetings    api/routers/meetings.py
--   Api.Records     api/routers/agent_configs.py, personalization.py and plans.py
--   Api.Schemas     api/schemas.py: the validation of a meeting
--   Web.Session     what the handlers of the web application share: Flask's session and the rest
--   Web.Claims, Web.Login
--                   webapp/auth.py
--   Web.ApiProxy    webapp/api_proxy.py: the client of the Business API
--   Web.Access      webapp/utils/decorators.py, roles.py and helpers.py, and webapp/plans.py
--   Web.Branding, Web.Identity
--                   webapp/is_operations.py, on the client of webapp/is_client.py
--   Web.Chat, Web.Signup, Web.Subscription, Web.Agents, Web.Admin
--                   webapp/blueprints/chat.py, signup.py, subscription.py, agents.py and admin.py
--   Web.Locale      webapp/utils/i18n.py: the choice of a language
--
-- A handler is a function from the world to a result and the next world. What was written before an
-- exception stays written. A call that is awaited may change the whole world, which stands for other
-- requests served in the meantime; between two such calls a handler runs alone, as it does on one
-- event loop. Definitions carry the source's names without leading underscores. Clocks count in
-- natural numbers. Loops are recursions on a list, on a text or on the number of rounds that the source
-- allows; the cut of a text into chunks alone takes fuel, which is the length of the text, since each
-- chunk takes a character at least.
--
-- JSON numbers are naturals. White space, digits and letters are those of ASCII where Python's are
-- Unicode's. Logging is left out, and so are the details of error texts that quote an exception.
--
-- Parameters: HTTP, PyJWT, Authlib, secrets, hashlib and urllib, the Gemini client, the redis package,
-- SQLAlchemy, the limiter. Not modelled: the edit of an identity provider, the dashboard and the
-- personalization of the web application, its set-up and its templates, the MCP transport, the schemas
-- of the tools and the text of the system prompt, log masking, set-up scripts and migrations.
pub mod Agent
pub mod Api
pub mod Base
pub mod Common
pub mod Web
