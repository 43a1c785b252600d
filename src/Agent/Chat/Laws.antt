-- ===== src/Agent/Chat/Laws.antt =====
-- What the chat's routes keep and show (agent/main.py).
use wso2_teamspace_demo.Base.{
  String, ◌≡◌, ◌&&◌, none, List, [], ◌∷◌, arith, ◌==◌, if◌then◌else◌, any,
}
use wso2_teamspace_demo.Agent.Store.Interface.{
  Namespace, flow_state, obo_token, agent_token, chat_history, agent_credentials, KeyValueStore,
  same_namespace,
}
use wso2_teamspace_demo.Agent.World.{AgentWorld, peek}
use wso2_teamspace_demo.Agent.StateManager.Laws.{clear_state_lem}
use wso2_teamspace_demo.Agent.AuthManager.{clear_obo_tokens}
use wso2_teamspace_demo.Agent.ChatHistory
use wso2_teamspace_demo.Agent.Chat.{clear_thread}

-- What clearing a thread deletes.
abbrev pub cleared : List Namespace
cleared =
    obo_token ∷ agent_token ∷ chat_history ∷ flow_state ∷ Namespace.pending_meeting
    ∷ Namespace.auth_url ∷ agent_credentials ∷ Namespace.agent_name ∷ Namespace.org_name ∷ []

module _ (K : KeyValueStore) where
  -- Clearing a thread deletes its two tokens, its transcript and the six entries of its flow, and
  -- changes no other entry.
  pub clear_thread_lem :
      (thread : String) (w : AgentWorld K) (m : Namespace) (k : String)
      → peek K (clear_thread K thread w).1 m k
        ≡ (if thread == k && any (λ n. same_namespace n m) cleared then none else peek K w m k)
  unfolding clear_thread ChatHistory.clear clear_obo_tokens
  clear_thread_lem thread w m k = simp (clear_state_lem, K.read-delete) (ground arith)
