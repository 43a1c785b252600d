-- ===== src/Agent/Tools/Thread.antt =====
-- With which token and for which thread a tool is called (agent/tools.py).
use wso2_teamspace_demo.Base.{
  String, ◌≡◌, ◌≢◌, Option, some, ◌==◌, if◌then◌else◌, arith, nonempty-eq-true,
}
use wso2_teamspace_demo.Base.Json.{Json, str, Fields, end, field, field_of, with_field}
use wso2_teamspace_demo.Base.Run.{Run, ◌>>=◌, pure}
use wso2_teamspace_demo.Agent.Config.{Settings}
use wso2_teamspace_demo.Agent.Outside.{Outside}
use wso2_teamspace_demo.Agent.Store.Interface.{obo_token, KeyValueStore}
use wso2_teamspace_demo.Agent.World.{AgentWorld, peek}
use wso2_teamspace_demo.Agent.AuthManager.{get_obo_token, live_token_of}
use wso2_teamspace_demo.Agent.Mcp.Server.{call_tool}
use wso2_teamspace_demo.Agent.Tools.{dispatch_tool, token_for, call_with, parsed}

-- The key that was set has its value, and the other keys have theirs.
pub field_of-with_field :
    (k j : String) (v : Json) (fs : Fields)
    → field_of j (with_field k v fs) ≡ (if k == j then some v else field_of j fs)
unfolding field_of with_field
field_of-with_field k j v end = ground arith
field_of-with_field k j v (field i u fs) = ground (arith, field_of-with_field k j v fs)

module _ (K : KeyValueStore) (c : Settings) (out : Outside K.State)
    (fetch_config : String → Run (AgentWorld K) (Option Json)) where
  -- While the thread has a live delegated token that is not empty, a tool is called with that
  -- token, and with the conversation's thread as its argument thread_id, whatever the model wrote
  -- there; the other arguments are the model's.
  pub dispatch_tool_delegated :
      (name : String) (args : Fields) (thread token : String) (w : AgentWorld K)
      → live_token_of (peek K w obo_token thread) w.wall ≡ some (str token)
      → token ≢ ""
      → (called : Fields) × (dispatch_tool K c out fetch_config name args thread w
          ≡ (call_tool K c out name called token >>= λ content. pure (parsed content))
              (get_obo_token K thread w).1)
        × ((j : String)
            → field_of j called ≡ (if "thread_id" == j then some (str thread) else field_of j args))
  unfolding dispatch_tool token_for call_with get_obo_token
  dispatch_tool_delegated name args thread token w live full = (
    with_field "thread_id" (str thread) args,
    simp (K.get_read, live, nonempty-eq-true token full),
    λ j. field_of-with_field "thread_id" j (str thread) args,
  )
