-- ===== src/Agent/Tools/Tests.antt =====
-- An example for the dispatch of a tool (agent/tools.py).
use wso2_teamspace_demo.Base.{
  ◌≡◌, refl, none, some, String, ◌==◌, if◌then◌else◌, ≢-of-nonempty, string_dec, lookup, insert,
}
use wso2_teamspace_demo.Base.Json.{str, Fields, end, field, field_of}
use wso2_teamspace_demo.Base.Run
use wso2_teamspace_demo.Base.Run.{◌>>=◌, pure}
use wso2_teamspace_demo.Agent.Store
use wso2_teamspace_demo.Agent.Store.{InMemoryStore}
use wso2_teamspace_demo.Agent.Store.Expiry.{read}
use wso2_teamspace_demo.Agent.Store.Interface.{in_memory}
use wso2_teamspace_demo.Agent.World.{World}
use wso2_teamspace_demo.Agent.AuthManager.{entry, live_token_of, get_obo_token}
use wso2_teamspace_demo.Agent.Mcp.Server.{call_tool}
use wso2_teamspace_demo.Agent.Fixture.{fresh, settings, outside}
use wso2_teamspace_demo.Agent.Tools.{dispatch_tool, parsed}
use wso2_teamspace_demo.Agent.Tools.Thread.{dispatch_tool_delegated}

-- A thread with the delegated token "tok".
abbrev delegated : World InMemoryStore
delegated = record fresh {
  store = Store.set "obo_token" "t1" (entry (str "tok") 3600 100) 86400 5 fresh.store;
}

-- Arguments that name another thread.
abbrev forged : Fields
forged = field "thread_id" (str "t2") end

dispatch_tool_delegated_example :
    (called : Fields) × (dispatch_tool in_memory settings outside
        (λ org w. (Run.ok none, w))
        "list_meetings"
        forged
        "t1"
        delegated
      ≡ (call_tool in_memory settings outside "list_meetings" called "tok" >>= λ content.
            pure (parsed content))
          (get_obo_token in_memory "t1" delegated).1)
    × ((j : String)
        → field_of j called ≡ (if "thread_id" == j then some (str "t1") else field_of j forged))
unfolding Store.set read lookup insert live_token_of field_of string_dec
dispatch_tool_delegated_example =
    dispatch_tool_delegated in_memory settings outside (λ org w. (Run.ok none, w)) "list_meetings"
      forged "t1" "tok" delegated refl (≢-of-nonempty "tok" refl)
