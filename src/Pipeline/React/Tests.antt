-- ===== src/Pipeline/React/Tests.antt =====
-- An agent with one tool of the MCP server.
use on_call_agent.Base.{
  ◌≡◌, ◌≢◌, refl, ℕ, List, [], ◌∷◌, some, none, Option, Text, codes, Result, ok, err, true, false,
  ◌||◌, ◌⊎◌, contains, nat_eq, list_eq, is_empty, arith, ◌+◌, sym, ◌∙◌,
}
use on_call_agent.Auth.Service.{Principal}
use on_call_agent.Auth.Service.Tests.{alice}
use on_call_agent.Auth.Service.{principal_of}
use on_call_agent.Tools.Policy.{
  BaseTool, invokable, PolicyTool, ToolError, tool_denied, wrap, invokable_run, tool_allowed,
  has_role,
}
use on_call_agent.Pipeline.React.{
  McpTool, McpServer, open_mcp, ReactParts, get_log_mcp_tools, append_policy_tool, open_tools,
  own_tools, all_tools, fail_build, react_agent, operators, mysql_failed,
}
use on_call_agent.Pipeline.React.Guards.{invokable_run-guarded, IsOpenTool}
use on_call_agent.Pipeline.React.Closing.{react_agent-leaks}

-- A tool that counts its calls.
abbrev counting : BaseTool ℕ
counting = invokable (λ calls arguments. (calls + 1, ok (codes "done")))

abbrev logs : McpTool ℕ
logs = record { info = some (codes "logs"); base = counting }

abbrev server : McpServer ℕ
server = record {
  is_configured = true;
  has_client = true;
  starts = true;
  initializes = true;
  listed = some (logs ∷ []);
}

abbrev parts : Option (BaseTool ℕ) → ReactParts ℕ
parts database = record {
  has_model = true;
  mcp = server;
  alerts = counting;
  mysql = database;
  clock = counting;
  docs = counting;
  makes_agent = true;
  makes_lambda = true;
}

abbrev tool : Text → PolicyTool ℕ
tool name = record {
  name = name;
  delegate = λ calls arguments. (calls + 1, ok (codes "done"));
  policy = operators;
}

abbrev open_tool : Text → PolicyTool ℕ
open_tool name = record {
  name = name;
  delegate = λ calls arguments. (calls + 1, ok (codes "done"));
  policy = record { tenant_ids = []; policy_roles = [] };
}

abbrev tools : List (PolicyTool ℕ)
tools =
    tool (codes "logs")
    ∷ tool (codes "prometheus_alerts")
    ∷ tool (codes "mysql_crud")
    ∷ open_tool (codes "get_current_time")
    ∷ open_tool (codes "query_internal_docs")
    ∷ []

agent_built : (react_agent (parts (some counting))).1 ≡ ok (tools, true)
unfolding react_agent all_tools get_log_mcp_tools append_policy_tool wrap own_tools open_tools
agent_built = refl

called :
    invokable_run (tool (codes "logs")) 0 (some (principal_of alice)) [] ≡ (1, ok (codes "done"))
unfolding invokable_run tool_allowed has_role
called = refl

differ :
    (name result : Text)
    → let outcome : ℕ × Result ToolError Text = (1, ok result) in
      outcome ≢ (0, err (tool_denied name))
differ name result h = ground arith

reached :
    invokable_run (tool (codes "logs")) 0 (some (principal_of alice)) []
    ≢ (0, err (tool_denied (codes "logs")))
reached h = differ (codes "logs") (codes "done") (sym called ∙ h)

invokable_run-guarded_example :
    (p : Principal) × (some (principal_of alice) ≡ some p)
    × (is_empty p.tenant_id ≡ false)
    × (is_empty p.user_id ≡ false)
    × (((contains (codes "operator") p.roles || contains (codes "admin") p.roles) ≡ true)
        ⊎ IsOpenTool (codes "logs"))
invokable_run-guarded_example =
    invokable_run-guarded (parts (some counting)) tools true agent_built 0 (tool (codes "logs")) 0
      (some (principal_of alice)) [] refl reached

react_agent-leaks_example : (react_agent (parts none)).0 ≡ open_mcp ∷ []
unfolding get_log_mcp_tools react_agent all_tools append_policy_tool wrap own_tools fail_build
react_agent-leaks_example = react_agent-leaks (parts none) (logs ∷ []) mysql_failed refl refl refl
