-- ===== src/Pipeline/React.antt =====
-- Building the agent with its tools: newReactAgentLambda of internal/ai/agent/chat_pipeline/flow.go and
-- GetLogMcpToolWithCloser of internal/ai/tools/query_log.go. What the servers and the framework answer
-- is a record of parts; `S` is the state of the world on which tools run.
pub mod Guards
pub mod Closing
mod Tests
use on_call_agent.Base.{
  Bool, true, false, not, ◌&&◌, ◌||◌, List, [], ◌∷◌, ◌++◌, Option, none, some, if◌then◌else◌, Text,
  codes, Result, ok, err, ◌>>=◌, ◌>>◌, guard, require,
}
use on_call_agent.Tools.Policy.{BaseTool, invokable, PolicyTool, ToolError, ToolPolicy, wrap}

-- A tool of the MCP server; its `Info` answers with a name, or fails.
pub record McpTool (S : Type 0) : Type 0 where
  pub info : Option Text
  pub base : BaseTool S

pub record McpServer (S : Type 0) : Type 0 where
  pub is_configured : Bool
  pub has_client : Bool
  pub starts : Bool
  pub initializes : Bool
  pub listed : Option (List (McpTool S))

pub data McpAction : Type 0 where
  open_mcp close_mcp : McpAction

pub data BuildError : Type 0 where
  mcp_unavailable model_failed info_failed mysql_failed agent_failed lambda_failed : BuildError
  wrap_failed : ToolError → BuildError

pub record ReactParts (S : Type 0) : Type 0 where
  pub has_model : Bool
  pub mcp : McpServer S
  pub alerts : BaseTool S
  pub mysql : Option (BaseTool S)
  pub clock : BaseTool S
  pub docs : BaseTool S
  pub makes_agent : Bool
  pub makes_lambda : Bool

-- Policies of the tools.
abbrev pub operators : ToolPolicy
operators = record { tenant_ids = []; policy_roles = codes "operator" ∷ codes "admin" ∷ [] }

abbrev pub everyone : ToolPolicy
everyone = record { tenant_ids = []; policy_roles = [] }

-- The deferred function: it closes what the named result `closer` holds when it runs.
unfoldable pub deferred_close : Bool → Bool → List McpAction
deferred_close cleanup_on_error closer = if cleanup_on_error && closer then close_mcp ∷ [] else []

module _ {S : Type 0} where
  -- GetLogMcpToolWithCloser; with the tools comes the client as the closer.
  unfoldable pub get_log_mcp_tools :
      McpServer S → List McpAction × Result BuildError (List (McpTool S))
  get_log_mcp_tools m =
      if not m.is_configured || not m.has_client
      then ([], err mcp_unavailable)
      else if not m.starts || not m.initializes
      then (open_mcp ∷ close_mcp ∷ [], err mcp_unavailable)
      else (elim m.listed [
        | none ↦ (open_mcp ∷ close_mcp ∷ [], err mcp_unavailable)
        | some tools ↦ (open_mcp ∷ [], ok tools)
      ])

  -- appendPolicyTool, in front of the tools that come after.
  unfoldable pub append_policy_tool :
      Text
      → BaseTool S
      → ToolPolicy
      → Result BuildError (List (PolicyTool S))
      → Result BuildError (List (PolicyTool S))
  append_policy_tool name base policy rest = elim (wrap name base policy) [
    | err e ↦ err (wrap_failed e)
    | ok t ↦ elim rest [ ok ts ↦ ok (t ∷ ts) | err e ↦ err e ]
  ]

  -- The tools for everyone.
  unfoldable pub open_tools : ReactParts S → Result BuildError (List (PolicyTool S))
  open_tools parts =
      append_policy_tool (codes "get_current_time") parts.clock everyone
        (append_policy_tool (codes "query_internal_docs") parts.docs everyone (ok []))

  -- The tools that the agent gets after those of the MCP server, in order.
  unfoldable pub own_tools : ReactParts S → Result BuildError (List (PolicyTool S))
  own_tools parts =
      append_policy_tool (codes "prometheus_alerts") parts.alerts operators (elim parts.mysql [
        | none ↦ err mysql_failed
        | some mysql ↦ append_policy_tool (codes "mysql_crud") mysql operators (open_tools parts)
      ])

  -- The loop over the MCP tools.
  unfoldable pub all_tools :
      ReactParts S → List (McpTool S) → Result BuildError (List (PolicyTool S))
  all_tools parts [] = own_tools parts
  all_tools parts (t ∷ ts) = elim t.info [
    | none ↦ err info_failed
    | some name ↦ append_policy_tool name t.base operators (all_tools parts ts)
  ]

  -- `return nil, nil, err` sets `closer` to nil before the deferred function runs.
  unfoldable pub fail_build :
      List McpAction → BuildError → List McpAction × Result BuildError (List (PolicyTool S) × Bool)
  unfolding deferred_close
  fail_build actions e = (actions ++ deferred_close true false, err e)

  -- newReactAgentLambda: the connections opened and closed, and the tools with whether a closer comes
  -- with them.
  unfoldable pub react_agent :
      ReactParts S → List McpAction × Result BuildError (List (PolicyTool S) × Bool)
  react_agent parts =
      if not parts.has_model
      then ([], err model_failed)
      else (let (actions, listed) = get_log_mcp_tools parts.mcp in
          let mcp_tools : List (McpTool S) = elim listed [ ok ts ↦ ts | err e ↦ [] ] in
          let closer : Bool = elim listed [ ok ts ↦ true | err e ↦ false ] in
          elim (all_tools parts mcp_tools) [
            | err e ↦ fail_build actions e
            | ok tools ↦
                if not parts.makes_agent
                then fail_build actions agent_failed
                else if not parts.makes_lambda
                then fail_build actions lambda_failed
                else (actions ++ deferred_close false closer, ok (tools, closer))
          ])
