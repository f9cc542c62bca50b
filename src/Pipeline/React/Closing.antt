-- ===== src/Pipeline/React/Closing.antt =====
-- Who closes the connection to the MCP server.
use on_call_agent.Base.{◌≡◌, true, List, [], ◌∷◌, arith, ok, err}
use on_call_agent.Pipeline.React.{
  McpTool, open_mcp, BuildError, ReactParts, get_log_mcp_tools, fail_build, react_agent,
  deferred_close,
}

-- When the tools of the MCP server were listed and building the agent then fails, the connection to
-- the server is left open: it is neither closed nor handed to the caller.
pub react_agent-leaks :
    {S : Type 0} (parts : ReactParts S) (tools : List (McpTool S)) (e : BuildError)
    → parts.has_model ≡ true
    → (get_log_mcp_tools parts.mcp).1 ≡ ok tools
    → (react_agent parts).1 ≡ err e
    → (react_agent parts).0 ≡ open_mcp ∷ []
unfolding react_agent get_log_mcp_tools fail_build deferred_close
react_agent-leaks parts tools e model listed h = ground arith
