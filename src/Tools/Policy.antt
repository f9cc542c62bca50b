-- ===== src/Tools/Policy.antt =====
-- Who may call a tool, internal/ai/tools/policy.go. A delegate is a function on a state `S` of the
-- world, so that a call that was refused is one that leaves the state alone.
use on_call_agent.Base.{
  Bool, true, false, not, ◌&&◌, ◌||◌, List, [], ◌∷◌, Option, none, some, if◌then◌else◌, Text,
  is_empty, Result, ok, err, contains, nat_eq, list_eq,
}
use on_call_agent.Auth.Service.{Principal}

pub record ToolPolicy : Type 0 where
  pub tenant_ids : List Text
  pub policy_roles : List Text

pub data ToolError : Type 0 where
  tool_required : ToolError
  not_invokable tool_denied : Text → ToolError
  tool_failed : Text → ToolError

-- A tool.BaseTool: nil, one that cannot be invoked, or one that can.
pub data BaseTool (S : Type 0) : Type 0 where
  nil_tool other_tool : BaseTool S
  invokable : (S → Text → S × Result ToolError Text) → BaseTool S

pub record PolicyTool (S : Type 0) : Type 0 where
  pub name : Text
  pub delegate : S → Text → S × Result ToolError Text
  pub policy : ToolPolicy

-- The loop over the principal's roles.
unfoldable pub has_role : List Text → List Text → Bool
has_role allowed [] = false
has_role allowed (role ∷ roles) = if contains role allowed then true else has_role allowed roles

-- toolAllowed; `principal` is what PrincipalFromContext answers.
unfoldable pub tool_allowed : Option Principal → ToolPolicy → Bool
tool_allowed none policy = false
tool_allowed (some p) policy =
    if is_empty p.tenant_id || is_empty p.user_id
    then false
    else if not (is_empty policy.tenant_ids) && not (contains p.tenant_id policy.tenant_ids)
    then false
    else if is_empty policy.policy_roles
    then true
    else has_role policy.policy_roles p.roles

module _ {S : Type 0} where
  -- ToolRegistry.Wrap
  unfoldable pub wrap : Text → BaseTool S → ToolPolicy → Result ToolError (PolicyTool S)
  wrap name nil_tool policy = err tool_required
  wrap name other_tool policy = err (not_invokable name)
  wrap name (invokable run) policy = ok (record { name = name; delegate = run; policy = policy })

  -- policyTool.InvokableRun
  unfoldable pub invokable_run :
      PolicyTool S → S → Option Principal → Text → S × Result ToolError Text
  invokable_run t s principal arguments =
      if tool_allowed principal t.policy
      then t.delegate s arguments
      else (s, err (tool_denied t.name))
