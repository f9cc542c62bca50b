-- ===== src/Pipeline/React/Guards.antt =====
-- Which principals reach which tools.
use on_call_agent.Base.{
  ℕ, zero, suc, ◌≡◌, ◌≢◌, ◌⊎◌, inl, inr, refl, subst, sym, ◌∙◌, ap, Bool, true, false, ◌||◌, List,
  [], ◌∷◌, Option, none, some, arith, Text, codes, is_empty, Result, ok, err, get_elem?, contains,
  nat_eq, list_eq, list_beq_iff, Bool-cases, Result-cases, Option-cases,
}
use on_call_agent.Auth.Service.{Principal}
use on_call_agent.Tools.Policy.{
  BaseTool, nil_tool, other_tool, invokable, PolicyTool, ToolPolicy, tool_denied, has_role,
  tool_allowed, wrap, invokable_run,
}
use on_call_agent.Pipeline.React.{
  McpTool, BuildError, ReactParts, append_policy_tool, open_tools, own_tools, all_tools, fail_build,
  react_agent, operators, everyone, get_log_mcp_tools,
}

abbrev pub IsOpenTool : Text → Type 0
IsOpenTool name = (name ≡ codes "get_current_time") ⊎ (name ≡ codes "query_internal_docs")

roles_lem :
    (a b : Text) (roles : List Text)
    → has_role (a ∷ b ∷ []) roles ≡ true
    → (contains a roles || contains b roles) ≡ true
unfolding has_role
roles_lem a b [] h = absurd (ground arith)
roles_lem a b (role ∷ roles) h = ground (
  arith,
  list_beq_iff a role,
  list_beq_iff b role,
  list_beq_iff role a,
  list_beq_iff role b,
  roles_lem a b roles,
)

role_checked :
    (p : Principal) (policy : ToolPolicy)
    → tool_allowed (some p) policy ≡ true
    → policy ≡ operators
    → has_role (codes "operator" ∷ codes "admin" ∷ []) p.roles ≡ true
unfolding tool_allowed
role_checked p policy h e =
    let checked : tool_allowed (some p) operators ≡ true = ap (tool_allowed (some p)) (sym e) ∙ h in
    elim (Bool-cases (is_empty p.tenant_id || is_empty p.user_id)) [
      | inl q ↦ absurd (ground (arith, checked, q))
      | inr q ↦ ground (arith, checked, q)
    ]

module _ {S : Type 0} where
  -- A tool is for operators and administrators, or one of the two that are for everyone.
  abbrev Guarded : PolicyTool S → Type 0
  Guarded t = (t.policy ≡ operators) ⊎ ((t.policy ≡ everyone) × IsOpenTool t.name)

  abbrev AllGuarded : List (PolicyTool S) → Type 0
  AllGuarded [] = Unit
  AllGuarded (t ∷ ts) = Guarded t × AllGuarded ts

  AllGuarded-get_elem? :
      (ts : List (PolicyTool S)) (i : ℕ) (t : PolicyTool S)
      → AllGuarded ts
      → get_elem? ts i ≡ some t
      → Guarded t
  AllGuarded-get_elem? [] i t g h = absurd (ground arith)
  AllGuarded-get_elem? (x ∷ ts) zero t (g, gs) h = let e : x ≡ t = ground arith in subst Guarded e g
  AllGuarded-get_elem? (x ∷ ts) (suc i) t (g, gs) h = AllGuarded-get_elem? ts i t gs h

  wrap_lem :
      (name : Text) (base : BaseTool S) (policy : ToolPolicy) (t : PolicyTool S)
      → wrap name base policy ≡ ok t
      → (t.policy ≡ policy) × (t.name ≡ name)
  unfolding wrap
  wrap_lem name nil_tool policy t h = absurd (ground arith)
  wrap_lem name other_tool policy t h = absurd (ground arith)
  wrap_lem name (invokable run) policy t h = ground arith

  append_policy_tool-AllGuarded :
      (name : Text) (base : BaseTool S) (policy : ToolPolicy)
      (rest : Result BuildError (List (PolicyTool S))) (tools : List (PolicyTool S))
      → append_policy_tool name base policy rest ≡ ok tools
      → (policy ≡ operators) ⊎ ((policy ≡ everyone) × IsOpenTool name)
      → ((ts : List (PolicyTool S)) → rest ≡ ok ts → AllGuarded ts)
      → AllGuarded tools
  unfolding append_policy_tool
  append_policy_tool-AllGuarded name base policy rest tools h g k =
      elim (Result-cases (wrap name base policy)) [
        | inr (e, q) ↦ absurd (ground (arith, q))
        | inl (t, q) ↦ elim (Result-cases rest) [
          | inr (e, r) ↦ absurd (ground (arith, q, r))
          | inl (ts, r) ↦
              let (kept, named) = wrap_lem name base policy t q in
              let guarded : Guarded t = elim g [
                | inl p ↦ inl (kept ∙ p)
                | inr (p, inl n) ↦ inr (kept ∙ p, inl (named ∙ n))
                | inr (p, inr n) ↦ inr (kept ∙ p, inr (named ∙ n))
              ] in
              let all : AllGuarded (t ∷ ts) = (guarded, k ts r) in
              let e : t ∷ ts ≡ tools = ground (arith, q, r) in subst AllGuarded e all
        ]
      ]

  open_tools-AllGuarded :
      (parts : ReactParts S) (tools : List (PolicyTool S))
      → open_tools parts ≡ ok tools
      → AllGuarded tools
  unfolding open_tools
  open_tools-AllGuarded parts tools h =
      append_policy_tool-AllGuarded _ _ _ _ tools h (inr (refl, inl refl)) λ ts q.
        append_policy_tool-AllGuarded _ _ _ _ ts q (inr (refl, inr refl)) λ ts' q'.
          let e : [] ≡ ts' = ground (arith, q') in
          let none_left : AllGuarded [] = tt in subst AllGuarded e none_left

  own_tools-AllGuarded :
      (parts : ReactParts S) (tools : List (PolicyTool S))
      → own_tools parts ≡ ok tools
      → AllGuarded tools
  unfolding own_tools
  own_tools-AllGuarded parts tools h =
      append_policy_tool-AllGuarded _ _ _ _ tools h (inl refl) λ ts q.
        elim (Option-cases parts.mysql) [
          | inl f ↦ absurd (ground (arith, q, f))
          | inr (mysql, f) ↦
              append_policy_tool-AllGuarded (codes "mysql_crud") mysql operators (open_tools parts)
                ts (ground (arith, q, f)) (inl refl) (λ ts' q'. open_tools-AllGuarded parts ts' q')
        ]

  all_tools-AllGuarded :
      (parts : ReactParts S) (mcp : List (McpTool S)) (tools : List (PolicyTool S))
      → all_tools parts mcp ≡ ok tools
      → AllGuarded tools
  unfolding all_tools
  all_tools-AllGuarded parts [] tools h = own_tools-AllGuarded parts tools h
  all_tools-AllGuarded parts (m ∷ ms) tools h = elim (Option-cases m.info) [
    | inl f ↦ absurd (ground (arith, h, f))
    | inr (name, f) ↦
        append_policy_tool-AllGuarded name m.base operators (all_tools parts ms) tools
          (ground (arith, h, f)) (inl refl) (λ ts q. all_tools-AllGuarded parts ms ts q)
  ]

  react_agent-AllGuarded :
      (parts : ReactParts S) (tools : List (PolicyTool S)) (closer : Bool)
      → (react_agent parts).1 ≡ ok (tools, closer)
      → AllGuarded tools
  unfolding react_agent fail_build
  react_agent-AllGuarded parts tools closer h =
      let mcp : List (McpTool S) = elim (get_log_mcp_tools parts.mcp).1 [
        | ok ts ↦ ts
        | err e ↦ []
      ] in
      elim (Result-cases (all_tools parts mcp)) [
        | inr (e, q) ↦ absurd (ground (arith, q, h))
        | inl (ts, q) ↦ all_tools-AllGuarded parts mcp tools (ground (arith, q, h))
      ]

  -- Who a tool's policy lets through.
  allowed_lem :
      (principal : Option Principal) (t : PolicyTool S)
      → tool_allowed principal t.policy ≡ true
      → Guarded t
      → (p : Principal) × (principal ≡ some p)
        × (is_empty p.tenant_id ≡ false)
        × (is_empty p.user_id ≡ false)
        × (((contains (codes "operator") p.roles || contains (codes "admin") p.roles) ≡ true)
            ⊎ IsOpenTool t.name)
  unfolding tool_allowed
  allowed_lem none t h g = absurd (ground (arith, h))
  allowed_lem (some p) t h (inr (e, open_tool)) =
      (p, refl, ground (arith, h), ground (arith, h), inr open_tool)
  allowed_lem (some p) t h (inl e) = (
    p,
    refl,
    ground (arith, h),
    ground (arith, h),
    inl (roles_lem (codes "operator") (codes "admin") p.roles (role_checked p t.policy h e)),
  )

  -- Of the tools that an agent was built with, a call reaches one only for a principal with a tenant
  -- and a user, and, but for the tools for the time and the internal documents, with the role operator
  -- or admin; every other call is denied and changes nothing.
  pub invokable_run-guarded :
      (parts : ReactParts S) (tools : List (PolicyTool S)) (closer : Bool)
      → (react_agent parts).1 ≡ ok (tools, closer)
      → (i : ℕ) (t : PolicyTool S) (s : S) (principal : Option Principal) (arguments : Text)
      → get_elem? tools i ≡ some t
      → invokable_run t s principal arguments ≢ (s, err (tool_denied t.name))
      → (p : Principal) × (principal ≡ some p)
        × (is_empty p.tenant_id ≡ false)
        × (is_empty p.user_id ≡ false)
        × (((contains (codes "operator") p.roles || contains (codes "admin") p.roles) ≡ true)
            ⊎ IsOpenTool t.name)
  unfolding invokable_run
  invokable_run-guarded parts tools closer built i t s principal arguments at reached =
      elim (Bool-cases (tool_allowed principal t.policy)) [
        | inr denied ↦ absurd (reached (ground (arith, denied)))
        | inl allowed ↦
            allowed_lem principal t allowed
              (AllGuarded-get_elem? tools i t (react_agent-AllGuarded parts tools closer built) at)
      ]
