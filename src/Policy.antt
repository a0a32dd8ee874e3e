-- ===== src/Policy.antt =====
-- core/policy.ts: which tools are registered, and which of them need a confirmation.
pub mod Levels
mod Tests
use Prim.Native.String.{◌++◌}
use avito_mcp.Prelude.{
  String, Bool, true, false, not, ◌&&◌, ◌||◌, List, ltb, length, includes, if◌then◌else◌,
}

-- `ToolRisk` of core/tool-factory.ts
pub data Risk : Type 0 where
  read write money public sensitive : Risk

pub data Mode : Type 0 where
  read_only guarded full_access : Mode

pub data ConfirmationMode : Type 0 where
  off money_public all_destructive : ConfirmationMode

-- the fields of `Config` that the policy reads
pub record Config : Type 0 where
  pub mode : Mode
  pub expose_auth_tools : Bool
  pub allow_tools : List String
  pub deny_tools : List String
  pub confirmation_mode : ConfirmationMode

pub data Decision : Type 0 where
  allowed : Decision
  refused : (reason : String) → Decision

abbrev pub risk_name : Risk → String
risk_name read = "read"
risk_name write = "write"
risk_name money = "money"
risk_name public = "public"
risk_name sensitive = "sensitive"

abbrev is_read : Risk → Bool
is_read read = true
is_read _ = false

abbrev is_write : Risk → Bool
is_write write = true
is_write _ = false

abbrev is_money : Risk → Bool
is_money money = true
is_money _ = false

abbrev is_public : Risk → Bool
is_public public = true
is_public _ = false

abbrev is_sensitive : Risk → Bool
is_sensitive sensitive = true
is_sensitive _ = false

abbrev is_read_only : Mode → Bool
is_read_only read_only = true
is_read_only _ = false

abbrev is_guarded : Mode → Bool
is_guarded guarded = true
is_guarded _ = false

unfoldable pub evaluate_policy : String → Risk → Config → Decision
evaluate_policy tool_name risk cfg =
    if is_sensitive risk && not cfg.expose_auth_tools
    then refused "risk=sensitive hidden by default — set AVITO_MCP_EXPOSE_AUTH_TOOLS=1 to expose"
    else if includes cfg.deny_tools tool_name
    then refused "tool is in AVITO_MCP_DENY_TOOLS"
    else if ltb 0 (length cfg.allow_tools) && not (includes cfg.allow_tools tool_name)
    then refused "tool is not in AVITO_MCP_ALLOW_TOOLS allowlist"
    else if is_read_only cfg.mode && not (is_read risk)
    then refused ("AVITO_MCP_MODE=read_only blocks risk=" ++ risk_name risk)
    else if is_guarded cfg.mode && (is_money risk || is_public risk)
    then refused ("AVITO_MCP_MODE=guarded blocks risk=" ++ risk_name risk)
    else allowed

confirm_in : ConfirmationMode → Risk → Bool
confirm_in off risk = false
confirm_in money_public risk = is_money risk || is_public risk
confirm_in all_destructive risk = is_money risk || is_public risk || is_write risk

unfoldable pub requires_confirmation : Risk → Config → Bool
unfolding confirm_in
requires_confirmation risk cfg = confirm_in cfg.confirmation_mode risk
