-- ===== src/Policy/Levels.antt =====
-- The policy of core/policy.ts against a description by levels: a risk has a level, a mode has a
-- ceiling, and a confirmation mode has a floor.
use avito_mcp.Prelude.{ℕ, String, ◌≤◌, ◌≡◌, ◌≢◌, ◌↔◌, ◌⊎◌, true, false, [], arith, includes}
use avito_mcp.Policy.{
  Risk, read, write, money, public, sensitive, Mode, read_only, guarded, full_access,
  ConfirmationMode, off, money_public, all_destructive, Config, allowed, evaluate_policy,
  requires_confirmation,
}

abbrev pub level : Risk → ℕ
level read = 0
level write = 1
level sensitive = 1
level money = 2
level public = 2

abbrev pub ceiling : Mode → ℕ
ceiling read_only = 0
ceiling guarded = 1
ceiling full_access = 2

abbrev pub floor : ConfirmationMode → ℕ
floor off = 3
floor money_public = 2
floor all_destructive = 1

-- What an operator means by the four settings, each on its own.
pub record IsPermitted (tool : String) (risk : Risk) (cfg : Config) : Type 0 where
  pub exposed : risk ≡ sensitive → cfg.expose_auth_tools ≡ true
  pub not_denied : includes cfg.deny_tools tool ≡ false
  pub listed : (cfg.allow_tools ≡ []) ⊎ (includes cfg.allow_tools tool ≡ true)
  pub within_mode : level risk ≤ ceiling cfg.mode

module _ (tool : String) (risk : Risk) (cfg : Config) where
  allowed-IsPermitted : evaluate_policy tool risk cfg ≡ allowed → IsPermitted tool risk cfg
  unfolding evaluate_policy
  allowed-IsPermitted h = record {
    exposed = λ e. ground arith;
    not_denied = ground arith;
    listed = ground arith;
    within_mode = ground arith;
  }

  IsPermitted-allowed : IsPermitted tool risk cfg → evaluate_policy tool risk cfg ≡ allowed
  unfolding evaluate_policy
  IsPermitted-allowed p = ground arith

  -- A tool is registered exactly when its risk is exposed, it is not denied, it is on the allow list
  -- or that list is empty, and the level of its risk is within the ceiling of the mode.
  pub evaluate_policy_iff : (evaluate_policy tool risk cfg ≡ allowed) ↔ IsPermitted tool risk cfg
  evaluate_policy_iff = (allowed-IsPermitted, IsPermitted-allowed)

-- Raising the mode, with all other settings kept, never hides a tool.
pub evaluate_policy_mono :
    (tool : String) (risk : Risk) (cfg : Config) (mode : Mode)
    → ceiling cfg.mode ≤ ceiling mode
    → evaluate_policy tool risk cfg ≡ allowed
    → evaluate_policy tool risk (record cfg { mode = mode }) ≡ allowed
evaluate_policy_mono tool risk cfg mode up h =
    let p = (evaluate_policy_iff tool risk cfg).0 h in
    (evaluate_policy_iff tool risk (record cfg { mode = mode })).1 (record {
      exposed = p.exposed;
      not_denied = p.not_denied;
      listed = p.listed;
      within_mode = omega arith;
    })

-- A confirmation is asked for exactly when the risk is not `sensitive` and its level reaches the
-- floor of the confirmation mode.
pub requires_confirmation_iff :
    (risk : Risk) (cfg : Config)
    → (requires_confirmation risk cfg ≡ true)
      ↔ ((risk ≢ sensitive) × (floor cfg.confirmation_mode ≤ level risk))
unfolding requires_confirmation
requires_confirmation_iff risk cfg = ground arith
