-- ===== src/ToolFactory/Registered.antt =====
-- The tools that core/tool-factory.ts registers under a policy.
use avito_mcp.Prelude.{◌≤◌, ◌≡◌, refl, Bool, true, false, Option, none, some, arith, ap, sym, ◌∙◌}
use avito_mcp.Policy.{
  Config, read_only, evaluate_policy, Risk, allowed, refused as forbidden, Decision,
}
use avito_mcp.Policy.Levels.{level, evaluate_policy_iff}
use avito_mcp.ToolFactory.{
  ToolSpec, Registration, define_tool, risk_of, is_destructive, risk_to_annotations, registration,
  if_allowed, override_hint,
}

registered_lem :
    (spec : ToolSpec) (cfg : Config) (reg : Registration)
    → define_tool spec cfg ≡ some reg
    → (evaluate_policy spec.name (risk_of spec) cfg ≡ allowed) × (registration spec ≡ reg)
unfolding define_tool
registered_lem spec cfg reg h = decided (evaluate_policy spec.name (risk_of spec) cfg) h
  where
    decided :
        (d : Decision) → if_allowed d spec ≡ some reg → (d ≡ allowed) × (registration spec ≡ reg)
    decided allowed e = (refl, ground (arith, e))
    decided (forbidden reason) e = ground (arith, e)

reads_lem :
    (risk : Risk)
    → level risk ≤ 0
    → ((risk_to_annotations risk).read_only_hint ≡ true) × (is_destructive risk ≡ false)
unfolding risk_to_annotations is_destructive
reads_lem risk low = ground (arith, low)

-- In read_only mode a tool is registered only with the hint that it reads, and neither takes a key nor
-- leaves an executor that a later confirmation could run.
pub define_tool-read_only :
    (spec : ToolSpec) (cfg : Config) (reg : Registration)
    → cfg.mode ≡ read_only
    → define_tool spec cfg ≡ some reg
    → (reg.annotations.read_only_hint ≡ true)
      × (reg.registers_executor ≡ false)
      × (reg.takes_meta_params ≡ false)
define_tool-read_only spec cfg reg mode h =
    let (permitted, e) = registered_lem spec cfg reg h in
    let low = ((evaluate_policy_iff spec.name (risk_of spec) cfg).0 permitted).within_mode in
    let (hint, harmless) = reads_lem (risk_of spec) (ground (arith, low, mode)) in
    (
      ap (λ (r : Registration). r.annotations.read_only_hint) (sym e)
          ∙ hint_kept spec.destructive_hint
          ∙ hint,
      ap (λ (r : Registration). r.registers_executor) (sym e) ∙ harmless,
      ap (λ (r : Registration). r.takes_meta_params) (sym e) ∙ harmless,
    )
  where
    hint_kept :
        (o : Option Bool)
        → (override_hint o (risk_to_annotations (risk_of spec))).read_only_hint
          ≡ (risk_to_annotations (risk_of spec)).read_only_hint
    hint_kept none = refl
    hint_kept (some b) = refl
