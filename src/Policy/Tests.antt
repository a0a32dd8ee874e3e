-- ===== src/Policy/Tests.antt =====
-- The policy at concrete settings.
use avito_mcp.Prelude.{◌≡◌, ◌↔◌, refl, false, true, [], ◌∷◌, ◌≤◌, ◌≢◌, arith}
use avito_mcp.Policy.{
  Config, read, write, money, sensitive, guarded, full_access, money_public, allowed, refused,
  evaluate_policy, requires_confirmation,
}
use avito_mcp.Policy.Levels.{
  IsPermitted, evaluate_policy_iff, evaluate_policy_mono, requires_confirmation_iff, floor, level,
}

abbrev seller : Config
seller = record {
  mode = guarded;
  expose_auth_tools = false;
  allow_tools = "items_list" ∷ "items_update_price" ∷ [];
  deny_tools = "items_delete" ∷ [];
  confirmation_mode = money_public;
}

write_allowed : evaluate_policy "items_update_price" write seller ≡ allowed
unfolding evaluate_policy
write_allowed = refl

money_refused :
    evaluate_policy "items_list" money seller ≡ refused "AVITO_MCP_MODE=guarded blocks risk=money"
unfolding evaluate_policy
money_refused = refl

evaluate_policy_iff_example :
    (evaluate_policy "items_list" read seller ≡ allowed) ↔ IsPermitted "items_list" read seller
evaluate_policy_iff_example = evaluate_policy_iff "items_list" read seller

evaluate_policy_mono_sample :
    evaluate_policy "items_update_price" write (record seller { mode = full_access }) ≡ allowed
evaluate_policy_mono_sample =
    evaluate_policy_mono "items_update_price" write seller full_access (omega arith) write_allowed

requires_confirmation_iff_sample :
    (requires_confirmation money seller ≡ true)
    ↔ ((money ≢ sensitive) × (floor money_public ≤ level money))
requires_confirmation_iff_sample = requires_confirmation_iff money seller
