-- ===== src/ToolFactory/Calls.antt =====
-- What a call of a tool of core/tool-factory.ts means, read off its arguments, the risk of the tool and the
-- settings, for the handler to be held against.
use avito_mcp.Prelude.{
  String, ◌≤◌, ◌<◌, ◌≡◌, ◌≢◌, ◌⊎◌, Bool, true, false, not, Option, none, some, [], ◌∷◌, arith,
  includes, eq_iff, get_or, refl, inl, inr, Bool-cases, if_cases, ap, sym, if◌then◌else◌, ◌==◌,
}
use mathlib.Core.Path.{subst}
use avito_mcp.Json.{Json, Properties, bool, str, find_property, pick}
use avito_mcp.Policy.{Config, Risk, read, sensitive, requires_confirmation}
use avito_mcp.Policy.Levels.{level, floor}
use avito_mcp.Idempotency.{Request}
use avito_mcp.ToolFactory.{ToolSpec, risk_of, is_destructive}
use avito_mcp.ToolFactory.Args.{strip_meta}
use avito_mcp.ToolFactory.Handler.{
  Settings, Next, replies, confirms, runs, effective_dry_run, idempotency_key, request_of,
  clean_args, is_bool, key_in,
}

abbrev is_public_param : String → Bool
is_public_param k = not (includes ("dryRun" ∷ "idempotencyKey" ∷ []) k)

-- a call that is meant to have an effect, as the caller and the settings say it
abbrev pub IsReal : ToolSpec → Settings → Properties → Type 0
IsReal spec settings args =
    ((risk_of spec ≡ read) ⊎ (risk_of spec ≡ sensitive))
    ⊎ (find_property args "dryRun" ≡ some (bool false))
    ⊎ ((find_property args "dryRun" ≢ some (bool true)) × (settings.dry_run_default ≡ false))

abbrev IsNoKey : Option Json → Type 0
IsNoKey (some (str s)) = s ≡ ""
IsNoKey _ = Unit

-- the request to the ledger that belongs to a call, if there is one
abbrev pub IsKeyed :
    (hash_args : Properties → String) → ToolSpec → Properties → Option Request → Type 0
IsKeyed hash_args spec args none =
    ((risk_of spec ≡ read) ⊎ (risk_of spec ≡ sensitive))
    ⊎ IsNoKey (find_property args "idempotencyKey")
IsKeyed hash_args spec args (some q) =
    ((risk_of spec ≢ read) × (risk_of spec ≢ sensitive))
    × (find_property args "idempotencyKey" ≡ some (str q.key))
    × (q.key ≢ "")
    × (q.tool_name ≡ spec.name)
    × (q.args_hash ≡ hash_args (pick is_public_param args))

-- what must hold of a call that comes to run its tool, or to ask for a confirmation
abbrev pub Passes :
    (hash_args : Properties → String) → ToolSpec → Settings → Properties → Next → Type 0
Passes hash_args spec settings args (runs q) =
    IsReal spec settings args
    × ((risk_of spec ≡ sensitive)
        ⊎ (level (risk_of spec) < floor settings.policy.confirmation_mode))
    × IsKeyed hash_args spec args q
Passes hash_args spec settings args (confirms q) =
    IsReal spec settings args
    × ((risk_of spec ≢ sensitive)
        × (floor settings.policy.confirmation_mode ≤ level (risk_of spec)))
    × IsKeyed hash_args spec args q
Passes hash_args spec settings args (replies r) = Unit

harmless : (risk : Risk) → is_destructive risk ≡ false → (risk ≡ read) ⊎ (risk ≡ sensitive)
unfolding is_destructive
harmless risk h = ground (arith, h)

mutating : (risk : Risk) → is_destructive risk ≡ true → (risk ≢ read) × (risk ≢ sensitive)
unfolding is_destructive
mutating risk h = ground (arith, h)

no_dry_run :
    (o : Option Json) (dry_run_default : Bool)
    → get_or (is_bool o) dry_run_default ≡ false
    → (o ≡ some (bool false)) ⊎ ((o ≢ some (bool true)) × (dry_run_default ≡ false))
no_dry_run o dry_run_default h = ground (arith, h)

pub effective_dry_run-IsReal :
    (spec : ToolSpec) (settings : Settings) (args : Properties)
    → effective_dry_run spec settings args ≡ false
    → IsReal spec settings args
unfolding effective_dry_run
effective_dry_run-IsReal spec settings args real =
    elim (Bool-cases (is_destructive (risk_of spec))) [
      | inl acts ↦ inr (
          no_dry_run (find_property args "dryRun") settings.dry_run_default
            (ground (arith, acts, real)))
      | inr reads ↦ inl (harmless (risk_of spec) reads)
    ]

pub unconfirmed :
    (risk : Risk) (cfg : Config)
    → requires_confirmation risk cfg ≡ false
    → (risk ≡ sensitive) ⊎ (level risk < floor cfg.confirmation_mode)
unfolding requires_confirmation
unconfirmed risk cfg free = ground (arith, free)

abbrev pub request_if :
    (Properties → String) → ToolSpec → Properties → Option String → Option Request
request_if hash_args spec args none = none
request_if hash_args spec args (some key) = some (request_of hash_args spec key args)

keyed :
    (hash_args : Properties → String) (spec : ToolSpec) (args : Properties) (o : Option Json)
    → is_destructive (risk_of spec) ≡ true
    → find_property args "idempotencyKey" ≡ o
    → IsKeyed hash_args spec args (request_if hash_args spec args (key_in o))
unfolding clean_args strip_meta
keyed hash_args spec args (some (str key)) acts e =
    if_cases (λ k. IsKeyed hash_args spec args (request_if hash_args spec args k)) (key == "") _ _
      (λ empty. inr (subst IsNoKey (sym e) (ground (arith, empty, eq_iff key ""))))
      (λ named. (
        mutating (risk_of spec) acts,
        e,
        λ h. ground (arith, named, h, eq_iff key ""),
        refl,
        ap (λ b. hash_args (if b then strip_meta args else args)) acts,
      ))
keyed hash_args spec args none acts e = inr (ground (arith, e))
keyed hash_args spec args (some j) acts e = inr (subst IsNoKey (sym e) tt)

pub idempotency_key-IsKeyed :
    (hash_args : Properties → String) (spec : ToolSpec) (args : Properties)
    → IsKeyed hash_args spec args (request_if hash_args spec args (idempotency_key spec args))
unfolding idempotency_key
idempotency_key-IsKeyed hash_args spec args =
    if_cases (λ k. IsKeyed hash_args spec args (request_if hash_args spec args k))
      (is_destructive (risk_of spec)) _ _
      (λ acts. keyed hash_args spec args (find_property args "idempotencyKey") acts refl)
      (λ reads. inl (harmless (risk_of spec) reads))
