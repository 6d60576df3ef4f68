-- ===== src/Policies/Builtin.antt =====
-- policies/policy-engine.ts: BUILTIN_POLICIES. A confidence of 0.6 is 600 thousandths.
use evolve_loop.Base.{true, false, none, some, [], ◌∷◌, Dict}
use evolve_loop.Types.{
  ExecutionPolicy, highest_quality, fastest, cheapest, orchestrator, auto_retry, fail, retry,
  topological, fast,
}

unfoldable pub high_reliability : ExecutionPolicy
high_reliability = record {
  id = "high-reliability";
  version = "1.0.0";
  description = some "Production";
  spec = record {
    retries = record {
      default = 3;
      by_capability = some (("testing", 2) ∷ []);
      by_type = some (("gate", 1) ∷ ("worker", 3) ∷ []);
    };
    gates = record {
      required = "testing" ∷ "security-review" ∷ "po-acceptance" ∷ "documentation" ∷ [];
      optional = some ("frontend-visual-review" ∷ []);
      skipped = some [];
    };
    provider_strategy = highest_quality;
    parallelism = record { max_parallel = 3; mode = "async" };
    step_timeout = some "30m";
    on_gate_reject = orchestrator;
    on_evidence_missing = fail;
    fail_fast = false;
    execution_order = topological;
    gate_depth = none;
    min_confidence = none;
    consult_before_schedule = some true;
    phase_mapping = some (
        ("testing", 3) ∷ ("security-review", 4) ∷ ("po-acceptance", 5) ∷ ("documentation", 6) ∷ []);
  };
}

unfoldable pub rapid_prototype : ExecutionPolicy
rapid_prototype = record {
  id = "rapid-prototype";
  version = "1.0.0";
  description = none;
  spec = record {
    retries = record { default = 1; by_capability = none; by_type = none };
    gates = record {
      required = "testing" ∷ [];
      optional = none;
      skipped = some ("security-review" ∷ "documentation" ∷ "po-acceptance" ∷ []);
    };
    provider_strategy = fastest;
    parallelism = record { max_parallel = 4; mode = "async" };
    step_timeout = none;
    on_gate_reject = auto_retry;
    on_evidence_missing = fail;
    fail_fast = true;
    execution_order = topological;
    gate_depth = some fast;
    min_confidence = none;
    consult_before_schedule = some false;
    phase_mapping = none;
  };
}

unfoldable pub cost_optimized : ExecutionPolicy
cost_optimized = record {
  id = "cost-optimized";
  version = "1.0.0";
  description = some "Minimize cost — fast gates, cheapest providers";
  spec = record {
    retries = record {
      default = 1;
      by_capability = none;
      by_type = some (("gate", 0) ∷ ("worker", 2) ∷ []);
    };
    gates = record {
      required = "testing" ∷ [];
      optional =
          some
            ("security-review" ∷ "frontend-visual-review" ∷ "po-acceptance" ∷ "documentation" ∷ []);
      skipped = some [];
    };
    provider_strategy = cheapest;
    parallelism = record { max_parallel = 2; mode = "async" };
    step_timeout = some "15m";
    on_gate_reject = orchestrator;
    on_evidence_missing = retry;
    fail_fast = false;
    execution_order = topological;
    gate_depth = some fast;
    min_confidence = some 600;
    consult_before_schedule = some true;
    phase_mapping = none;
  };
}

unfoldable pub builtin_policies : Dict ExecutionPolicy
unfolding high_reliability rapid_prototype cost_optimized
builtin_policies =
    ("high-reliability", high_reliability)
    ∷ ("rapid-prototype", rapid_prototype)
    ∷ ("cost-optimized", cost_optimized)
    ∷ []
