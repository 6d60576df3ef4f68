-- ===== src/Policies.antt =====
-- policies/policy-engine.ts: the execution policies and the questions that the engine asks of one.
-- Policies read from a directory are an argument, since a YAML library parses them.
pub mod Builtin
use evolve_loop.Base.{
  ℕ, String, Bool, true, false, not, Option, none, some, get_or, List, [], ◌∷◌, contains, ◌==◌,
  Dict, lookup, insert, if◌then◌else◌, string_eq,
}
use evolve_loop.Types.{
  GraphNode, ExecutionPolicy, ExecutionPolicySpec, Retries, Gates, Parallelism, ProviderStrategy,
  OnGateReject, OnEvidenceMissing, ExecutionOrder, GateDepth, standard,
}
use evolve_loop.Policies.Builtin.{builtin_policies, high_reliability}

-- `Partial<ExecutionPolicySpec>`. An override of `timeouts`, `knowledge` or `phase_gates`, which replaces
-- the whole object, is one that has the object's modelled field.
pub record Overrides : Type 0 where
  pub retries : Option Retries
  pub gates : Option Gates
  pub provider_strategy : Option ProviderStrategy
  pub parallelism : Option Parallelism
  pub step_timeout : Option String
  pub on_gate_reject : Option OnGateReject
  pub on_evidence_missing : Option OnEvidenceMissing
  pub fail_fast : Option Bool
  pub execution_order : Option ExecutionOrder
  pub gate_depth : Option GateDepth
  pub min_confidence : Option ℕ
  pub consult_before_schedule : Option Bool
  pub phase_mapping : Option (Dict ℕ)

-- `o ?? base` of two optional values, which is also what a spread does to an optional field.
abbrev pub or_else {ℓ} : {A : Type ℓ} → Option A → Option A → Option A
or_else (some a) base = some a
or_else none base = base

-- `{ ...base, ...over }` of an object that may be absent.
abbrev merge_retries : Retries → Option Retries → Retries
merge_retries base none = base
merge_retries base (some over) = record {
  default = over.default;
  by_capability = or_else over.by_capability base.by_capability;
  by_type = or_else over.by_type base.by_type;
}

abbrev merge_gates : Gates → Option Gates → Gates
merge_gates base none = base
merge_gates base (some over) = record {
  required = over.required;
  optional = or_else over.optional base.optional;
  skipped = or_else over.skipped base.skipped;
}

abbrev merge_spec : ExecutionPolicySpec → Overrides → ExecutionPolicySpec
merge_spec base over = record {
  retries = merge_retries base.retries over.retries;
  gates = merge_gates base.gates over.gates;
  provider_strategy = get_or over.provider_strategy base.provider_strategy;
  parallelism = get_or over.parallelism base.parallelism;
  step_timeout = or_else over.step_timeout base.step_timeout;
  on_gate_reject = get_or over.on_gate_reject base.on_gate_reject;
  on_evidence_missing = get_or over.on_evidence_missing base.on_evidence_missing;
  fail_fast = get_or over.fail_fast base.fail_fast;
  execution_order = get_or over.execution_order base.execution_order;
  gate_depth = or_else over.gate_depth base.gate_depth;
  min_confidence = or_else over.min_confidence base.min_confidence;
  consult_before_schedule = or_else over.consult_before_schedule base.consult_before_schedule;
  phase_mapping = or_else over.phase_mapping base.phase_mapping;
}

abbrev pub PolicyEngine : Type 0
PolicyEngine = Dict ExecutionPolicy

-- `this.policies.set(p.metadata.id, p)` for each.
abbrev pub add_policies : PolicyEngine → List ExecutionPolicy → PolicyEngine
add_policies m [] = m
add_policies m (p ∷ ps) = add_policies (insert p.id p m) ps

-- The policies of the directory, then the custom ones.
unfoldable pub new_policy_engine : List ExecutionPolicy → List ExecutionPolicy → PolicyEngine
unfolding builtin_policies
new_policy_engine from_dir custom = add_policies (add_policies builtin_policies from_dir) custom

unfoldable pub resolve : PolicyEngine → String → Option Overrides → ExecutionPolicy
unfolding high_reliability
resolve engine id overrides =
    let base = get_or (lookup id engine) high_reliability in
    elim overrides [ none ↦ base | some over ↦ record base { spec = merge_spec base.spec over } ]

abbrev pub is_in : String → Option (List String) → Bool
is_in s none = false
is_in s (some l) = contains l s

abbrev pub known_gates : List String
known_gates =
    "testing" ∷ "security-review" ∷ "po-acceptance" ∷ "documentation" ∷ "frontend-visual-review"
    ∷ []

unfoldable pub gate_enabled : ExecutionPolicy → String → Bool
gate_enabled policy capability =
    let gates = policy.spec.gates in
    if is_in capability gates.skipped
    then false
    else if contains gates.required capability
    then true
    else if is_in capability gates.optional
    then true
    else not (contains known_gates capability)

abbrev pub lookup_in : String → Option (Dict ℕ) → Option ℕ
lookup_in k none = none
lookup_in k (some m) = lookup k m

unfoldable pub retries_for : ExecutionPolicy → GraphNode → ℕ
retries_for policy node =
    let r = policy.spec.retries in
    get_or (lookup_in node.capability r.by_capability)
      (get_or (lookup_in node.type r.by_type) r.default)

unfoldable pub max_parallel : ExecutionPolicy → ℕ
max_parallel policy = policy.spec.parallelism.max_parallel

unfoldable pub min_confidence : ExecutionPolicy → ℕ
min_confidence policy = get_or policy.spec.min_confidence 0

unfoldable pub gate_depth : ExecutionPolicy → GateDepth
gate_depth policy = get_or policy.spec.gate_depth standard
