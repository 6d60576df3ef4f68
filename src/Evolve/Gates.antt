-- ===== src/Evolve/Gates.antt =====
-- evolveloop/handoff/gate-result.ts: the decision of a gate about a request, as its file tells it.
pub mod Trusted
use evolve_loop.Base.{
  ℕ, String, ◌<>◌, Bool, true, false, ◌||◌, ◌&&◌, not, Option, none, some, List, [], ◌∷◌, get_or,
  ◌==◌, if◌then◌else◌, string_eq, Eq, contains,
}
use evolve_loop.Evidence.Builders.{truthy}
use evolve_loop.Evolve.Signal.{NeedSignal}
use evolve_loop.Evolve.Host.{Host}
use evolve_loop.Evolve.Longitudinal.{AnalysisScope, LongitudinalNeed}
use evolve_loop.Evolve.Windows.{ObservationWindow, OpenInput, open_window}

pub data GateDecision : Type 0 where
  approved approved_with_constraints needs_more_evidence blocked rejected hold : GateDecision

pub data GateSourceKind : Type 0 where
  controlled_fixture external_adapter untrusted : GateSourceKind

pub data Trust : Type 0 where
  trusted_fixture external untrusted : Trust

instance unfoldable pub trust_eq : Eq Trust
trust_eq = record { dec = hlevel }

-- The fields of the file that are read; `none` where a field is absent or no text. The flags are those
-- that are `true`.
pub record RawGate : Type 0 where
  pub decision : Option String
  pub gate_source : Option String
  pub gate_source_kind : Option String
  pub note : Option String
  pub controlled_fixture : Bool
  pub external_adapter : Bool
  pub timestamp : Option String
  pub at : Option String
  pub gate_run_id : Option String
  pub implementation_id : Option String
  pub reason : Option String

pub record GateSource : Type 0 where
  pub gate_source : String
  pub gate_source_kind : GateSourceKind
  pub trust : Trust

abbrev pub has_text : Option String → String → Bool
has_text none t = false
has_text (some s) t = s == t

-- The kind that the file names decides; without one the source, the note and the flags do.
unfoldable pub classify_gate_source : RawGate → GateSource
classify_gate_source raw =
    if has_text raw.gate_source_kind "controlled_fixture"
    then record {
      gate_source = get_or raw.gate_source "ControlledGateFixture";
      gate_source_kind = GateSourceKind.controlled_fixture;
      trust = Trust.trusted_fixture;
    }
    else if has_text raw.gate_source_kind "external_adapter"
    then record {
      gate_source = get_or raw.gate_source "external_adapter";
      gate_source_kind = GateSourceKind.external_adapter;
      trust = Trust.external;
    }
    else if has_text raw.gate_source_kind "untrusted"
    then record {
      gate_source = get_or raw.gate_source "untrusted";
      gate_source_kind = GateSourceKind.untrusted;
      trust = Trust.untrusted;
    }
    else if has_text raw.gate_source "ControlledGateFixture"
        || has_text raw.note "controlled_fixture_not_production_gate"
        || raw.controlled_fixture
    then record {
      gate_source = get_or raw.gate_source "ControlledGateFixture";
      gate_source_kind = GateSourceKind.controlled_fixture;
      trust = Trust.trusted_fixture;
    }
    else if has_text raw.gate_source "external_adapter" || raw.external_adapter
    then record {
      gate_source = get_or raw.gate_source "external_adapter";
      gate_source_kind = GateSourceKind.external_adapter;
      trust = Trust.external;
    }
    else record {
      gate_source = get_or raw.gate_source "unlabeled";
      gate_source_kind = GateSourceKind.untrusted;
      trust = Trust.untrusted;
    }

abbrev pub decision_named : String → Option GateDecision
decision_named t =
    if t == "APPROVED"
    then some approved
    else if t == "APPROVED_WITH_CONSTRAINTS"
    then some approved_with_constraints
    else if t == "NEEDS_MORE_EVIDENCE"
    then some needs_more_evidence
    else if t == "BLOCKED"
    then some blocked
    else if t == "REJECTED"
    then some rejected
    else if t == "HOLD"
    then some hold
    else none

unfoldable pub normalize_decision : Option String → Option GateDecision
normalize_decision none = none
normalize_decision (some t) = decision_named t

pub record GateResult : Type 0 where
  pub decision : GateDecision
  pub request_id : String
  pub timestamp : String
  pub source : GateSource
  pub gate_run_id : Option String
  pub implementation_id : Option String
  pub reason : Option String
  pub note : Option String

abbrev pub gate_timestamp : (now : String) → RawGate → String
gate_timestamp now raw =
    if truthy raw.timestamp
    then get_or raw.timestamp ""
    else if truthy raw.at
    then get_or raw.at ""
    else now

abbrev pub gate_of : (now request_id : String) → RawGate → GateDecision → GateResult
gate_of now request_id raw d = record {
  decision = d;
  request_id = request_id;
  timestamp = gate_timestamp now raw;
  source = classify_gate_source raw;
  gate_run_id = raw.gate_run_id;
  implementation_id = raw.implementation_id;
  reason = raw.reason;
  note = raw.note;
}

-- `file` is the content of the file, `none` where there is none that can be read.
unfoldable pub read_gate_result :
    (now request_id : String) → (file : Option RawGate) → Option GateResult
unfolding normalize_decision classify_gate_source
read_gate_result now request_id none = none
read_gate_result now request_id (some raw) = elim (normalize_decision raw.decision) [
  | none ↦ none
  | some d ↦ some (gate_of now request_id raw d)
]

abbrev pub is_approved : GateDecision → Bool
is_approved approved = true
is_approved approved_with_constraints = true
is_approved _ = false

pub record IngestInput : Type 0 where
  pub request_id : String
  pub need : Option LongitudinalNeed
  pub scope : Option AnalysisScope
  pub before_signals : Option (List NeedSignal)
  pub candidate_id : Option String
  pub evolution_request_id : Option String

-- The output, with the windows after it.
pub record Ingested : Type 0 where
  pub gate : Option GateResult
  pub approved : Bool
  pub window : Option ObservationWindow
  pub windows : List ObservationWindow

abbrev pub open_input : IngestInput → GateResult → LongitudinalNeed → AnalysisScope → OpenInput
open_input i g need scope = record {
  evolution_request_id = get_or i.evolution_request_id i.request_id;
  candidate_id = get_or i.candidate_id ("cand-" <> i.request_id);
  need = need;
  scope = scope;
  before_signals = get_or i.before_signals [];
  implementation_id = some (get_or g.implementation_id ("impl-" <> i.request_id));
}

module _ (h : Host) (minimum duration : ℕ) (now : String) (i : IngestInput)
    (ws : List ObservationWindow) where
  abbrev pub no_window : GateResult → Bool → Ingested
  no_window g ok = record { gate = some g; approved = ok; window = none; windows = ws }

  abbrev pub open_for : GateResult → Option LongitudinalNeed → Option AnalysisScope → Ingested
  open_for g (some need) (some scope) =
      let (w, ws') = open_window h minimum duration now (open_input i g need scope) ws in
      record { gate = some g; approved = true; window = some w; windows = ws' }
  open_for g _ _ = no_window g true

  abbrev pub ingest_gate : GateResult → Ingested
  ingest_gate g =
      if g.source.trust == Trust.untrusted
      then no_window g false
      else if is_approved g.decision
      then open_for g i.need i.scope
      else no_window g false

  unfoldable pub ingest_gate_result : (file : Option RawGate) → Ingested
  unfolding read_gate_result open_window
  ingest_gate_result file = elim (read_gate_result now i.request_id file) [
    | none ↦ record { gate = none; approved = false; window = none; windows = ws }
    | some g ↦ ingest_gate g
  ]
