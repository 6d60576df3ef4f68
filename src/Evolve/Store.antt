-- ===== src/Evolve/Store.antt =====
-- evolveloop/persistence/signal-store.ts: the signals on disk, each fingerprint once. The lines of the
-- file of signals and the set of fingerprints are lists; JSON loses nothing of them.
pub mod Indexed
use evolve_loop.Base.{
  ℕ, zero, suc, ◌+◌, ◌-◌, ◌*◌, String, Bool, true, false, ◌&&◌, ◌||◌, not, Option, none, some, List,
  [], ◌∷◌, ◌++◌, map, keep, length, leb, ltb, get_or, contains, lookup, ◌==◌, if◌then◌else◌,
  string_eq,
}
use evolve_loop.Evidence.Builders.{truthy}
use evolve_loop.Evolve.Signal.{NeedSignal, SignalType, signal_type_eq}
use evolve_loop.Evolve.Host.{Host, set_of}
use evolve_loop.Evolve.Longitudinal.{
  SignalQuery, max_signals_retained, hours_for_window, parse_timestamp,
}

pub record SignalStore : Type 0 where
  pub signals : List NeedSignal
  pub fingerprints : List String

-- `xs.slice(k)` and `xs.slice(-n)`
abbrev pub drop : {A : Type 0} → ℕ → List A → List A
drop zero xs = xs
drop (suc n) [] = []
drop (suc n) (x ∷ xs) = drop n xs

abbrev pub last_n : {A : Type 0} → ℕ → List A → List A
last_n n xs = drop (length xs - n) xs

abbrev pub fingerprints_of : List NeedSignal → List String
fingerprints_of ss = map (λ (s : NeedSignal). s.fingerprint) ss

-- What appendSignals counts.
pub record Written : Type 0 where
  pub written : ℕ
  pub skipped : ℕ
  pub rejected : ℕ

abbrev pub store_signal : NeedSignal → SignalStore → SignalStore
store_signal x s = record s {
  signals = s.signals ++ x ∷ [];
  fingerprints = s.fingerprints ++ x.fingerprint ∷ [];
}

-- One round of the loop; a time that is no time or in the future is refused.
unfoldable pub append_one :
    Host → (now : ℕ) → NeedSignal → SignalStore × Written → SignalStore × Written
unfolding parse_timestamp
append_one h now x (s, w) = elim (parse_timestamp h x.timestamp now) [
  | none ↦ (s, record w { rejected = w.rejected + 1 })
  | some ms ↦
      if contains s.fingerprints x.fingerprint
      then (s, record w { skipped = w.skipped + 1 })
      else (store_signal x s, record w { written = w.written + 1 })
]

unfoldable pub append_each :
    Host → (now : ℕ) → List NeedSignal → SignalStore × Written → SignalStore × Written
unfolding append_one
append_each h now [] p = p
append_each h now (x ∷ xs) p = append_each h now xs (append_one h now x p)

unfoldable pub trim_if_needed : SignalStore → SignalStore
trim_if_needed s = if leb (length s.signals) max_signals_retained then s else record {
  signals = last_n max_signals_retained s.signals;
  fingerprints = set_of (fingerprints_of (last_n max_signals_retained s.signals));
}

unfoldable pub append_signals :
    Host → (now : ℕ) → List NeedSignal → SignalStore → SignalStore × Written
unfolding append_each trim_if_needed
append_signals h now xs s =
    let (s', w) = append_each h now xs (s, record { written = 0; skipped = 0; rejected = 0 }) in
    (trim_if_needed s', w)

-- The bounds of a query in time. One that cannot be read, or is not given, holds nothing back.
abbrev pub hours_back : ℕ → ℕ → Option ℕ
hours_back now hours = if ltb 0 hours then some (now - hours * 3600000) else none

abbrev pub since_ms : Host → (now : ℕ) → SignalQuery → Option ℕ
since_ms h now q =
    if truthy q.since
    then h.parse_time (get_or q.since "")
    else elim q.window [ none ↦ none | some w ↦ hours_back now (hours_for_window w q.custom_hours) ]

abbrev pub until_ms : Host → (now : ℕ) → SignalQuery → Option ℕ
until_ms h now q = if truthy q.until then h.parse_time (get_or q.until "") else some (now + 300000)

abbrev pub not_before : Option ℕ → ℕ → Bool
not_before none t = true
not_before (some bound) t = leb bound t

abbrev pub not_after : Option ℕ → ℕ → Bool
not_after none t = true
not_after (some bound) t = leb t bound

-- `!want || have === want`, for a text and for a text that may be absent.
abbrev pub wanted : Option String → Option String → Bool
wanted none have = true
wanted (some w) none = w == ""
wanted (some w) (some t) = w == "" || t == w

abbrev pub wanted_type : Option SignalType → SignalType → Bool
wanted_type none have = true
wanted_type (some w) t = t == w

abbrev pub workspace_of : NeedSignal → Option String
workspace_of s = elim (lookup "workspace_id" s.metadata) [
  | some w ↦ some w
  | none ↦ lookup "feature_id" s.metadata
]

abbrev pub of_feature : Option String → NeedSignal → Bool
of_feature q s = wanted q s.feature_id || wanted q (some s.scope.id) || wanted q (workspace_of s)

abbrev pub in_time : Host → (now : ℕ) → SignalQuery → NeedSignal → Bool
in_time h now q s = elim (h.parse_time s.timestamp) [
  | none ↦ false
  | some t ↦ not_before (since_ms h now q) t && not_after (until_ms h now q) t
]

abbrev pub matches : Host → (now : ℕ) → SignalQuery → NeedSignal → Bool
matches h now q s =
    in_time h now q s
    && wanted q.user_id s.user_id
    && wanted q.project_id s.project_id
    && of_feature q.feature_id s
    && wanted q.domain (some s.domain)
    && wanted q.task_class (some s.task_class)
    && wanted_type q.type s.type
    && wanted q.source (some s.source)
    && wanted q.fingerprint (some s.fingerprint)

-- A limit of 0 is none.
unfoldable pub query : Host → (now : ℕ) → SignalQuery → SignalStore → List NeedSignal
unfolding hours_for_window
query h now q s =
    let found = keep (matches h now q) s.signals in
    if ltb 0 q.limit then last_n q.limit found else found
