-- ===== src/Evolve/Pacing/Full.antt =====
-- evolveloop/cadence.ts over persistence/signal-store.ts: a store that is full.
use evolve_loop.Base.{ℕ, ◌+◌, ◌≤◌, ◌≡◌, refl, ap, true, Option, some, List, [], ◌∷◌, length, arith}
use evolve_loop.Evolve.Signal.{NeedSignal}
use evolve_loop.Evolve.Host.{Host}
use evolve_loop.Evolve.Longitudinal.{max_signals_retained}
use evolve_loop.Evolve.Store.{SignalStore, fingerprints_of, append_signals}
use evolve_loop.Evolve.Store.Indexed.{IsIndexed, append_signals-IsIndexed}
use evolve_loop.Evolve.Pacing.{
  AnalysisCadenceOptions, AnalysisCadence, should_analyze_store, record_analyze_store,
}

fingerprints_of-length : (ss : List NeedSignal) → length (fingerprints_of ss) ≡ length ss
fingerprints_of-length [] = refl
fingerprints_of-length (s ∷ ss) = omega (arith, fingerprints_of-length ss)

-- When an analysis is allowed after one that was noted for an indexed store, and after any signals were
-- appended, the store at the noted analysis had room for the new signals that are needed: its fingerprints
-- and these are 10000 at most. So where some new signal is
-- needed, no analysis is allowed after one of a store that is full.
pub should_analyze_store-room :
    (h : Host) (c : AnalysisCadenceOptions) (store : SignalStore) (xs : List NeedSignal)
    (given : Option ℕ) (written_at noted_at now : ℕ) (s : AnalysisCadence)
    → IsIndexed store
    → should_analyze_store c
        (append_signals h written_at xs store).0
        given
        now
        (record_analyze_store (some store) noted_at s)
      ≡ true
    → length store.fingerprints + c.min_new_signals ≤ max_signals_retained
unfolding should_analyze_store record_analyze_store
should_analyze_store-room h c store xs given written_at noted_at now s i allowed =
    let after = append_signals-IsIndexed h written_at xs store i in
    let same = ap length after.0.index in
    let many = fingerprints_of-length (append_signals h written_at xs store).0.signals in
    let bounded = after.1 in ground arith
