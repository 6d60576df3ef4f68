-- ===== src/Evolve/Miner/Once.antt =====
-- evolveloop/signal-miner.ts: a logical event becomes a signal once.
use evolve_loop.Base.{
  String, ◌≡◌, refl, sym, ◌∙◌, ◌≢◌, subst, inl, inr, true, false, Bool-cases, Option-cases, none,
  some, List, [], ◌∷◌, map, All, Dict, lookup, insert, lookup-insert, ◌==◌, contains, Distinct,
  arith, string_eq, none-not-some, ◌⊎◌, Memᴰ,
}
use evolve_loop.Evolve.Signal.{RawObservation, NeedSignal}
use evolve_loop.Evolve.Host.{Host}
use evolve_loop.Evolve.Miner.{event_fingerprint, signal_of, is_new_event, mine}

abbrev pub fingerprints : List NeedSignal → List String
fingerprints ss = map (λ (s : NeedSignal). s.fingerprint) ss

abbrev pub IsKnown : String → Dict NeedSignal → Type 0
IsKnown k m = lookup k m ≢ none

-- What mining gives: a signal for each of some observations, all new and distinct, after which every
-- event is known and stands for its signal.
pub record Mined (h : Host) (seen : Dict NeedSignal) (os : List RawObservation)
    (out : List NeedSignal) (last : Dict NeedSignal) : Type 0 where
  pub fresh : (k : String) → contains (fingerprints out) k ≡ true → lookup k seen ≡ none
  pub distinct : Distinct (fingerprints out)
  pub covered : All (λ o. IsKnown (event_fingerprint h o) last) os
  pub known_after :
      (k : String) → IsKnown k last → IsKnown k seen ⊎ (contains (fingerprints out) k ≡ true)
  pub mined : All (λ s. (o : RawObservation) × Memᴰ o os × (s ≡ signal_of h o)) out
  pub remembered : All (λ (s : NeedSignal). lookup s.fingerprint last ≡ some s) out
  pub kept : (k : String) (s : NeedSignal) → lookup k seen ≡ some s → lookup k last ≡ some s

module _ (h : Host) where
  All-later :
      (o : RawObservation) (os : List RawObservation) (out : List NeedSignal)
      → All (λ s. (p : RawObservation) × Memᴰ p os × (s ≡ signal_of h p)) out
      → All (λ s. (p : RawObservation) × Memᴰ p (o ∷ os) × (s ≡ signal_of h p)) out
  All-later o os [] all = tt
  All-later o os (s ∷ out) all =
      let (p, m, e) = all.0 in ((p, Memᴰ.tail m, e), All-later o os out all.1)

  mine_old :
      (seen : Dict NeedSignal) (o : RawObservation) (os : List RawObservation) (old : NeedSignal)
      → lookup (event_fingerprint h o) seen ≡ some old
      → mine h seen (o ∷ os) ≡ mine h seen os
  unfolding mine
  mine_old seen o os old known =
      let stale : is_new_event h seen o ≡ false = rw (known, is_new_event) refl in
      rw (stale, mine) refl

  mine_new :
      (seen : Dict NeedSignal) (o : RawObservation) (os : List RawObservation)
      → lookup (event_fingerprint h o) seen ≡ none
      → mine h seen (o ∷ os) ≡ (
        signal_of h o ∷ (mine h (insert (event_fingerprint h o) (signal_of h o) seen) os).0,
        (mine h (insert (event_fingerprint h o) (signal_of h o) seen) os).1,
      )
  unfolding mine
  mine_new seen o os unknown =
      let new_one : is_new_event h seen o ≡ true = rw (unknown, is_new_event) refl in
      rw (new_one, mine) refl

  Mined-old :
      (seen : Dict NeedSignal) (o : RawObservation) (os : List RawObservation) (old : NeedSignal)
      (out : List NeedSignal) (last : Dict NeedSignal)
      → lookup (event_fingerprint h o) seen ≡ some old
      → Mined h seen os out last
      → Mined h seen (o ∷ os) out last
  Mined-old seen o os old out last known m = record {
    fresh = m.fresh;
    distinct = m.distinct;
    covered = (λ e. none-not-some (sym e ∙ m.kept (event_fingerprint h o) old known), m.covered);
    known_after = m.known_after;
    mined = All-later o os out m.mined;
    remembered = m.remembered;
    kept = m.kept;
  }

  Mined-new :
      (seen : Dict NeedSignal) (o : RawObservation) (os : List RawObservation)
      (out : List NeedSignal) (last : Dict NeedSignal)
      → lookup (event_fingerprint h o) seen ≡ none
      → Mined h (insert (event_fingerprint h o) (signal_of h o) seen) os out last
      → Mined h seen (o ∷ os) (signal_of h o ∷ out) last
  Mined-new seen o os out last unknown m =
      let fp = event_fingerprint h o in
      let at = λ (k : String). lookup-insert fp k (signal_of h o) seen in
      record {
        fresh = λ k c. elim (Bool-cases (k == fp)) [
          | inl same ↦ ground (arith, unknown)
          | inr other ↦ ground (arith, m.fresh k, at k)
        ];
        distinct = (
          elim (Bool-cases (contains (fingerprints out) fp)) [
            | inr absent ↦ absent
            | inl present ↦ absurd (ground (arith, m.fresh fp present, at fp))
          ],
          m.distinct,
        );
        covered = (
          λ e. none-not-some (sym e ∙ m.kept fp (signal_of h o) (ground (arith, at fp))),
          m.covered,
        );
        known_after = λ k known. elim (Bool-cases (k == fp)) [
          | inl same ↦ inr (ground arith)
          | inr other ↦ elim (m.known_after k known) [
            | inl before ↦ inl (λ e. before (ground (arith, at k)))
            | inr mined ↦ inr (ground arith)
          ]
        ];
        mined = ((o, Memᴰ.head refl, refl), All-later o os out m.mined);
        remembered = (m.kept fp (signal_of h o) (ground (arith, at fp)), m.remembered);
        kept = λ k s old. elim (Bool-cases (k == fp)) [
          | inl same ↦ absurd (ground (arith, unknown))
          | inr other ↦ m.kept k s (ground (arith, at k))
        ];
      }

  -- Each signal that mining gives is that of one of the observations and has a fingerprint that was not
  -- seen before, and no two have the same. Afterwards exactly the fingerprints that were seen and those
  -- of the signals are known, among them that of every observation; each new one stands for its signal,
  -- and the old ones stand for what they did.
  pub mine-Mined :
      (seen : Dict NeedSignal) (os : List RawObservation)
      → Mined h seen os (mine h seen os).0 (mine h seen os).1
  unfolding mine
  mine-Mined seen [] = record {
    fresh = λ k c. cc;
    distinct = tt;
    covered = tt;
    known_after = λ k known. inl known;
    mined = tt;
    remembered = tt;
    kept = λ k s old. old;
  }
  mine-Mined seen (o ∷ os) = elim (Option-cases (lookup (event_fingerprint h o) seen)) [
    | inr (old, known) ↦
        subst (λ p. Mined h seen (o ∷ os) p.0 p.1) (sym (mine_old seen o os old known))
          (Mined-old seen o os old (mine h seen os).0 (mine h seen os).1 known (mine-Mined seen os))
    | inl unknown ↦
        let seen' = insert (event_fingerprint h o) (signal_of h o) seen in
        subst (λ p. Mined h seen (o ∷ os) p.0 p.1) (sym (mine_new seen o os unknown))
          (Mined-new seen o os (mine h seen' os).0 (mine h seen' os).1 unknown
            (mine-Mined seen' os))
  ]

  mine_known :
      (seen : Dict NeedSignal) (os : List RawObservation)
      → All (λ o. IsKnown (event_fingerprint h o) seen) os
      → mine h seen os ≡ ([], seen)
  unfolding mine
  mine_known seen [] all = refl
  mine_known seen (o ∷ os) all = elim (Option-cases (lookup (event_fingerprint h o) seen)) [
    | inl unknown ↦ absurd (all.0 unknown)
    | inr (old, known) ↦ mine_old seen o os old known ∙ mine_known seen os all.1
  ]

  -- Mining the same observations again gives no signal and changes nothing.
  pub mine-twice :
      (seen : Dict NeedSignal) (os : List RawObservation)
      → mine h (mine h seen os).1 os ≡ ([], (mine h seen os).1)
  mine-twice seen os = mine_known (mine h seen os).1 os (mine-Mined seen os).covered
