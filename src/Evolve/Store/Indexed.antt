-- ===== src/Evolve/Store/Indexed.antt =====
-- evolveloop/persistence/signal-store.ts: the set of fingerprints is that of the signals, and bounded.
use evolve_loop.Base.{
  ℕ, zero, suc, ◌+◌, ◌-◌, ◌≤◌, String, ◌≡◌, refl, sym, ap, ◌∙◌, subst, inl, inr, false, Bool-cases,
  Option-cases, List, [], ◌∷◌, ◌++◌, length, leb, contains, contains-append, Distinct,
  Distinct-snoc, arith, string_eq,
}
use evolve_loop.Evolve.Signal.{NeedSignal}
use evolve_loop.Evolve.Host.{Host, add_new, set_of}
use evolve_loop.Evolve.Longitudinal.{max_signals_retained, parse_timestamp}
use evolve_loop.Evolve.Store.{
  SignalStore, drop, fingerprints_of, Written, append_one, append_each, trim_if_needed,
  append_signals,
}

-- The fingerprints are those of the signals, and no two signals have the same.
pub record IsIndexed (s : SignalStore) : Type 0 where
  pub index : s.fingerprints ≡ fingerprints_of s.signals
  pub distinct : Distinct s.fingerprints

abbrev total : Written → ℕ
total w = w.written + w.skipped + w.rejected

fingerprints_of-snoc :
    (ss : List NeedSignal) (x : NeedSignal)
    → fingerprints_of (ss ++ x ∷ []) ≡ fingerprints_of ss ++ x.fingerprint ∷ []
fingerprints_of-snoc [] x = refl
fingerprints_of-snoc (s ∷ ss) x = ap (λ l. s.fingerprint ∷ l) (fingerprints_of-snoc ss x)

module _ (h : Host) (now : ℕ) where
  append_one-IsIndexed :
      (x : NeedSignal) (s : SignalStore) (w : Written)
      → IsIndexed s
      → IsIndexed (append_one h now x (s, w)).0
        × (total (append_one h now x (s, w)).1 ≡ total w + 1)
  unfolding append_one
  append_one-IsIndexed x s w i = elim (Option-cases (parse_timestamp h x.timestamp now)) [
    | inl refused ↦ rw (refused, append_one) (i, omega arith)
    | inr (ms, read) ↦ elim (Bool-cases (contains s.fingerprints x.fingerprint)) [
      | inl known ↦ rw (read, known, append_one) (i, omega arith)
      | inr new ↦
          rw (read, new, append_one)
            (
              record {
                index =
                    ap (λ l. l ++ x.fingerprint ∷ []) i.index
                    ∙ sym (fingerprints_of-snoc s.signals x);
                distinct = Distinct-snoc s.fingerprints x.fingerprint i.distinct new;
              },
              omega arith,
            )
    ]
  ]

  append_each-IsIndexed :
      (xs : List NeedSignal) (s : SignalStore) (w : Written)
      → IsIndexed s
      → IsIndexed (append_each h now xs (s, w)).0
        × (total (append_each h now xs (s, w)).1 ≡ total w + length xs)
  unfolding append_each
  append_each-IsIndexed [] s w i = (i, omega arith)
  append_each-IsIndexed (x ∷ xs) s w i =
      let (one, counted) = append_one-IsIndexed x s w i in
      let p = append_one h now x (s, w) in
      let (rest, more) = append_each-IsIndexed xs p.0 p.1 one in
      (rest, omega (arith, counted, more))

-- taking the end of a list
length-drop : {A : Type 0} (n : ℕ) (xs : List A) → length (drop n xs) ≡ length xs - n
length-drop zero xs = omega arith
length-drop (suc n) [] = omega arith
length-drop (suc n) (x ∷ xs) = omega (arith, length-drop n xs)

fingerprints_of-drop :
    (n : ℕ) (ss : List NeedSignal) → fingerprints_of (drop n ss) ≡ drop n (fingerprints_of ss)
fingerprints_of-drop zero ss = refl
fingerprints_of-drop (suc n) [] = refl
fingerprints_of-drop (suc n) (s ∷ ss) = fingerprints_of-drop n ss

Distinct-drop : (n : ℕ) (xs : List String) → Distinct xs → Distinct (drop n xs)
Distinct-drop zero xs d = d
Distinct-drop (suc n) [] d = tt
Distinct-drop (suc n) (x ∷ xs) d = Distinct-drop n xs d.1

append_assoc :
    (xs : List String) (y : String) (zs : List String) → (xs ++ y ∷ []) ++ zs ≡ xs ++ y ∷ zs
append_assoc [] y zs = refl
append_assoc (x ∷ xs) y zs = ap (λ l. x ∷ l) (append_assoc xs y zs)

append_nil : (xs : List String) → xs ++ [] ≡ xs
append_nil [] = refl
append_nil (x ∷ xs) = ap (λ l. x ∷ l) (append_nil xs)

middle_new :
    (seen : List String) (x : String) (xs : List String)
    → Distinct (seen ++ x ∷ xs)
    → contains seen x ≡ false
middle_new [] x xs d = refl
middle_new (y ∷ seen) x xs d =
    let rest = middle_new seen x xs d.1 in
    let here = contains-append seen (x ∷ xs) y in let absent = d.0 in ground arith

-- A list without repetitions is its own set.
add_new-Distinct : (seen xs : List String) → Distinct (seen ++ xs) → add_new seen xs ≡ seen ++ xs
add_new-Distinct seen [] d = sym (append_nil seen)
add_new-Distinct seen (x ∷ xs) d =
    let shift = append_assoc seen x xs in
    rw (middle_new seen x xs d)
      (add_new-Distinct (seen ++ x ∷ []) xs (subst Distinct (sym shift) d) ∙ shift)

trim_if_needed-IsIndexed :
    (s : SignalStore)
    → IsIndexed s
    → IsIndexed (trim_if_needed s) × (length (trim_if_needed s).signals ≤ max_signals_retained)
unfolding trim_if_needed
trim_if_needed-IsIndexed s i = elim (Bool-cases (leb (length s.signals) max_signals_retained)) [
  | inl fits ↦ rw (fits, trim_if_needed) (i, ground arith)
  | inr long ↦
      let n = length s.signals - max_signals_retained in
      let kept = fingerprints_of (drop n s.signals) in
      let d : Distinct kept =
        subst Distinct (sym (fingerprints_of-drop n s.signals))
          (Distinct-drop n (fingerprints_of s.signals) (subst Distinct i.index i.distinct)) in
      let own : set_of kept ≡ kept = add_new-Distinct [] kept d in
      rw (long, trim_if_needed)
        (
          record { index = own; distinct = subst Distinct (sym own) d },
          let shorter = length-drop n s.signals in ground arith,
        )
]

-- appendSignals keeps the set of fingerprints that of the stored signals, with no fingerprint twice,
-- keeps at most 10000 signals, and counts each given signal once as written, skipped or rejected.
pub append_signals-IsIndexed :
    (h : Host) (now : ℕ) (xs : List NeedSignal) (s : SignalStore)
    → IsIndexed s
    → IsIndexed (append_signals h now xs s).0
      × (length (append_signals h now xs s).0.signals ≤ max_signals_retained)
      × ((append_signals h now xs s).1.written
            + (append_signals h now xs s).1.skipped
            + (append_signals h now xs s).1.rejected
          ≡ length xs)
unfolding append_signals
append_signals-IsIndexed h now xs s i =
    let w : Written = record { written = 0; skipped = 0; rejected = 0 } in
    let (indexed, counted) = append_each-IsIndexed h now xs s w i in
    let (trimmed, bounded) = trim_if_needed-IsIndexed (append_each h now xs (s, w)).0 indexed in
    (trimmed, bounded, omega (arith, counted))
