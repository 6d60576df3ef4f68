-- ===== src/Evolve/Patterns/Recurrent.antt =====
-- evolveloop/pattern-detector.ts: what a pattern rests on.
use evolve_loop.Base.{
  ℕ, ◌≤◌, String, ◌≡◌, refl, subst, inl, inr, Bool, true, false, Bool-cases, Option-cases, Option,
  none, some, get_or, List, [], ◌∷◌, ◌++◌, map, keep, All, Memᴰ, length, ltb, Dict, lookup, insert,
  values, ◌==◌, arith, string_eq, none-not-some, some_injective,
}
use evolve_loop.Evolve.Signal.{PatternKind, NeedSignal, DetectedPattern}
use evolve_loop.Evolve.Host.{Host, group_by, add_to_group}
use evolve_loop.Evolve.Patterns.{
  within_window, scope_key, task_key, kind_of, pattern_if, push_pattern, push_each, is_shared,
  unique, detect_patterns,
}

pub All-append :
    {A : Type 0} (P : A → Type 0) (xs ys : List A) → All P xs → All P ys → All P (xs ++ ys)
All-append P [] ys a b = b
All-append P (x ∷ xs) ys a b = (a.0, All-append P xs ys a.1 b)

All-keep : {A : Type 0} (P : A → Type 0) (p : A → Bool) (xs : List A) → All P xs → All P (keep p xs)
All-keep P p [] a = tt
All-keep P p (x ∷ xs) a = elim (Bool-cases (p x)) [
  | inl hit ↦ rw hit (a.0, All-keep P p xs a.1)
  | inr miss ↦ rw miss (All-keep P p xs a.1)
]

-- what holds of the values of a dictionary
module _ {V : Type 0} (P : V → Type 0) where
  All-insert :
      (k : String) (v : V) (m : Dict V) → P v → All P (values m) → All P (values (insert k v m))
  All-insert k v [] p a = (p, tt)
  All-insert k v ((j, w) ∷ m) p a = elim (Bool-cases (j == k)) [
    | inl same ↦ rw same (p, a.1)
    | inr other ↦ rw other (a.0, All-insert k v m p a.1)
  ]

  All-lookup : (k : String) (v : V) (m : Dict V) → All P (values m) → lookup k m ≡ some v → P v
  All-lookup k v [] a h = absurd (none-not-some h)
  All-lookup k v ((j, w) ∷ m) a h = elim (Bool-cases (j == k)) [
    | inl same ↦ subst P (some_injective (rw same at h)) a.0
    | inr other ↦ All-lookup k v m a.1 (rw other at h)
  ]

module _ {A : Type 0} (Q : A → Type 0) (key : A → String) where
  All-group :
      (k : String) (m : Dict (List A)) → All (All Q) (values m) → All Q (get_or (lookup k m) [])
  All-group k m a = elim (Option-cases (lookup k m)) [
    | inl absent ↦ rw absent tt
    | inr (g, found) ↦ rw found (All-lookup (All Q) k g m a found)
  ]

  -- A group holds what is true of all that was grouped.
  All-group_by :
      (m : Dict (List A)) (xs : List A)
      → All (All Q) (values m)
      → All Q xs
      → All (All Q) (values (group_by key m xs))
  All-group_by m [] a q = a
  All-group_by m (x ∷ xs) a q =
      let g = get_or (lookup (key x) m) [] in
      All-group_by (add_to_group key x m) xs
        (All-insert (All Q) (key x) (g ++ x ∷ []) m
          (All-append Q g (x ∷ []) (All-group (key x) m a) (q.0, tt)) a)
        q.1

-- The pattern is made of at least so many signals, each of which was given and lies in the window.
pub record RestsOn (h : Host) (min_frequency window_hours now : ℕ) (signals : List NeedSignal)
    (p : DetectedPattern) : Type 0 where
  pub group : List NeedSignal
  pub enough : min_frequency ≤ length group
  pub given :
      All (λ s. Memᴰ s signals × (within_window h min_frequency window_hours now s ≡ true)) group
  pub ids : p.signal_ids ≡ map (λ (s : NeedSignal). s.id) group
  pub frequency : p.frequency ≡ length group

module _ (h : Host) (min_frequency window_hours now : ℕ) (signals : List NeedSignal) where
  abbrev Fresh : NeedSignal → Type 0
  Fresh s = Memᴰ s signals × (within_window h min_frequency window_hours now s ≡ true)

  abbrev Good : DetectedPattern → Type 0
  Good = RestsOn h min_frequency window_hours now signals

  Fresh-keep :
      (ss : List NeedSignal)
      → ((s : NeedSignal) → Memᴰ s ss → Memᴰ s signals)
      → All Fresh (keep (within_window h min_frequency window_hours now) ss)
  Fresh-keep [] known = tt
  Fresh-keep (s ∷ ss) known =
      let rest = Fresh-keep ss (λ t m. known t (Memᴰ.tail m)) in
      elim (Bool-cases (within_window h min_frequency window_hours now s)) [
        | inl hit ↦ rw hit ((known s (Memᴰ.head refl), hit), rest)
        | inr miss ↦ rw miss rest
      ]

  pattern_if-Good :
      (force : Bool) (group : List NeedSignal) (sample : NeedSignal) (kind : Option PatternKind)
      → min_frequency ≤ length group
      → All Fresh group
      → All Good (pattern_if h min_frequency window_hours now force group sample kind)
  pattern_if-Good force group sample none enough fresh = tt
  pattern_if-Good force group sample (some kind) enough fresh =
      (record { group = group; enough = enough; given = fresh; ids = refl; frequency = refl }, tt)

  push_each-Good :
      (force : Bool) (gs : List (List NeedSignal))
      → All (All Fresh) gs
      → All Good (push_each h min_frequency window_hours now force gs)
  unfolding push_each push_pattern
  push_each-Good force [] all = tt
  push_each-Good force ([] ∷ gs) all = push_each-Good force gs all.1
  push_each-Good force ((s ∷ g) ∷ gs) all =
      let rest = push_each-Good force gs all.1 in
      elim (Bool-cases (ltb (length (s ∷ g)) min_frequency)) [
        | inl few ↦ rw (few, push_each, push_pattern) rest
        | inr enough ↦
            rw (enough, push_each, push_pattern)
              (All-append Good _ _
                (pattern_if-Good force (s ∷ g) s (kind_of s.type) (ground arith) all.0) rest)
      ]

  unique-Good :
      (m : Dict DetectedPattern) (ps : List DetectedPattern)
      → All Good (values m)
      → All Good ps
      → All Good (values (unique h min_frequency window_hours now m ps))
  unique-Good m [] a b = a
  unique-Good m (p ∷ ps) a b =
      unique-Good (insert p.fingerprint p m) ps (All-insert Good p.fingerprint p m b.0 a) b.1

  -- Each pattern rests on at least `min_frequency` of the given signals, all of them in the window, and
  -- its frequency is their number.
  pub detect_patterns-RestsOn :
      All
        (RestsOn h min_frequency window_hours now signals)
        (detect_patterns h min_frequency window_hours now signals)
  unfolding detect_patterns
  detect_patterns-RestsOn =
      let fresh = keep (within_window h min_frequency window_hours now) signals in
      let all_fresh = Fresh-keep signals (λ s m. m) in
      let scoped = scope_key h min_frequency window_hours now in
      let tasks = task_key h min_frequency window_hours now in
      let shared = is_shared h min_frequency window_hours now in
      let groups = values (group_by scoped [] fresh) in
      let cross = keep shared (values (group_by tasks [] fresh)) in
      unique-Good [] _ tt (
        All-append Good _ _
          (push_each-Good false groups (All-group_by Fresh scoped [] fresh tt all_fresh))
          (push_each-Good true cross (
            All-keep (All Fresh) shared (values (group_by tasks [] fresh))
              (All-group_by Fresh tasks [] fresh tt all_fresh))))
