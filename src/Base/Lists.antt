-- ===== src/Base/Lists.antt =====
-- Arrays: lists measured by native numbers, under the library's names, and the array methods.
use Prim.Native.Nat.{ℕ, zero, suc, ◌+◌, ◌≤◌}
use mathlib.Core.Path.{◌≡◌, refl}
use mathlib.Core.Logic.{◌↔◌, ◌⊎◌, inl, inr}
use mathlib.Core.Bool.{Bool, true, false, ◌||◌, ◌&&◌}
use mathlib.Core.Option.{Option, none, some}
use mathlib.Core.List.{List, [], ◌∷◌, ◌++◌, Memᴰ}
use mathlib.Core.List.Memᴰ
use native.Mathlib.Omega.{arith}
use evolve_loop.Base.Tests.{if◌then◌else◌, Bool-cases}

module _ {ℓ} {A : Type ℓ} where
  abbrev pub length : List A → ℕ
  length [] = 0
  length (x ∷ xs) = suc (length xs)

  -- `xs.slice(0, n)`
  abbrev pub take : ℕ → List A → List A
  take zero xs = []
  take (suc n) [] = []
  take (suc n) (x ∷ xs) = x ∷ take n xs

  -- `xs.some(p)`, `xs.every(p)`, `xs.filter(p)` and `xs.find(p)`.
  abbrev pub any : (A → Bool) → List A → Bool
  any p [] = false
  any p (x ∷ xs) = p x || any p xs

  abbrev pub all : (A → Bool) → List A → Bool
  all p [] = true
  all p (x ∷ xs) = p x && all p xs

  abbrev pub keep : (A → Bool) → List A → List A
  keep p [] = []
  keep p (x ∷ xs) = let rest = keep p xs in if p x then x ∷ rest else rest

  abbrev pub find : (A → Bool) → List A → Option A
  find p [] = none
  find p (x ∷ xs) = if p x then some x else find p xs

  pub length-append : (xs ys : List A) → length (xs ++ ys) ≡ length xs + length ys
  length-append [] ys = omega arith
  length-append (x ∷ xs) ys = omega (arith, length-append xs ys)

  pub length-take-le : (n : ℕ) (xs : List A) → length (take n xs) ≤ n
  length-take-le zero xs = omega arith
  length-take-le (suc n) [] = omega arith
  length-take-le (suc n) (x ∷ xs) = omega (arith, length-take-le n xs)

  -- A predicate by recursion, which the tactics read and build.
  abbrev pub All {κ} : (A → Type κ) → List A → Type κ
  All P [] = Unit
  All P (x ∷ xs) = P x × All P xs

  pub all-mem : (p : A → Bool) (xs : List A) (x : A) → all p xs ≡ true → Memᴰ x xs → p x ≡ true
  all-mem p [] x h m = absurd (Memᴰ.not-nil m)
  all-mem p (y ∷ ys) x h (Memᴰ.head e) = ground arith
  all-mem p (y ∷ ys) x h (Memᴰ.tail m) = ground (arith, all-mem p ys x)

  pub all_intro :
      (p : A → Bool) (xs : List A) → ((x : A) → Memᴰ x xs → p x ≡ true) → all p xs ≡ true
  all_intro p [] h = refl
  all_intro p (x ∷ xs) h =
      ground (arith, h x (Memᴰ.head refl), all_intro p xs (λ y m. h y (Memᴰ.tail m)))

  pub any_intro : (p : A → Bool) (xs : List A) (x : A) → p x ≡ true → Memᴰ x xs → any p xs ≡ true
  any_intro p [] x h m = absurd (Memᴰ.not-nil m)
  any_intro p (y ∷ ys) x h (Memᴰ.head e) = ground arith
  any_intro p (y ∷ ys) x h (Memᴰ.tail m) = ground (arith, any_intro p ys x h m)

  pub any_elim : (p : A → Bool) (xs : List A) → any p xs ≡ true → (x : A) × Memᴰ x xs × (p x ≡ true)
  any_elim p [] h = absurd (cc)
  any_elim p (x ∷ xs) h = elim (Bool-cases (p x)) [
    | inl hit ↦ (x, Memᴰ.head refl, hit)
    | inr miss ↦ let (y, m, hy) = any_elim p xs (rw miss at h) in (y, Memᴰ.tail m, hy)
  ]

  -- Every element passes, or some element does not.
  pub all-cases :
      (p : A → Bool) (xs : List A) → (all p xs ≡ true) ⊎ ((x : A) × Memᴰ x xs × (p x ≡ false))
  all-cases p [] = inl refl
  all-cases p (x ∷ xs) = elim (Bool-cases (p x)) [
    | inr miss ↦ inr (x, Memᴰ.head refl, miss)
    | inl hit ↦ elim (all-cases p xs) [
      | inl rest ↦ inl (rw (hit, rest))
      | inr (y, m, hy) ↦ inr (y, Memᴰ.tail m, hy)
    ]
  ]

  pub any-false :
      (p : A → Bool) (xs : List A) → (any p xs ≡ false) ↔ ((x : A) → Memᴰ x xs → p x ≡ false)
  any-false p xs = (forth xs, back xs)
    where
      forth : (xs : List A) → any p xs ≡ false → (x : A) → Memᴰ x xs → p x ≡ false
      forth [] h x m = absurd (Memᴰ.not-nil m)
      forth (y ∷ ys) h x (Memᴰ.head e) = ground arith
      forth (y ∷ ys) h x (Memᴰ.tail m) = forth ys (ground arith) x m

      back : (xs : List A) → ((x : A) → Memᴰ x xs → p x ≡ false) → any p xs ≡ false
      back [] h = refl
      back (y ∷ ys) h = ground (arith, h y (Memᴰ.head refl), back ys (λ x m. h x (Memᴰ.tail m)))

  pub find-none :
      (p : A → Bool) (xs : List A) → (find p xs ≡ none) ↔ ((x : A) → Memᴰ x xs → p x ≡ false)
  find-none p xs = (forth xs, back xs)
    where
      forth : (xs : List A) → find p xs ≡ none → (x : A) → Memᴰ x xs → p x ≡ false
      forth [] h x m = absurd (Memᴰ.not-nil m)
      forth (y ∷ ys) h x (Memᴰ.head e) = ground arith
      forth (y ∷ ys) h x (Memᴰ.tail m) = forth ys (ground arith) x m

      back : (xs : List A) → ((x : A) → Memᴰ x xs → p x ≡ false) → find p xs ≡ none
      back [] h = refl
      back (y ∷ ys) h = ground (arith, h y (Memᴰ.head refl), back ys (λ x m. h x (Memᴰ.tail m)))
