-- ===== src/Base/Sort.antt =====
-- `Array.prototype.sort`: a stable sort by the sign of a comparator. `after a b` is the test
-- `comparator(a, b) > 0`.
use mathlib.Core.Path.{◌≡◌}
use mathlib.Core.Logic.{inl, inr}
use mathlib.Core.Bool.{Bool, false}
use mathlib.Core.List.{List, [], ◌∷◌, Perm, Memᴰ}
use mathlib.Core.List.Perm
use evolve_loop.Base.Tests.{if◌then◌else◌, Bool-cases}

module _ {ℓ} {A : Type ℓ} (after : A → A → Bool) where
  -- Puts `x` before the first element that it does not come after.
  abbrev pub sort_insert : A → List A → List A
  sort_insert x [] = x ∷ []
  sort_insert x (y ∷ ys) = if after x y then y ∷ sort_insert x ys else x ∷ y ∷ ys

  abbrev pub sort : List A → List A
  sort [] = []
  sort (x ∷ xs) = sort_insert x (sort xs)

  sort_insert-perm : (x : A) (xs : List A) → Perm (sort_insert x xs) (x ∷ xs)
  sort_insert-perm x [] = Perm.rfl
  sort_insert-perm x (y ∷ ys) = elim (Bool-cases (after x y)) [
    | inl late ↦ rw late (Perm.trans (Perm.cons y (sort_insert-perm x ys)) (Perm.swap x y ys))
    | inr early ↦ rw early Perm.rfl
  ]

  pub sort-perm : (xs : List A) → Perm (sort xs) xs
  sort-perm [] = Perm.rfl
  sort-perm (x ∷ xs) = Perm.trans (sort_insert-perm x (sort xs)) (Perm.cons x (sort-perm xs))

  pub mem-sort_insert : (x y : A) (xs : List A) → Memᴰ y (sort_insert x xs) → Memᴰ y (x ∷ xs)
  mem-sort_insert x y [] m = m
  mem-sort_insert x y (z ∷ zs) m = elim (Bool-cases (after x z)) [
    | inr early ↦ rw early at m
    | inl late ↦ past (mem-sort_insert x y zs) (rw late at m)
  ]
    where
      past :
          (Memᴰ y (sort_insert x zs) → Memᴰ y (x ∷ zs))
          → Memᴰ y (z ∷ sort_insert x zs)
          → Memᴰ y (x ∷ z ∷ zs)
      past rest (Memᴰ.head e) = Memᴰ.tail (Memᴰ.head e)
      past rest (Memᴰ.tail t) = elim (rest t) [
        | Memᴰ.head e ↦ Memᴰ.head e
        | Memᴰ.tail r ↦ Memᴰ.tail (Memᴰ.tail r)
      ]

  pub sort_insert-mem : (x y : A) (xs : List A) → Memᴰ y (x ∷ xs) → Memᴰ y (sort_insert x xs)
  sort_insert-mem x y [] m = m
  sort_insert-mem x y (z ∷ zs) m = elim (Bool-cases (after x z)) [
    | inr early ↦ rw early m
    | inl late ↦ rw late (past (sort_insert-mem x y zs) m)
  ]
    where
      past :
          (Memᴰ y (x ∷ zs) → Memᴰ y (sort_insert x zs))
          → Memᴰ y (x ∷ z ∷ zs)
          → Memᴰ y (z ∷ sort_insert x zs)
      past rest (Memᴰ.head e) = Memᴰ.tail (rest (Memᴰ.head e))
      past rest (Memᴰ.tail (Memᴰ.head e)) = Memᴰ.head e
      past rest (Memᴰ.tail (Memᴰ.tail r)) = Memᴰ.tail (rest (Memᴰ.tail r))

  -- Sorting neither adds nor loses an element.
  pub mem-sort : (y : A) (xs : List A) → Memᴰ y (sort xs) → Memᴰ y xs
  mem-sort y [] m = m
  mem-sort y (x ∷ xs) m = elim (mem-sort_insert x y (sort xs) m) [
    | Memᴰ.head e ↦ Memᴰ.head e
    | Memᴰ.tail t ↦ Memᴰ.tail (mem-sort y xs t)
  ]

  pub sort-mem : (y : A) (xs : List A) → Memᴰ y xs → Memᴰ y (sort xs)
  sort-mem y [] m = m
  sort-mem y (x ∷ xs) (Memᴰ.head e) = sort_insert-mem x y (sort xs) (Memᴰ.head e)
  sort-mem y (x ∷ xs) (Memᴰ.tail t) = sort_insert-mem x y (sort xs) (Memᴰ.tail (sort-mem y xs t))

  -- No element comes after its right neighbour.
  abbrev pub IsSorted : List A → Type 0
  IsSorted [] = Unit
  IsSorted (x ∷ []) = Unit
  IsSorted (x ∷ y ∷ ys) = (after x y ≡ false) × IsSorted (y ∷ ys)
