-- ===== src/Evolve/Host.antt =====
-- What the observer takes from its host, and the small functions that its files share.
use evolve_loop.Base.{
  ℕ, String, ◌<>◌, Bool, Option, none, some, List, [], ◌∷◌, ◌++◌, Dict, lookup, insert, get_or,
  contains, string_eq, if◌then◌else◌,
}
use evolve_loop.Evidence.Builders.{truthy}

-- `digest n s`: the first `n` hexadecimal digits of the SHA-256 of `s`. `parse_time`: `Date.parse`, in
-- milliseconds, `none` where it is not a number. `text_after`: the order by which `sort()` puts texts.
pub record Host : Type 0 where
  pub digest : ℕ → String → String
  pub parse_time : String → Option ℕ
  pub text_after : String → String → Bool

-- `parts.join(separator)`
abbrev pub join : String → List String → String
join separator [] = ""
join separator (p ∷ []) = p
join separator (p ∷ q ∷ ps) = p <> separator <> join separator (q ∷ ps)

abbrev pub hash : Host → List String → String
hash h parts = h.digest 16 (join "|" parts)

-- `[...new Set(xs)]`
abbrev pub add_new : List String → List String → List String
add_new seen [] = seen
add_new seen (x ∷ xs) = add_new (if contains seen x then seen else seen ++ x ∷ []) xs

abbrev pub set_of : List String → List String
set_of xs = add_new [] xs

-- `xs.filter(Boolean)` of texts that may be absent.
abbrev pub present : List (Option String) → List String
present [] = []
present (none ∷ xs) = present xs
present (some x ∷ xs) = let rest = present xs in if truthy (some x) then x ∷ rest else rest

-- `groups.set(key, [...(groups.get(key) ?? []), x])`
abbrev pub add_to_group : {A : Type 0} → (A → String) → A → Dict (List A) → Dict (List A)
add_to_group key x m = insert (key x) (get_or (lookup (key x) m) [] ++ x ∷ []) m

abbrev pub group_by : {A : Type 0} → (A → String) → Dict (List A) → List A → Dict (List A)
group_by key m [] = m
group_by key m (x ∷ xs) = group_by key (add_to_group key x m) xs
