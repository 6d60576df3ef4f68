-- ===== src/Scheduler/Timeout.antt =====
-- scheduler/scheduler.ts: parseTimeoutMs. The text is read as its characters' codes.
use Prim.Native.Char.{code}
use evolve_loop.Base.{
  ℕ, ◌+◌, ◌-◌, ◌*◌, String, Bool, ◌&&◌, Option, none, some, List, [], ◌∷◌, ◌==◌, leb, if◌then◌else◌,
  nat_eq,
}

-- The code points of a text. `String` has its own `[]` and `∷`.
abbrev pub codes : String → List ℕ
codes String.[] = []
codes (String.◌∷◌ c s) = code c ∷ codes s

-- `\d`
abbrev pub is_digit : ℕ → Bool
is_digit c = leb b'0' c && leb c b'9'

abbrev pub unit_ms : ℕ → Option ℕ
unit_ms c =
    if c == b'h'
    then some 3600000
    else if c == b'm'
    then some 60000
    else if c == b's'
    then some 1000
    else none

-- After one digit or more: `n` is their number.
unfoldable pub after_digits : ℕ → List ℕ → Option ℕ
after_digits n [] = none
after_digits n (c ∷ []) = elim (unit_ms c) [ none ↦ none | some ms ↦ some (n * ms) ]
after_digits n (c ∷ d ∷ cs) =
    let rest = after_digits (n * 10 + (c - b'0')) (d ∷ cs) in if is_digit c then rest else none

-- `^(\d+)(m|h|s)$`, and the number of milliseconds.
unfoldable pub match_timeout : List ℕ → Option ℕ
unfolding after_digits
match_timeout [] = none
match_timeout (c ∷ cs) = if is_digit c then after_digits (c - b'0') cs else none

unfoldable pub parse_timeout_ms : Option String → Option ℕ
unfolding match_timeout
parse_timeout_ms none = none
parse_timeout_ms (some t) = match_timeout (codes t)
