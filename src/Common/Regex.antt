-- ===== src/Common/Regex.antt =====
-- Python's `re` as the backend uses it: a pattern is a function from what follows it to a partial
-- function on the text, which returns the first match in the order of backtracking.
use Prim.Native.Nat.{ℕ, zero, suc, ◌+◌, ◌-◌, ◌*◌}
use mathlib.Core.Bool.{Bool, true, false, not, ◌&&◌, ◌||◌}
use mathlib.Core.Option.{Option, none, some}
use mathlib.Core.List.{List, [], ◌∷◌}
use ktn_enclosure_manager.Common.Eq.{◌==◌, nat_eq}
use ktn_enclosure_manager.Common.Tests.{leb, if◌then◌else◌}
use ktn_enclosure_manager.Common.Lists.{length}
use ktn_enclosure_manager.Common.Numbers.{ℤ, pos, neg}
use ktn_enclosure_manager.Common.Text.{Text, codes}

abbrev pub is_digit : ℕ → Bool
is_digit c = leb 48 c && leb c 57

abbrev pub is_letter : ℕ → Bool
is_letter c = (leb 65 c && leb c 90) || (leb 97 c && leb c 122)

-- `.`
abbrev pub is_any : ℕ → Bool
is_any c = not (c == 10)

-- `int(s)` of digits
abbrev pub number_from : ℕ → Text → ℕ
number_from n [] = n
number_from n (c ∷ s) = number_from (n * 10 + (c - 48)) s

abbrev pub int_of : Text → ℕ
int_of = number_from 0

module _ {ℓ} {R : Type ℓ} where
  -- The first of two that matches.
  abbrev pub first_match : Option R → Option R → Option R
  first_match (some r) q = some r
  first_match none q = q

  unfoldable pub lit : Text → (Text → Option R) → Text → Option R
  lit [] k s = k s
  lit (p ∷ ps) k [] = none
  lit (p ∷ ps) k (c ∷ s) = elim (p == c) [ true ↦ lit ps k s | false ↦ none ]

  -- `([p]*)`, the longest first
  unfoldable pub many : (ℕ → Bool) → (Text → Text → Option R) → Text → Option R
  many p k [] = k [] []
  many p k (c ∷ s) = elim (p c) [
    | true ↦ elim (many p (λ v. k (c ∷ v)) s) [ some r ↦ some r | none ↦ k [] (c ∷ s) ]
    | false ↦ k [] (c ∷ s)
  ]

  -- `([p]+)`
  unfoldable pub many1 : (ℕ → Bool) → (Text → Text → Option R) → Text → Option R
  unfolding many
  many1 p k [] = none
  many1 p k (c ∷ s) = elim (p c) [ true ↦ many p (λ v. k (c ∷ v)) s | false ↦ none ]

  -- `([p]*?)`, the shortest first
  unfoldable pub lazily : (ℕ → Bool) → (Text → Text → Option R) → Text → Option R
  lazily p k [] = k [] []
  lazily p k (c ∷ s) = elim (k [] (c ∷ s)) [
    | some r ↦ some r
    | none ↦ elim (p c) [ true ↦ lazily p (λ v. k (c ∷ v)) s | false ↦ none ]
  ]

  -- `([p]+?)`
  unfoldable pub lazily1 : (ℕ → Bool) → (Text → Text → Option R) → Text → Option R
  unfolding lazily
  lazily1 p k [] = none
  lazily1 p k (c ∷ s) = elim (p c) [ true ↦ lazily p (λ v. k (c ∷ v)) s | false ↦ none ]

  -- `[p]{2,}`
  unfoldable pub many2 : (ℕ → Bool) → (Text → Option R) → Text → Option R
  unfolding many1
  many2 p k [] = none
  many2 p k (c ∷ s) = elim (p c) [ true ↦ many1 p (λ v. k) s | false ↦ none ]

  -- One character, which is passed on.
  unfoldable pub one : (ℕ → Bool) → (ℕ → Text → Option R) → Text → Option R
  one p k [] = none
  one p k (c ∷ s) = elim (p c) [ true ↦ k c s | false ↦ none ]

  -- `(-?\d+)`
  unfoldable pub signed : (ℤ → Text → Option R) → Text → Option R
  unfolding lit many1
  signed k s =
      first_match (lit (codes "-") (many1 is_digit λ d. k (neg (int_of d))) s)
        (many1 is_digit (λ d. k (pos (int_of d))) s)

  -- `$`
  abbrev pub at_end : R → Text → Option R
  at_end r [] = some r
  at_end r (c ∷ []) = if c == 10 then some r else none
  at_end r (c ∷ d ∷ s) = none

  -- `pattern.search`
  unfoldable pub search_in : (Text → Option R) → Text → Option R
  search_in m [] = m []
  search_in m (c ∷ s) = elim (m (c ∷ s)) [ some r ↦ some r | none ↦ search_in m s ]

  -- `$` under `re.MULTILINE`
  abbrev pub line_ends : R → Text → Option R
  line_ends r [] = some r
  line_ends r (c ∷ s) = if c == 10 then some r else none

  -- `pattern.search` under `re.MULTILINE`: the pattern is told whether a line begins.
  unfoldable pub search_lines : Bool → (Bool → Text → Option R) → Text → Option R
  search_lines begins m [] = m begins []
  search_lines begins m (c ∷ s) = elim (m begins (c ∷ s)) [
    | some r ↦ some r
    | none ↦ search_lines (c == 10) m s
  ]

  -- `pattern.findall`, where a match returns what it leaves; `passed` counts the characters of the
  -- last match that are still ahead.
  unfoldable pub find_all : (Text → Option (R × Text)) → ℕ → Text → List R
  find_all m passed [] = []
  find_all m (suc passed) (c ∷ s) = find_all m passed s
  find_all m zero (c ∷ s) = elim (m (c ∷ s)) [
    | some (r, left) ↦ r ∷ find_all m (length s - length left) s
    | none ↦ find_all m 0 s
  ]
