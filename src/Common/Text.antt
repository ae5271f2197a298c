-- ===== src/Common/Text.antt =====
-- A Python `str` as its code points, with the methods of `str` that the backend uses.
use Prim.Native.Nat.{ℕ, ◌+◌}
use Prim.Native.Char.{code}
use Prim.Native.String.{String}
use mathlib.Core.Bool.{Bool, true, false, ◌&&◌, ◌||◌}
use mathlib.Core.List.{List, [], ◌∷◌, ◌++◌, reverse}
use ktn_enclosure_manager.Common.Eq.{◌==◌, nat_eq}
use ktn_enclosure_manager.Common.Tests.{leb, if◌then◌else◌}

abbrev pub Text : Type 0
Text = List ℕ

abbrev pub codes : String → Text
codes String.[] = []
codes (String.◌∷◌ c s) = code c ∷ codes s

-- `str.isspace` of one character, over all of Unicode
unfoldable pub is_space : ℕ → Bool
is_space c =
    (leb 9 c && leb c 13)
    || (leb 28 c && leb c 32)
    || (c == 0x85)
    || (c == 0xa0)
    || (c == 0x1680)
    || (leb 0x2000 c && leb c 0x200a)
    || (c == 0x2028)
    || (c == 0x2029)
    || (c == 0x202f)
    || (c == 0x205f)
    || (c == 0x3000)

unfoldable pub lstrip : Text → Text
unfolding is_space
lstrip [] = []
lstrip (c ∷ s) = if is_space c then lstrip s else c ∷ s

-- `s.strip()`
unfoldable pub strip : Text → Text
unfolding lstrip
strip s = reverse (lstrip (reverse (lstrip s)))

-- `str.lower` of one character: ASCII, and the two other code points whose lower case has an
-- ASCII letter (U+0130 and the Kelvin sign). Every other code point is left as it is: it lowers
-- into code points above 127, so no test against an ASCII text can tell the difference.
unfoldable pub lower_code : ℕ → Text
lower_code c =
    if leb 65 c && leb c 90
    then (c + 32) ∷ []
    else if c == 0x130
    then 105 ∷ 0x307 ∷ []
    else if c == 0x212a
    then 107 ∷ []
    else c ∷ []

-- `s.lower()`
unfoldable pub lower : Text → Text
unfolding lower_code
lower [] = []
lower (c ∷ s) = lower_code c ++ lower s

unfoldable pub starts_with : Text → Text → Bool
starts_with [] s = true
starts_with (p ∷ ps) [] = false
starts_with (p ∷ ps) (c ∷ s) = (p == c) && starts_with ps s

-- `sub in s`
unfoldable pub contains : Text → Text → Bool
unfolding starts_with
contains sub [] = starts_with sub []
contains sub (c ∷ s) = starts_with sub (c ∷ s) || contains sub s

-- The words of `s`, with `word` the letters before it.
unfoldable pub words_from : Text → Text → List Text
unfolding is_space
words_from [] [] = []
words_from (w ∷ word) [] = (w ∷ word) ∷ []
words_from word (c ∷ s) = elim (is_space c) [
  | true ↦ elim word as (λ _. List Text) [ [] ↦ words_from [] s | w ∷ ws ↦ word ∷ words_from [] s ]
  | false ↦ words_from (word ++ c ∷ []) s
]

-- `s.split()`
unfoldable pub words : Text → List Text
unfolding words_from
words = words_from []

-- `sep.join(ts)`
unfoldable pub join : Text → List Text → Text
join sep [] = []
join sep (t ∷ []) = t
join sep (t ∷ u ∷ ts) = t ++ (sep ++ join sep (u ∷ ts))

-- `s.rstrip(cs)`, where `p` tells the characters of `cs`
unfoldable pub strip_left : (ℕ → Bool) → Text → Text
strip_left p [] = []
strip_left p (c ∷ s) = if p c then strip_left p s else c ∷ s

unfoldable pub strip_right : (ℕ → Bool) → Text → Text
unfolding strip_left
strip_right p s = reverse (strip_left p (reverse s))

-- Where `str.splitlines` ends a line; `\r\n` is one end.
unfoldable pub is_line_end : ℕ → Bool
is_line_end c =
    (leb 10 c && leb c 13)
    || (leb 28 c && leb c 30)
    || (c == 0x85)
    || (c == 0x2028)
    || (c == 0x2029)

-- The lines of `s`, with `line` the start of the first one; `cr` tells that a `\r` came before.
unfoldable pub lines_from : Bool → Text → Text → List Text
unfolding is_line_end
lines_from cr [] [] = []
lines_from cr (l ∷ line) [] = (l ∷ line) ∷ []
lines_from cr line (c ∷ s) = elim (is_line_end c) [
  | true ↦ elim (cr && (c == 10)) [
    | true ↦ lines_from false line s
    | false ↦ line ∷ lines_from (c == 13) [] s
  ]
  | false ↦ lines_from false (line ++ c ∷ []) s
]

-- `s.splitlines()`
unfoldable pub splitlines : Text → List Text
unfolding lines_from
splitlines = lines_from false []
