-- ===== src/Writer/Paths.antt =====
-- `pathlib.Path` as backend/ktnmgr/enclosure/ses.py uses it on a device path, and `str` of a
-- number.
use ktn_enclosure_manager.Common.{
  ℕ, zero, suc, ◌+◌, ◌/◌, ◌%◌, Bool, true, false, not, ◌&&◌, ◌||◌, List, [], ◌∷◌, ◌++◌,
  if◌then◌else◌, ◌==◌, nat_eq, list_eq,
}
use ktn_enclosure_manager.Common.Text.{Text, codes, starts_with, join}

-- A part joins the path unless it is empty or a dot.
abbrev keep_part : Text → List Text → List Text
keep_part part parts = if (part == []) || (part == codes ".") then parts else part ∷ parts

-- The parts between the slashes, with `part` the start of the first one.
unfoldable pub parts_from : Text → Text → List Text
parts_from part [] = keep_part part []
parts_from part (c ∷ s) = elim (c == 47) [
  | true ↦ keep_part part (parts_from [] s)
  | false ↦ parts_from (part ++ c ∷ []) s
]

-- `Path(s).is_absolute()`
unfoldable pub is_absolute : Text → Bool
unfolding starts_with
is_absolute s = starts_with (codes "/") s

-- The root: two slashes are kept, more are one.
unfoldable pub root_of : Text → Text
unfolding starts_with
root_of s =
    if starts_with (codes "//") s && not (starts_with (codes "///") s)
    then codes "//"
    else if starts_with (codes "/") s
    then codes "/"
    else []

-- `str(Path(s))` of an absolute path
unfoldable pub path_text : Text → Text
unfolding root_of parts_from join
path_text s = root_of s ++ join (codes "/") (parts_from [] s)

-- `Path(s).parent.name`
unfoldable pub parent_name : Text → Text
unfolding parts_from
parent_name s = before_last (parts_from [] s)
  where
    before_last : List Text → Text
    before_last [] = []
    before_last (a ∷ []) = []
    before_last (a ∷ b ∷ []) = a
    before_last (a ∷ b ∷ c ∷ ps) = before_last (b ∷ c ∷ ps)

-- The decimal digits_onto of a number, before `rest`; a number below 10 ^ fuel is printed whole.
unfoldable pub digits_onto : ℕ → ℕ → Text → Text
digits_onto zero n rest = rest
digits_onto (suc fuel) n rest =
    let more = digits_onto fuel (n / 10) ((48 + n % 10) ∷ rest) in
    if n / 10 == 0 then (48 + n % 10) ∷ rest else more

-- `f"{n}"` of a number of at most four digits_onto
unfoldable pub decimal : ℕ → Text
unfolding digits_onto
decimal n = digits_onto 4 n []
