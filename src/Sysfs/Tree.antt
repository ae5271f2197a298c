-- ===== src/Sysfs/Tree.antt =====
-- What backend/ktnmgr/enclosure/sysfs.py asks of the kernel and of Python: the tree under /sys and
-- /dev, the clock, and the order of names. The kernel is a parameter: a scan or a lookup reads one
-- state of it, which writing, waiting and running a command change.
use ktn_enclosure_manager.Common.{
  ℕ, ◌+◌, ◌-◌, ◌*◌, ℤ, pos, neg, Bool, true, false, not, ◌&&◌, ◌||◌, Option, none, some, List, [],
  ◌∷◌, ◌++◌, leb, ltb, if◌then◌else◌, ◌==◌, nat_eq, list_eq,
}
use ktn_enclosure_manager.Common.Regex.{is_digit}
use ktn_enclosure_manager.Common.Text.{Text, strip}

-- The monotonic clock in milliseconds; `none` is an `OSError`.
pub record Kernel (W : Type 0) : Type 0 where
  pub is_dir : W → Text → Bool
  pub exists : W → Text → Bool
  pub is_symlink : W → Text → Bool
  pub real_path : W → Text → Text
  -- `iterdir`, the names only
  pub names : W → Text → List Text
  pub read_text : W → Text → Option Text
  pub write_text : W → Text → Text → Option W
  pub monotonic : W → ℕ
  pub sleep : W → ℕ → W

-- `path / name`
abbrev pub child : Text → Text → Text
child path name = path ++ 47 ∷ name

-- `path.name`, with `found` the part after the last slash so far
unfoldable pub last_part : Text → Text → Text
last_part found [] = found
last_part found (c ∷ s) = if c == 47 then last_part [] s else last_part (found ++ c ∷ []) s

-- `a <= b` of two names
unfoldable pub text_leb : Text → Text → Bool
text_leb [] b = true
text_leb (x ∷ a) [] = false
text_leb (x ∷ a) (y ∷ b) = ltb x y || ((x == y) && text_leb a b)

abbrev pub int_leb : ℤ → ℤ → Bool
int_leb (ℤ.pos a) (ℤ.pos b) = leb a b
int_leb (ℤ.pos a) (ℤ.negsuc b) = false
int_leb (ℤ.negsuc a) (ℤ.pos b) = true
int_leb (ℤ.negsuc a) (ℤ.negsuc b) = leb b a

-- `sorted`, which keeps the order of equal keys
module _ {A : Type 0} (before : A → A → Bool) where
  unfoldable pub insert : A → List A → List A
  insert x [] = x ∷ []
  insert x (y ∷ ys) = let rest = insert x ys in if before x y then x ∷ y ∷ ys else y ∷ rest

  unfoldable pub sorted : List A → List A
  unfolding insert
  sorted [] = []
  sorted (x ∷ xs) = insert x (sorted xs)

-- The digits of an `int` after its first one; a single `_` may stand between two.
unfoldable pub digits_from : ℕ → Bool → Text → Option ℕ
digits_from n after_bar [] = if after_bar then none else some n
digits_from n after_bar (c ∷ s) = elim (is_digit c) [
  | true ↦ digits_from (n * 10 + (c - 48)) false s
  | false ↦ elim ((c == 95) && not after_bar) [ true ↦ digits_from n true s | false ↦ none ]
]

unfoldable pub unsigned : Text → Option ℕ
unfolding digits_from
unsigned s = digits_from 0 true s

-- `int(s)` of an ASCII text; none is a `ValueError`
unfoldable pub parse_int : Text → Option ℤ
unfolding unsigned strip
parse_int s = elim (strip s) as (λ _. Option ℤ) [
  | [] ↦ none
  | c ∷ t ↦
      if c == 45
      then elim (unsigned t) [ none ↦ none | some n ↦ some (neg n) ]
      else elim (unsigned (if c == 43 then t else c ∷ t)) [ none ↦ none | some n ↦ some (pos n) ]
]
