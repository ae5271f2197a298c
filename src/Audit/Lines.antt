-- ===== src/Audit/Lines.antt =====
-- Lines of a text and of its end, for `tail` of backend/ktnmgr/services/audit.py.
use ktn_enclosure_manager.Common.{
  ℕ, zero, suc, ◌+◌, ◌-◌, ◌≤◌, Bool, true, false, ◌&&◌, List, [], ◌∷◌, ◌++◌, length, length-append,
  drop, take, ◌==◌, nat_eq, ◌≡◌, refl, ◌∙◌, ap, arith, Bool-cases, inl, inr, ==→≡,
}
use ktn_enclosure_manager.Common.Text.{Text, is_line_end, lines_from, splitlines}
use ktn_enclosure_manager.Audit.Log.{Bytes, newlines, last_of}

module _ (cr : Bool) (c : ℕ) (s : Text) where
  lines_from-inside :
      (line : Text)
      → is_line_end c ≡ false
      → lines_from cr line (c ∷ s) ≡ lines_from false (line ++ c ∷ []) s
  unfolding lines_from
  lines_from-inside [] e = ground arith
  lines_from-inside (l ∷ line) e = ground arith

  lines_from-swallowed :
      (line : Text)
      → is_line_end c ≡ true
      → (cr && (c == 10)) ≡ true
      → lines_from cr line (c ∷ s) ≡ lines_from false line s
  unfolding lines_from
  lines_from-swallowed [] e f = ground arith
  lines_from-swallowed (l ∷ line) e f = ground arith

  lines_from-counted :
      (line : Text)
      → is_line_end c ≡ true
      → (cr && (c == 10)) ≡ false
      → lines_from cr line (c ∷ s) ≡ line ∷ lines_from (c == 13) [] s
  unfolding lines_from
  lines_from-counted [] e f = ground arith
  lines_from-counted (l ∷ line) e f = ground arith

newline_ends : is_line_end 10 ≡ true
unfolding is_line_end
newline_ends = refl

-- Past the end of a line it does not matter what came before.
lines_from-append :
    (cr : Bool) (line x y : Text)
    → (cr ≡ true → line ≡ [])
    → (before : List Text) × (lines_from cr line (x ++ 10 ∷ y) ≡ before ++ lines_from false [] y)
lines_from-append true line [] y fresh = (
  [],
  lines_from-swallowed true 10 y line newline_ends refl
      ∙ ap (λ l. lines_from false l y) (fresh refl),
)
lines_from-append false line [] y fresh =
    (line ∷ [], lines_from-counted false 10 y line newline_ends refl)
lines_from-append cr line (c ∷ x) y fresh = elim (Bool-cases (is_line_end c)) [
  | inr inside ↦
      let (before, e) = lines_from-append false (line ++ c ∷ []) x y (λ h. absurd (cc h)) in
      (before, lines_from-inside cr c (x ++ 10 ∷ y) line inside ∙ e)
  | inl ends ↦ elim (Bool-cases (cr && (c == 10))) [
    | inl swallowed ↦
        let (before, e) = lines_from-append false line x y (λ h. absurd (cc h)) in
        (before, lines_from-swallowed cr c (x ++ 10 ∷ y) line ends swallowed ∙ e)
    | inr counted ↦
        let (before, e) = lines_from-append (c == 13) [] x y (λ h. refl) in
        (
          line ∷ before,
          lines_from-counted cr c (x ++ 10 ∷ y) line ends counted ∙ ap (λ r. line ∷ r) e,
        )
  ]
]

pub splitlines-append :
    (x y : Text) → (before : List Text) × (splitlines (x ++ 10 ∷ y) ≡ before ++ splitlines y)
unfolding splitlines
splitlines-append x y = lines_from-append false [] x y (λ h. absurd (cc h))

abbrev pending : Bool → ℕ
pending true = 1
pending false = 0

-- Each newline ends a line, but one that follows a `\r`.
newlines-lines_from :
    (cr : Bool) (line s : Text) → newlines s ≤ length (lines_from cr line s) + pending cr
unfolding lines_from newlines
newlines-lines_from cr [] [] = omega arith
newlines-lines_from cr (l ∷ line) [] = omega arith
newlines-lines_from cr line (c ∷ s) = ground (
  arith,
  newlines-lines_from false (line ++ c ∷ []) s,
  newlines-lines_from false line s,
  newlines-lines_from (c == 13) [] s,
)

pub newlines-splitlines : (s : Text) → newlines s ≤ length (splitlines s)
unfolding splitlines
newlines-splitlines s = omega (arith, newlines-lines_from false [] s)

zero_plus : (n : ℕ) → 0 + n ≡ n
zero_plus n = omega arith

suc_plus : (m n : ℕ) → suc m + n ≡ suc (m + n)
suc_plus m n = omega arith

drop-append : {A : Type 0} (n : ℕ) (xs ys : List A) → drop (length xs + n) (xs ++ ys) ≡ drop n ys
drop-append n [] ys = rw (zero_plus n) refl
drop-append n (x ∷ xs) ys = rw (suc_plus (length xs) n) (drop-append n xs ys)

pub last_of-append :
    {A : Type 0} (n : ℕ) (xs ys : List A) → n ≤ length ys → last_of n (xs ++ ys) ≡ last_of n ys
last_of-append n xs ys h =
    ap (λ k. drop k (xs ++ ys)) (omega (arith, length-append xs ys))
    ∙ drop-append (length ys - n) xs ys

-- A text with a newline is what stands before the first one and after it.
pub newlines-split :
    (s : Bytes)
    → 1 ≤ newlines s
    → (x : Bytes) × (y : Bytes) × (s ≡ x ++ 10 ∷ y) × (newlines s ≡ suc (newlines y))
unfolding newlines
newlines-split [] h = absurd (omega (arith, h))
newlines-split (c ∷ s) h = elim (Bool-cases (c == 10)) [
  | inl ends ↦ ([], s, ap (λ d. d ∷ s) (==→≡ c 10 ends), rw ends refl)
  | inr inside ↦
      let (x, y, e, n) = newlines-split s (rw inside at h) in
      (c ∷ x, y, ap (λ t. c ∷ t) e, rw inside n)
]

pub take-drop : {A : Type 0} (k : ℕ) (xs : List A) → take k xs ++ drop k xs ≡ xs
take-drop k [] = refl
take-drop zero (x ∷ xs) = refl
take-drop (suc k) (x ∷ xs) = ap (λ r. x ∷ r) (take-drop k xs)
