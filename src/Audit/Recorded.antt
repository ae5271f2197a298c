-- ===== src/Audit/Recorded.antt =====
-- `AuditLog.record` of backend/ktnmgr/services/audit.py, read back by `tail`.
use ktn_enclosure_manager.Common.{
  ℕ, zero, suc, ◌+◌, ◌-◌, ◌≤◌, Option, none, some, List, [], ◌∷◌, ◌++◌, length, length-append, drop,
  leb, nat_eq, ◌≡◌, refl, ◌∙◌, ap, arith, Bool-cases, inl, inr, ◌⊎◌,
}
use ktn_enclosure_manager.Common.Text.{Text, splitlines}
use mathlib.Core.List.{reverse, append_assoc, reverse-append}
use ktn_enclosure_manager.Audit.Entry.{AuditEntry, make_entry}
use ktn_enclosure_manager.Audit.Lines.{splitlines-append}
use ktn_enclosure_manager.Audit.Log.{
  Bytes, LogFiles, appended, Faults, Codec, bytes_of, at_least, at_most, last_of, append_entry,
  append_line, rotated, rotate_if_needed, add_parsed, entries_in, clamp, tail,
}
use ktn_enclosure_manager.Audit.Tail.{IsUtf8, tail_lem}

-- The file ends with a line, or has nothing.
abbrev pub EndsLine : Option Bytes → Type 0
EndsLine none = Unit
EndsLine (some bytes) = (bytes ≡ []) ⊎ ((x : Bytes) × (bytes ≡ x ++ 10 ∷ []))

rotated-EndsLine :
    (max_bytes : ℕ) (log older : Option Bytes)
    → EndsLine log
    → EndsLine (rotated max_bytes log older).log
unfolding rotated
rotated-EndsLine max_bytes none older e = tt
rotated-EndsLine max_bytes (some bytes) older e = elim (Bool-cases (leb max_bytes (length bytes))) [
  | inl full ↦ rw full tt
  | inr room ↦ rw room e
]

rotate-EndsLine :
    (max_bytes : ℕ) (f : Faults) (files : LogFiles)
    → EndsLine files.log
    → EndsLine (rotate_if_needed max_bytes f files).log
unfolding rotate_if_needed
rotate-EndsLine max_bytes f files h = elim (Bool-cases f.rotation_fails) [
  | inl fails ↦ rw fails h
  | inr works ↦ rw works (rotated-EndsLine max_bytes files.log files.older h)
]

drop-snoc :
    {A : Type 0} (k : ℕ) (xs : List A) (x : A)
    → k ≤ length xs
    → (before : List A) × (drop k (xs ++ x ∷ []) ≡ before ++ x ∷ [])
drop-snoc zero [] x h = ([], refl)
drop-snoc zero (y ∷ xs) x h = (y ∷ xs, refl)
drop-snoc (suc k) [] x h = absurd (omega (arith, h))
drop-snoc (suc k) (y ∷ xs) x h = drop-snoc k xs x (omega (arith, h))

clamp_positive : (limit max_tail : ℕ) → 1 ≤ at_least 1 (at_most limit max_tail)
clamp_positive limit max_tail = ground arith

last_of-snoc :
    {A : Type 0} (n : ℕ) (xs : List A) (x : A)
    → 1 ≤ n
    → (before : List A) × (last_of n (xs ++ x ∷ []) ≡ before ++ x ∷ [])
last_of-snoc n xs x h =
    let (before, e) = drop-snoc (length xs + 1 - n) xs x (omega arith) in
    (before, ap (λ k. drop (k - n) (xs ++ x ∷ [])) (length-append xs (x ∷ [])) ∙ e)

add_parsed-append :
    (o : Option AuditEntry) (xs ys : List AuditEntry)
    → add_parsed o (xs ++ ys) ≡ add_parsed o xs ++ ys
add_parsed-append none xs ys = refl
add_parsed-append (some a) xs ys = refl

module _ (c : Codec) where
  entries_in-append :
      (xs ys : List Text) → entries_in c (xs ++ ys) ≡ entries_in c xs ++ entries_in c ys
  unfolding entries_in
  entries_in-append [] ys = refl
  entries_in-append (l ∷ xs) ys =
      ap (add_parsed (c.parse l)) (entries_in-append xs ys)
      ∙ add_parsed-append (c.parse l) (entries_in c xs) (entries_in c ys)

  entries_in-one : (l : Text) (a : AuditEntry) → c.parse l ≡ some a → entries_in c (l ∷ []) ≡ a ∷ []
  unfolding entries_in
  entries_in-one l a e = ap (λ o. add_parsed o []) e

  -- What the codec does for this entry: it is printed on one line, read back from it, and encoded so
  -- that it is decoded again.
  pub record IsReadBack (a : AuditEntry) : Type 0 where
    pub one_line : splitlines (c.print a ++ 10 ∷ []) ≡ c.print a ∷ []
    pub parsed : c.parse (c.print a) ≡ some a
    pub decoded : c.decode (c.encode (c.print a ++ 10 ∷ [])) ≡ c.print a ++ 10 ∷ []

  module _ (utf8 : IsUtf8 c.decode) where
    lines-appended :
        (log : Option Bytes) (a : AuditEntry)
        → EndsLine log
        → IsReadBack a
        → (before : List Text) × (splitlines
              (c.decode (bytes_of log ++ c.encode (c.print a ++ 10 ∷ [])))
            ≡ before ++ c.print a ∷ [])
    lines-appended none a h r = ([], ap splitlines r.decoded ∙ r.one_line)
    lines-appended (some bytes) a (inl empty) r = (
      [],
      ap (λ b. splitlines (c.decode (b ++ c.encode (c.print a ++ 10 ∷ [])))) empty
          ∙ (ap splitlines r.decoded ∙ r.one_line),
    )
    lines-appended (some bytes) a (inr (x, ends)) r =
        let line = c.encode (c.print a ++ 10 ∷ []) in
        let (before, split) = splitlines-append (c.decode x) (c.print a ++ 10 ∷ []) in
        (
          before,
          ap (λ b. splitlines (c.decode b))
                (ap (λ b. b ++ line) ends ∙ append_assoc x (10 ∷ []) line)
              ∙ (ap splitlines (utf8.newline x line ∙ ap (λ t. c.decode x ++ 10 ∷ t) r.decoded)
                  ∙ (split ∙ ap (λ ls. before ++ ls) r.one_line)),
        )

    -- What `record` has appended is the newest entry that `tail` shows, whatever the limit, whether the
    -- log was rotated or not, if the log ended with a line, nothing failed, and the entry, as the codec
    -- prints it, is one line of `splitlines` that is decoded and parsed back to it.
    pub tail-append_entry :
        (max_bytes now max_tail limit : ℕ) (f : Faults) (call : AuditEntry) (files : LogFiles)
        → f.append ≡ appended
        → EndsLine files.log
        → IsReadBack (make_entry now call)
        → (older : List AuditEntry) × (tail c max_tail limit
              (append_entry c max_bytes f now call files).1.log
            ≡ some (make_entry now call ∷ older))
    unfolding append_entry append_line
    tail-append_entry max_bytes now max_tail limit f call files works ends back =
        let a = make_entry now call in
        let kept = rotate_if_needed max_bytes f files in
        let bytes = bytes_of kept.log ++ c.encode (c.print a ++ 10 ∷ []) in
        let (before, lines) =
          lines-appended kept.log a (rotate-EndsLine max_bytes f files ends) back in
        let (shown, last) =
          last_of-snoc (clamp c max_tail limit) before (c.print a)
            (clamp_positive limit max_tail) in
        (
          reverse (entries_in c shown),
          ap (λ o. tail c max_tail limit (append_line o (c.encode (c.print a ++ 10 ∷ [])) kept).log)
                works
              ∙ (tail_lem c utf8 max_tail limit bytes
                  ∙ (ap (λ es. some (reverse es))
                        (ap (λ ls. entries_in c (last_of (clamp c max_tail limit) ls)) lines
                          ∙ (ap (entries_in c) last
                              ∙ (entries_in-append shown (c.print a ∷ [])
                                  ∙ ap (λ es. entries_in c shown ++ es)
                                      (entries_in-one (c.print a) a back.parsed))))
                      ∙ ap some (reverse-append (entries_in c shown) (a ∷ [])))),
        )
