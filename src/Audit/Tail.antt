-- ===== src/Audit/Tail.antt =====
-- `AuditLog.tail` of backend/ktnmgr/services/audit.py against a reading of the whole file.
use ktn_enclosure_manager.Common.{
  ℕ, zero, suc, ◌-◌, ◌*◌, ◌≤◌, ◌<◌, Bool, true, false, ◌||◌, some, List, [], ◌∷◌, ◌++◌, length,
  drop, take, leb, ltb, nat_eq, ◌≡◌, refl, ◌∙◌, ap, sym, arith, Bool-cases, inl, inr, ◌⊎◌,
}
use ktn_enclosure_manager.Common.Text.{Text, splitlines}
use mathlib.Core.List.{reverse, append_assoc}
use ktn_enclosure_manager.Audit.Lines.{
  splitlines-append, newlines-splitlines, last_of-append, newlines-split, take-drop,
}
use ktn_enclosure_manager.Audit.Log.{
  Bytes, Codec, newlines, read_window, read_tail_bytes, at_least, at_most, last_of, entries_in,
  clamp, entries_of, tail,
}

-- A newline byte is a newline of the text, wherever it stands: what UTF-8 with replacement does.
pub record IsUtf8 (decode : Bytes → Text) : Type 0 where
  pub newline : (x y : Bytes) → decode (x ++ 10 ∷ y) ≡ decode x ++ 10 ∷ decode y
  pub count : (x : Bytes) → newlines (decode x) ≡ newlines x

-- The chunk is the end of the file, and the whole of it or more than `limit` newlines.
pub record IsEnd (limit : ℕ) (bytes chunk : Bytes) : Type 0 where
  pub skipped : Bytes
  pub whole : skipped ++ chunk ≡ bytes
  pub enough : (skipped ≡ []) ⊎ (limit < newlines chunk)

take-nothing : {A : Type 0} (k : ℕ) (xs : List A) → k ≡ 0 → take k xs ≡ []
take-nothing k [] h = refl
take-nothing zero (x ∷ xs) h = refl
take-nothing (suc k) (x ∷ xs) h = absurd (omega (arith, h))

window-IsEnd :
    (limit : ℕ) (bytes : Bytes) (window : ℕ)
    → (leb (length bytes) window || ltb limit (newlines (drop (length bytes - window) bytes)))
      ≡ true
    → IsEnd limit bytes (drop (length bytes - window) bytes)
window-IsEnd limit bytes window h = record {
  skipped = take (length bytes - window) bytes;
  whole = take-drop (length bytes - window) bytes;
  enough = elim (Bool-cases (leb (length bytes) window)) [
    | inl all ↦ inl (take-nothing (length bytes - window) bytes (ground (arith, all)))
    | inr part ↦ inr (ground (arith, part, h))
  ];
}

not_whole : (size window : ℕ) (b : Bool) → (leb size window || b) ≡ false → window < size
not_whole size window b h = ground (arith, h)

next_measure :
    (size window fuel : ℕ)
    → window < size
    → size - window < suc fuel
    → (1 ≤ window) ⊎ (size ≡ 0)
    → size - at_most size (window * 2) < fuel
next_measure size window fuel part h (inl some_bytes) = ground (arith, part, h, some_bytes)
next_measure size window fuel part h (inr empty) = absurd (omega (arith, part, empty))

next_grows :
    (size window : ℕ) → (1 ≤ window) ⊎ (size ≡ 0) → (1 ≤ at_most size (window * 2)) ⊎ (size ≡ 0)
next_grows zero window grows = inr refl
next_grows (suc size) window (inl some_bytes) = inl (ground (arith, some_bytes))
next_grows (suc size) window (inr empty) = absurd (omega (arith, empty))

-- The loop ends: at every round the window grows or the file is read whole.
read_window-IsEnd :
    (fuel limit : ℕ) (bytes : Bytes) (window : ℕ)
    → length bytes - window < fuel
    → (1 ≤ window) ⊎ (length bytes ≡ 0)
    → (chunk : Bytes) × (read_window fuel limit bytes window ≡ some chunk) × IsEnd limit bytes chunk
unfolding read_window
read_window-IsEnd zero limit bytes window h grows = absurd (omega (arith, h))
read_window-IsEnd (suc fuel) limit bytes window h grows =
    elim (Bool-cases
      (leb (length bytes) window || ltb limit (newlines (drop (length bytes - window) bytes)))) [
        | inl done ↦
            (drop (length bytes - window) bytes, rw done refl, window-IsEnd limit bytes window done)
        | inr more ↦
            let (chunk, ran, is_end) =
              read_window-IsEnd fuel limit bytes (at_most (length bytes) (window * 2))
                (next_measure (length bytes) window fuel (not_whole (length bytes) window _ more) h
                  grows)
                (next_grows (length bytes) window grows) in
            (chunk, rw more ran, is_end)
      ]

first_window : (size limit : ℕ) → (1 ≤ at_most size (at_least 65536 (limit * 512))) ⊎ (size ≡ 0)
first_window zero limit = inr refl
first_window (suc size) limit = inl (ground arith)

-- `_read_tail_bytes` returns.
read_tail_bytes-IsEnd :
    (limit : ℕ) (bytes : Bytes)
    → (chunk : Bytes) × (read_tail_bytes limit bytes ≡ some chunk) × IsEnd limit bytes chunk
unfolding read_tail_bytes
read_tail_bytes-IsEnd limit bytes =
    read_window-IsEnd (suc (length bytes)) limit bytes _ (omega arith)
      (first_window (length bytes) limit)

module _ (c : Codec) (utf8 : IsUtf8 c.decode) where
  -- The last lines of an end of the file that has more newlines than lines are wanted.
  last_of-enough :
      (limit : ℕ) (skipped chunk : Bytes)
      → limit < newlines chunk
      → last_of limit (splitlines (c.decode chunk))
        ≡ last_of limit (splitlines (c.decode (skipped ++ chunk)))
  last_of-enough limit skipped chunk h =
      let (x, y, e, n) = newlines-split chunk (omega (arith, h)) in
      let lines : limit ≤ length (splitlines (c.decode y)) =
        omega (arith, newlines-splitlines (c.decode y), utf8.count y, n, h) in
      let (before, split) = splitlines-append (c.decode x) (c.decode y) in
      let (before', split') = splitlines-append (c.decode (skipped ++ x)) (c.decode y) in
      ap (λ t. last_of limit (splitlines (c.decode t))) e
      ∙ (ap (λ t. last_of limit (splitlines t)) (utf8.newline x y)
          ∙ (ap (last_of limit) split
              ∙ (last_of-append limit before (splitlines (c.decode y)) lines
                  ∙ sym (
                      ap (λ t. last_of limit (splitlines (c.decode t)))
                        (ap (λ t. skipped ++ t) e ∙ sym (append_assoc skipped x (10 ∷ y)))
                      ∙ (ap (λ t. last_of limit (splitlines t)) (utf8.newline (skipped ++ x) y)
                          ∙ (ap (last_of limit) split'
                              ∙ last_of-append limit before' (splitlines (c.decode y)) lines))))))

  last_of-IsEnd :
      (limit : ℕ) (bytes chunk : Bytes)
      → IsEnd limit bytes chunk
      → last_of limit (splitlines (c.decode chunk)) ≡ last_of limit (splitlines (c.decode bytes))
  last_of-IsEnd limit bytes chunk i = elim i.enough [
    | inl all ↦
        ap (λ t. last_of limit (splitlines (c.decode t))) (sym (ap (λ s. s ++ chunk) all) ∙ i.whole)
    | inr enough ↦
        last_of-enough limit i.skipped chunk enough
        ∙ ap (λ t. last_of limit (splitlines (c.decode t))) i.whole
  ]

  -- `tail` returns, and its entries are those of the last lines of the whole file, newest first: at
  -- least one line and at most `max_tail`. The window in which it reads never cuts one of them off.
  pub tail_lem :
      (max_tail limit : ℕ) (bytes : Bytes)
      → tail c max_tail limit (some bytes)
        ≡ some (
            reverse (entries_in c (last_of (clamp c max_tail limit) (splitlines (c.decode bytes)))))
  unfolding tail
  tail_lem max_tail limit bytes =
      let (chunk, ran, is_end) = read_tail_bytes-IsEnd (clamp c max_tail limit) bytes in
      ap (entries_of c (clamp c max_tail limit)) ran
      ∙ ap (λ ls. some (reverse (entries_in c ls)))
          (last_of-IsEnd (clamp c max_tail limit) bytes chunk is_end)
