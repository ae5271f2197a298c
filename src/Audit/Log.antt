-- ===== src/Audit/Log.antt =====
-- `AuditLog` of backend/ktnmgr/services/audit.py: `record` with the rotation, and `tail`. A file is the
-- list of its bytes. Permissions are left out.
use ktn_enclosure_manager.Common.{
  ℕ, zero, suc, ◌-◌, ◌*◌, Bool, ◌||◌, Option, none, some, List, [], ◌∷◌, ◌++◌, length, take, drop,
  leb, ltb, if◌then◌else◌, ◌==◌, nat_eq,
}
use ktn_enclosure_manager.Common.Text.{Text, splitlines}
use mathlib.Core.List.{reverse}
use ktn_enclosure_manager.Audit.Entry.{AuditEntry, make_entry}

abbrev pub Bytes : Type 0
Bytes = List ℕ

-- The log and its previous generation; `none` is no file.
pub record LogFiles : Type 0 where
  pub log : Option Bytes
  pub older : Option Bytes

-- How the file system answers: an `OSError` of `exists`, `stat` or `replace`; and the append, which
-- may fail with a part of the line written.
pub data Append : Type 0 where
  appended not_opened : Append
  torn : ℕ → Append

pub record Faults : Type 0 where
  pub rotation_fails : Bool
  pub append : Append

-- `model_dump_json` and `model_validate_json` of an entry, and UTF-8 with `errors="replace"`.
pub record Codec : Type 0 where
  pub print : AuditEntry → Text
  pub parse : Text → Option AuditEntry
  pub encode : Text → Bytes
  pub decode : Bytes → Text

abbrev pub bytes_of : Option Bytes → Bytes
bytes_of none = []
bytes_of (some b) = b

-- The rotation of a log that can be rotated.
unfoldable pub rotated : ℕ → Option Bytes → Option Bytes → LogFiles
rotated max_bytes none older = record { log = none; older = older }
rotated max_bytes (some bytes) older =
    if leb max_bytes (length bytes)
    then record { log = none; older = some bytes }
    else record { log = some bytes; older = older }

-- `_rotate_if_needed`
unfoldable pub rotate_if_needed : ℕ → Faults → LogFiles → LogFiles
unfolding rotated
rotate_if_needed max_bytes f files =
    if f.rotation_fails then files else rotated max_bytes files.log files.older

unfoldable pub append_line : Append → Bytes → LogFiles → LogFiles
append_line appended line files = record files { log = some (bytes_of files.log ++ line) }
append_line not_opened line files = files
append_line (torn n) line files = record files { log = some (bytes_of files.log ++ take n line) }

-- `_ASSUMED_ENTRY_BYTES` and `_TAIL_CHUNK_BYTES`
abbrev pub assumed_entry_bytes : ℕ
assumed_entry_bytes = 512

abbrev pub tail_chunk_bytes : ℕ
tail_chunk_bytes = 65536

abbrev pub at_least : ℕ → ℕ → ℕ
at_least a b = if leb a b then b else a

abbrev pub at_most : ℕ → ℕ → ℕ
at_most a b = if leb a b then a else b

-- `chunk.count(b"\n")`
unfoldable pub newlines : Bytes → ℕ
newlines [] = 0
newlines (c ∷ s) = if c == 10 then suc (newlines s) else newlines s

-- The loop of `_read_tail_bytes`; `none` is no fuel left.
unfoldable pub read_window : ℕ → ℕ → Bytes → ℕ → Option Bytes
unfolding newlines
read_window zero limit bytes window = none
read_window (suc fuel) limit bytes window =
    let rest = read_window fuel limit bytes (at_most (length bytes) (window * 2)) in
    if leb (length bytes) window || ltb limit (newlines (drop (length bytes - window) bytes))
    then some (drop (length bytes - window) bytes)
    else rest

-- `_read_tail_bytes`: the window grows at every round, so the size of the file is fuel enough.
unfoldable pub read_tail_bytes : ℕ → Bytes → Option Bytes
unfolding read_window
read_tail_bytes limit bytes =
    read_window (suc (length bytes)) limit bytes
      (at_most (length bytes) (at_least tail_chunk_bytes (limit * assumed_entry_bytes)))

-- `xs[-n:]` for a positive `n`
abbrev pub last_of {ℓ} : {A : Type ℓ} → ℕ → List A → List A
last_of n xs = drop (length xs - n) xs

abbrev pub add_parsed : Option AuditEntry → List AuditEntry → List AuditEntry
add_parsed none es = es
add_parsed (some e) es = e ∷ es

module _ (c : Codec) where
  -- `record`, at the time `now`.
  unfoldable pub append_entry : ℕ → Faults → ℕ → AuditEntry → LogFiles → AuditEntry × LogFiles
  unfolding make_entry rotate_if_needed append_line
  append_entry max_bytes f now call files =
      let entry = make_entry now call in
      (
        entry,
        append_line f.append (c.encode (c.print entry ++ 10 ∷ []))
            (rotate_if_needed max_bytes f files),
      )

  -- The lines that are no entry are passed over.
  unfoldable pub entries_in : List Text → List AuditEntry
  entries_in [] = []
  entries_in (l ∷ ls) = add_parsed (c.parse l) (entries_in ls)

  abbrev pub clamp : ℕ → ℕ → ℕ
  clamp max_tail limit = at_least 1 (at_most limit max_tail)

  abbrev pub entries_of : ℕ → Option Bytes → Option (List AuditEntry)
  entries_of limit none = none
  entries_of limit (some chunk) =
      some (reverse (entries_in (last_of limit (splitlines (c.decode chunk)))))

  -- `tail`: a file that cannot be opened has no entries.
  unfoldable pub tail : ℕ → ℕ → Option Bytes → Option (List AuditEntry)
  unfolding read_tail_bytes entries_in splitlines
  tail max_tail limit none = some []
  tail max_tail limit (some bytes) =
      entries_of (clamp max_tail limit) (read_tail_bytes (clamp max_tail limit) bytes)
