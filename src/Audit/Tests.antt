-- ===== src/Audit/Tests.antt =====
-- backend/ktnmgr/services/audit.py on a log of two lines, with a codec that knows one entry.
use ktn_enclosure_manager.Common.{
  pos, false, none, some, List, [], ◌∷◌, nat_eq, list_eq, ◌==◌, if◌then◌else◌, ◌≡◌, refl, inr,
}
use ktn_enclosure_manager.Common.Text.{codes, splitlines}
use mathlib.Core.List.{reverse}
use ktn_enclosure_manager.Audit.Entry.{AuditEntry, make_entry}
use ktn_enclosure_manager.Audit.Log.{
  Bytes, LogFiles, appended, Faults, Codec, last_of, append_entry, entries_in, clamp, tail,
}
use ktn_enclosure_manager.Audit.Recorded.{IsReadBack, tail-append_entry}
use ktn_enclosure_manager.Audit.Tail.{IsUtf8, tail_lem}

abbrev call : AuditEntry
call = record {
  timestamp = 0;
  user = codes "admin";
  enclosure = codes "50060480aabbcc3e";
  bay = some (pos 5);
  ses_slot = some (pos 4);
  serial = none;
  operation = codes "ident_on";
  previous = some (codes "off");
  result = some (codes "on");
  verification = codes "verified";
  detail = none;
}

abbrev stamped : AuditEntry
stamped = record call { timestamp = 7 }

abbrev codec : Codec
codec = record {
  print = λ e. codes "entry";
  parse = λ t. if t == codes "entry" then some stamped else none;
  encode = λ t. t;
  decode = λ b. b;
}

utf8 : IsUtf8 codec.decode
utf8 = record { newline = λ x y. refl; count = λ x. refl }

abbrev old_log : Bytes
old_log = codes "entry\nbroken\n"

tail_test : tail codec 500 2 (some old_log) ≡ some (stamped ∷ [])
unfolding tail
tail_test = refl

tail_lem_example :
    tail codec 500 2 (some old_log)
    ≡ some (
        reverse
          (entries_in codec (last_of (clamp codec 500 2) (splitlines (codec.decode old_log)))))
tail_lem_example = tail_lem codec utf8 500 2 old_log

abbrev faults : Faults
faults = record { rotation_fails = false; append = appended }

abbrev files : LogFiles
files = record { log = some old_log; older = none }

read_back : IsReadBack codec (make_entry 7 call)
unfolding splitlines make_entry
read_back = record { one_line = refl; parsed = refl; decoded = refl }

-- The log is rotated at 4 bytes, so only the new entry is left in it.
tail-append_entry_example :
    (older : List AuditEntry) × (tail codec 500 100 (append_entry codec 4 faults 7 call files).1.log
      ≡ some (make_entry 7 call ∷ older))
tail-append_entry_example =
    tail-append_entry codec utf8 4 7 500 100 faults call files refl
      (inr (codes "entry\nbroken", refl)) read_back

-- An entry after a line that was torn is joined to it, and is not shown.
torn_test :
    tail codec 500 100
      (append_entry codec 9999 faults 7 call (record files { log = some (codes "ent") })).1.log
    ≡ some []
unfolding tail append_entry
torn_test = refl
