-- ===== src/Ses/Configuration.antt =====
-- `parse_configuration` and `_flush_subenclosure` of backend/ktnmgr/enclosure/ses_parser.py, with
-- `Subenclosure` of backend/ktnmgr/models.py.
use ktn_enclosure_manager.Common.{
  ℕ, Bool, not, ◌||◌, Option, none, some, List, [], ◌∷◌, ◌++◌, any, length, take, is_some,
  if◌then◌else◌, ◌==◌, nat_eq,
}
use ktn_enclosure_manager.Common.Text.{Text, splitlines}
use ktn_enclosure_manager.Locate.Aes.{TypeDescriptor}
use ktn_enclosure_manager.Ses.Lines.{
  subenclosure_line, logical_id_in, vendor_in, type_line, count_line, text_line,
}

pub record Subenclosure : Type 0 where
  pub subenclosure_id : ℕ
  pub vendor : Text
  pub product : Text
  pub revision : Text
  pub logical_id : Option Text

-- The dict `pending`: `vendor`, `product` and `revision` are set together.
pub record PendingFields : Type 0 where
  pub logical_id : Option Text
  pub description : Option (Text × Text × Text)

abbrev pub no_pending : PendingFields
no_pending = record { logical_id = none; description = none }

-- `pending` as a truth value
unfoldable pub is_pending : PendingFields → Bool
is_pending p = is_some p.logical_id || is_some p.description

-- The id, and `pending.get` of each key.
unfoldable pub subenclosure_of : ℕ → PendingFields → Subenclosure
subenclosure_of id p = elim (p.description) [
  | some d ↦ record {
    subenclosure_id = id;
    vendor = d.0;
    product = d.1;
    revision = d.2;
    logical_id = p.logical_id;
  }
  | none ↦ record {
    subenclosure_id = id;
    vendor = [];
    product = [];
    revision = [];
    logical_id = p.logical_id;
  }
]

unfoldable pub flush_subenclosure : List Subenclosure → Option ℕ → PendingFields → List Subenclosure
unfolding is_pending subenclosure_of
flush_subenclosure subs none p = subs
flush_subenclosure subs (some id) p =
    if not (is_pending p) || any (λ (s : Subenclosure). s.subenclosure_id == id) subs
    then subs
    else subs ++ subenclosure_of id p ∷ []

-- `pending[key] = value` where the search has found one
abbrev pub update {ℓ} : {A : Type ℓ} → Option A → Option A → Option A
update old none = old
update old (some a) = some a

-- What a line adds to `pending`, under a current subenclosure.
unfoldable pub note_line : Option ℕ → PendingFields → Text → PendingFields
unfolding logical_id_in vendor_in
note_line none p l = p
note_line (some id) p l = record {
  logical_id = update p.logical_id (logical_id_in l);
  description = update p.description (vendor_in l);
}

-- `count`, which is 0 until it is seen
abbrev pub count_seen : Option ℕ → ℕ
count_seen none = 0
count_seen (some n) = n

abbrev pub see_count : Option ℕ → Text → Option ℕ
see_count (some n) l = some n
see_count none l = count_line l

-- The loop over the lines after a type line: the count and the label.
unfoldable pub look_ahead : Option ℕ → List Text → ℕ × Text
unfolding type_line text_line count_line
look_ahead seen [] = (count_seen seen, [])
look_ahead seen (l ∷ ls) = elim (type_line l) [
  | some _ ↦ (count_seen seen, [])
  | none ↦ elim (text_line l) [
    | some label ↦ (count_seen (see_count seen l), label)
    | none ↦ look_ahead (see_count seen l) ls
  ]
]

pub record Configuration : Type 0 where
  pub subenclosures : List Subenclosure
  pub descriptors : List TypeDescriptor
  pub current_sub : Option ℕ
  pub pending : PendingFields

unfoldable pub descriptor_of : ℕ → Text × ℕ → List Text → TypeDescriptor
unfolding look_ahead
descriptor_of index kind rest = record {
  index = index;
  subenclosure_id = kind.1;
  element_type = kind.0;
  label = (look_ahead none (take 4 rest)).1;
  count = (look_ahead none (take 4 rest)).0;
}

-- The loop's body on the line `l`, where `rest` are the lines after it.
unfoldable pub read_line : Configuration → Text → List Text → Configuration
unfolding flush_subenclosure note_line descriptor_of subenclosure_line type_line
read_line c l rest = elim (subenclosure_line l) [
  | some id ↦ record {
    subenclosures = flush_subenclosure c.subenclosures c.current_sub c.pending;
    descriptors = c.descriptors;
    current_sub = some id;
    pending = no_pending;
  }
  | none ↦
      let noted = note_line c.current_sub c.pending l in
      elim (type_line l) [
        | some kind ↦ record {
          subenclosures = flush_subenclosure c.subenclosures c.current_sub noted;
          descriptors = c.descriptors ++ descriptor_of (length c.descriptors) kind rest ∷ [];
          current_sub = none;
          pending = no_pending;
        }
        | none ↦ record c { pending = noted }
      ]
]

unfoldable pub read_lines : Configuration → List Text → Configuration
unfolding read_line
read_lines c [] = c
read_lines c (l ∷ rest) = read_lines (read_line c l rest) rest

abbrev pub nothing_read : Configuration
nothing_read = record {
  subenclosures = [];
  descriptors = [];
  current_sub = none;
  pending = no_pending;
}

unfoldable pub parse_configuration : Text → List Subenclosure × List TypeDescriptor
unfolding read_lines flush_subenclosure splitlines
parse_configuration text =
    let c = read_lines nothing_read (splitlines text) in
    (flush_subenclosure c.subenclosures c.current_sub c.pending, c.descriptors)
