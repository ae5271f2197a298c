-- ===== src/Correlate/Smart.antt =====
-- `build_smart_index` of backend/ktnmgr/truenas/correlate.py.
use ktn_enclosure_manager.Common.{
  ℕ, true, false, not, ◌&&◌, Option, none, some, List, [], ◌∷◌, take, is_some, if◌then◌else◌, ◌==◌,
  nat_eq, list_eq,
}
use ktn_enclosure_manager.Common.Dict.{Dict, get, put}
use ktn_enclosure_manager.Common.Text.{Text, codes}
use ktn_enclosure_manager.Errors.{Outcome, ok, ◌>>=◌}
use ktn_enclosure_manager.Bays.Compose.{no_smart, or_else}
use ktn_enclosure_manager.Bays.Model.{SmartInfo}
use ktn_enclosure_manager.Sysfs.Tree.{last_part}
use ktn_enclosure_manager.Correlate.Json.{
  Value, text, obj, end, get_field, or_value, object_at, Fitting,
}

unfoldable pub reading_of : Option ℕ → SmartInfo
reading_of temperature = record {
  temperature_c = temperature;
  available = is_some temperature;
  over_temperature = false;
  alert = none;
}

unfoldable pub put_readings : Dict Text (Option ℕ) → Dict Text SmartInfo → Dict Text SmartInfo
unfolding reading_of put
put_readings [] index = index
put_readings ((name, t) ∷ rest) index = put_readings rest (put name (reading_of t) index)

unfoldable pub raise_alert : Text → SmartInfo → SmartInfo
raise_alert message entry = record entry {
  over_temperature = true;
  alert = some (take 200 message);
}

-- The record of a disk with no temperature.
abbrev pub unread_info : SmartInfo
unread_info = no_smart

-- An alert that names no device is passed over.
unfoldable pub add_alert : Text × Text → Dict Text SmartInfo → Dict Text SmartInfo
unfolding raise_alert get put
add_alert ([], message) index = index
add_alert (c ∷ name, message) index =
    put (c ∷ name) (raise_alert message (or_else no_smart (get (c ∷ name) index))) index

module _ (p : Fitting) where
  unfoldable pub put_unread : List Value → Dict Text SmartInfo → Outcome (Dict Text SmartInfo)
  unfolding get_field get put
  put_unread [] index = ok index
  put_unread (r ∷ records) index = do
    found ← get_field (codes "name") r
    let name = p.str (or_value found (text []))
    put_unread records (
        if not (name == []) && not (is_some (get name index))
        then put name unread_info index
        else index)

  unfoldable pub name_alert : Text → Value → Outcome (Text × Text)
  unfolding get_field
  name_alert [] alert = ok ([], [])
  name_alert (c ∷ name) alert = do
    formatted ← get_field (codes "formatted") alert
    plain ← get_field (codes "text") alert
    ok (c ∷ name, p.str (or_value (or_value formatted plain) (text (codes "temperature alert"))))

  -- The block device that an alert names, and its text; no name, and it is passed over.
  unfoldable pub read_alert : Value → Outcome (Text × Text)
  unfolding get_field last_part name_alert
  read_alert alert = do
    args ← object_at (codes "args") (or_value alert (obj end))
    device ← get_field (codes "device") args
    name_alert (last_part [] (p.str (or_value device (text [])))) alert

  unfoldable pub put_alerts : List Value → Dict Text SmartInfo → Outcome (Dict Text SmartInfo)
  unfolding read_alert add_alert
  put_alerts [] index = ok index
  put_alerts (a ∷ alerts) index = read_alert a >>= λ r. put_alerts alerts (add_alert r index)

  unfoldable pub build_smart_index :
      Dict Text (Option ℕ) → List Value → List Value → Outcome (Dict Text SmartInfo)
  unfolding put_readings put_unread put_alerts
  build_smart_index temperatures disks alerts = do
    index ← put_unread disks (put_readings temperatures [])
    put_alerts alerts index
