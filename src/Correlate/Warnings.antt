-- ===== src/Correlate/Warnings.antt =====
-- `build_smart_index` of backend/ktnmgr/truenas/correlate.py on the alerts that TrueNAS sends.
use ktn_enclosure_manager.Common.{
  ℕ, Bool, true, false, not, ◌&&◌, is_some, take, Option-cases, Option, none, some, List, [], ◌∷◌,
  ◌++◌, map, if◌then◌else◌, ◌==◌, nat_eq, list_eq, ◌≡◌, refl, ◌∙◌, ap, sym, Bool-cases, inl, inr,
  ==→≡,
}
use ktn_enclosure_manager.Common.Dict.{Dict, get, put, get-put, Once}
use ktn_enclosure_manager.Common.Text.{Text, codes}
use ktn_enclosure_manager.Errors.{ok, ◌>>=◌}
use ktn_enclosure_manager.Bays.Compose.{no_smart, or_else}
use ktn_enclosure_manager.Bays.Model.{SmartInfo}
use ktn_enclosure_manager.Sysfs.Tree.{last_part}
use ktn_enclosure_manager.Correlate.Json.{
  Value, null, text, obj, end, field, field_at, get_field, or_value, Fitting,
}
use ktn_enclosure_manager.Correlate.Smart.{
  reading_of, put_readings, put_unread, raise_alert, unread_info, add_alert, name_alert, read_alert,
  put_alerts, build_smart_index,
}
use ktn_enclosure_manager.Correlate.Topology.{latest}

-- An alert of the class `DiskTemperatureTooHot`: the path of the device, and the text.
pub record Alert : Type 0 where
  pub device : Text
  pub formatted : Text

abbrev pub encode_alert : Alert → Value
encode_alert a = obj (
    field (codes "formatted") (text a.formatted)
      (field (codes "args") (obj (field (codes "device") (text a.device) end)) end))

abbrev pub message_of : Text → Text
message_of [] = codes "temperature alert"
message_of (c ∷ s) = c ∷ s

-- The block devices that the alerts name, each with its text.
abbrev pub named : Text → Text → List (Text × Text)
named [] message = []
named (c ∷ name) message = (c ∷ name, message) ∷ []

abbrev pub warnings : List Alert → List (Text × Text)
warnings [] = []
warnings (a ∷ as_read) = named (last_part [] a.device) (message_of a.formatted) ++ warnings as_read

abbrev degrees : Option SmartInfo → Option ℕ
degrees none = none
degrees (some r) = r.temperature_c

abbrev is_read : Option SmartInfo → Bool
is_read none = false
is_read (some r) = r.available

-- A record with an alert, if there is one: the first 200 characters of its text, over what is known of
-- the temperature.
abbrev pub with_alert : Option Text → Option SmartInfo → Option SmartInfo
with_alert none r = r
with_alert (some message) r = some (record {
  temperature_c = degrees r;
  available = is_read r;
  over_temperature = true;
  alert = some (take 200 message);
})

-- The temperature that was read; one that could not be read is there as not available.
abbrev pub read_out : Option (Option ℕ) → Option SmartInfo
read_out none = none
read_out (some none) =
    some
      (record { temperature_c = none; available = false; over_temperature = false; alert = none })
read_out (some (some t)) =
    some
      (record { temperature_c = some t; available = true; over_temperature = false; alert = none })

-- A record of a disk, by its name.
abbrev pub encode_disk : Text → Value
encode_disk name = obj (field (codes "name") (text name) end)

-- The record of a disk that is among the names, and nothing more is known of it.
abbrev pub listed : Text → List Text → Option SmartInfo
listed k [] = none
listed k (name ∷ names) =
    if not (name == []) && (name == k)
    then some
        (record { temperature_c = none; available = false; over_temperature = false; alert = none })
    else listed k names

abbrev pub or_first : Option SmartInfo → Option SmartInfo → Option SmartInfo
or_first none b = b
or_first (some a) b = some a

with_alert-raise :
    (message : Text) (r : Option SmartInfo)
    → some (raise_alert message (or_else no_smart r)) ≡ with_alert (some message) r
unfolding raise_alert
with_alert-raise message none = refl
with_alert-raise message (some r) = refl

abbrev alerted : Text → Option SmartInfo → List (Text × Text) → Option SmartInfo
alerted k r [] = r
alerted k r ((j, message) ∷ ws) =
    alerted k (if j == k then some (raise_alert message (or_else no_smart r)) else r) ws

alerted-append :
    (k : Text) (r : Option SmartInfo) (xs ys : List (Text × Text))
    → alerted k r (xs ++ ys) ≡ alerted k (alerted k r xs) ys
alerted-append k r [] ys = refl
alerted-append k r ((j, message) ∷ xs) ys =
    alerted-append k (if j == k then some (raise_alert message (or_else no_smart r)) else r) xs ys

-- The last alert stands, whatever alerts were raised before it.
with_alert-twice :
    (message : Text) (o : Option Text) (r : Option SmartInfo)
    → with_alert (some message) (with_alert o r) ≡ with_alert (some message) r
with_alert-twice message none r = refl
with_alert-twice message (some m) r = refl

alerted-latest :
    (k : Text) (o : Option Text) (r : Option SmartInfo) (ws : List (Text × Text))
    → alerted k (with_alert o r) ws ≡ with_alert (latest k o ws) r
alerted-latest k o r [] = refl
alerted-latest k o r ((j, message) ∷ ws) = elim (Bool-cases (j == k)) [
  | inl same ↦ rw same (
      ap (λ c. alerted k c ws)
        (with_alert-raise message (with_alert o r) ∙ with_alert-twice message o r)
      ∙ alerted-latest k (some message) r ws)
  | inr other ↦ rw other (alerted-latest k o r ws)
]

read_out-reading_of : (t : Option ℕ) → read_out (some t) ≡ some (reading_of t)
unfolding reading_of
read_out-reading_of none = refl
read_out-reading_of (some t) = refl

or_first_assoc : (a b c : Option SmartInfo) → or_first (or_first a b) c ≡ or_first a (or_first b c)
or_first_assoc none b c = refl
or_first_assoc (some a) b c = refl

first_none : (o : Option SmartInfo) → o ≡ or_first o none
first_none none = refl
first_none (some a) = refl

first_only : (o : Option SmartInfo) (k : Text) → or_first o (get k []) ≡ o
unfolding get
first_only none k = refl
first_only (some a) k = refl

get-put_readings :
    (k : Text) (ts : Dict Text (Option ℕ)) (index : Dict Text SmartInfo)
    → Once ts
    → get k (put_readings ts index) ≡ or_first (read_out (get k ts)) (get k index)
unfolding put_readings get Once
get-put_readings k [] index h = refl
get-put_readings k ((j, t) ∷ ts) index h =
    get-put_readings k ts (put j (reading_of t) index) h.1
    ∙ (ap (or_first (read_out (get k ts))) (get-put j k (reading_of t) index)
        ∙ elim (Bool-cases (j == k)) [
          | inl same ↦
              rw (same, ← ==→≡ j k same, h.0)
                (ap (λ o. or_first o (get j index)) (sym (read_out-reading_of t)))
          | inr other ↦ rw other refl
        ])

module _ (p : Fitting) where
  or_text-str : (t : Text) → p.str (or_value (text t) (text [])) ≡ t
  or_text-str [] = p.str_text []
  or_text-str (c ∷ t) = p.str_text (c ∷ t)

  message-str :
      (t : Text)
      → p.str (or_value (or_value (text t) null) (text (codes "temperature alert"))) ≡ message_of t
  message-str [] = p.str_text (codes "temperature alert")
  message-str (c ∷ t) = p.str_text (c ∷ t)

  -- The empty name stands for an alert that is passed over.
  abbrev message_at : Text → Text → Text
  message_at [] message = []
  message_at (c ∷ name) message = message

  name_alert-encode :
      (name : Text) (a : Alert)
      → name_alert p name (encode_alert a) ≡ ok (name, message_at name (message_of a.formatted))
  unfolding name_alert get_field field_at
  name_alert-encode [] a = refl
  name_alert-encode (c ∷ name) a = rw (message-str a.formatted) refl

  read_alert-encode :
      (a : Alert)
      → read_alert p (encode_alert a)
        ≡ ok (last_part [] a.device, message_at (last_part [] a.device) (message_of a.formatted))
  unfolding read_alert get_field field_at
  read_alert-encode a =
      ap (λ t. name_alert p (last_part [] t) (encode_alert a)) (or_text-str a.device)
      ∙ name_alert-encode (last_part [] a.device) a

  get-add_alert :
      (k name message : Text) (index : Dict Text SmartInfo)
      → get k (add_alert (name, message_at name message) index)
        ≡ alerted k (get k index) (named name message)
  unfolding add_alert
  get-add_alert k [] message index = refl
  get-add_alert k (c ∷ name) message index =
      get-put (c ∷ name) k (raise_alert message (or_else no_smart (get (c ∷ name) index))) index
      ∙ elim (Bool-cases ((c ∷ name) == k)) [
        | inl same ↦ rw (same, ==→≡ (c ∷ name) k same) refl
        | inr other ↦ rw other refl
      ]

  put_alerts-encode :
      (as_read : List Alert) (index : Dict Text SmartInfo)
      → (after : Dict Text SmartInfo) × (put_alerts p (map encode_alert as_read) index ≡ ok after)
        × ((k : Text) → get k after ≡ alerted k (get k index) (warnings as_read))
  unfolding put_alerts
  put_alerts-encode [] index = (index, refl, λ k. refl)
  put_alerts-encode (a ∷ as_read) index =
      let name = last_part [] a.device in
      let alert : Text × Text = (name, message_at name (message_of a.formatted)) in
      let next = add_alert alert index in
      let (after, ran, read) = put_alerts-encode as_read next in
      (
        after,
        ap (λ o. o >>= λ r. put_alerts p (map encode_alert as_read) (add_alert r index))
              (read_alert-encode a)
            ∙ ran,
        λ k.
            read k
            ∙ (ap (λ c. alerted k c (warnings as_read))
                  (get-add_alert k name (message_of a.formatted) index)
                ∙ sym (
                    alerted-append k (get k index) (named name (message_of a.formatted))
                      (warnings as_read))),
      )

  abbrev one_disk : Text → Dict Text SmartInfo → Dict Text SmartInfo
  one_disk name index =
      if not (name == []) && not (is_some (get name index))
      then put name unread_info index
      else index

  get-one_disk :
      (k name : Text) (index : Dict Text SmartInfo)
      → get k (one_disk name index) ≡ or_first (get k index) (listed k (name ∷ []))
  get-one_disk k [] index = first_none (get k index)
  get-one_disk k (c ∷ name) index = elim (Option-cases (get (c ∷ name) index)) [
    | inr (r, known) ↦ rw known (elim (Bool-cases ((c ∷ name) == k)) [
      | inl same ↦
          let at : get k index ≡ some r =
            ap (λ j. get j index) (sym (==→≡ (c ∷ name) k same)) ∙ known in
          at ∙ sym (ap (λ o. or_first o (listed k ((c ∷ name) ∷ []))) at)
      | inr other ↦ rw other (first_none (get k index))
    ])
    | inl fresh ↦ rw fresh (
        get-put (c ∷ name) k unread_info index ∙ elim (Bool-cases ((c ∷ name) == k)) [
          | inl same ↦
              let at : get k index ≡ none =
                ap (λ j. get j index) (sym (==→≡ (c ∷ name) k same)) ∙ fresh in
              rw (same, at) refl
          | inr other ↦ rw other (first_none (get k index))
        ])
  ]

  -- The record of a disk with a name, as the loop reads it.
  put_unread-one :
      (name : Text) (names : List Text) (index : Dict Text SmartInfo)
      → put_unread p (map encode_disk (name ∷ names)) index
        ≡ put_unread p (map encode_disk names) (one_disk name index)
  unfolding put_unread get_field field_at
  put_unread-one name names index = rw (or_text-str name) refl

  listed-cons :
      (k name : Text) (names : List Text)
      → listed k (name ∷ names) ≡ or_first (listed k (name ∷ [])) (listed k names)
  listed-cons k name names = elim (Bool-cases (not (name == []) && (name == k))) [
    | inl named ↦ rw named refl
    | inr other ↦ rw other refl
  ]

  put_unread-encode :
      (names : List Text) (index : Dict Text SmartInfo)
      → (after : Dict Text SmartInfo) × (put_unread p (map encode_disk names) index ≡ ok after)
        × ((k : Text) → get k after ≡ or_first (get k index) (listed k names))
  unfolding put_unread
  put_unread-encode [] index = (index, refl, λ k. first_none (get k index))
  put_unread-encode (name ∷ names) index =
      let (after, ran, read) = put_unread-encode names (one_disk name index) in
      (
        after,
        put_unread-one name names index ∙ ran,
        λ k.
            read k
            ∙ (ap (λ o. or_first o (listed k names)) (get-one_disk k name index)
                ∙ (or_first_assoc (get k index) (listed k (name ∷ [])) (listed k names)
                    ∙ ap (or_first (get k index)) (sym (listed-cons k name names)))),
      )

  -- On temperatures, records of disks with a name, and alerts as TrueNAS describes them,
  -- `build_smart_index` returns, and the index has exactly the disks with a temperature record, among the
  -- names, or with an alert: a temperature that was read is there as available, one that could not be
  -- read or is missing as not available; a disk is over temperature if and only if an alert names it,
  -- and it carries the first 200 characters of the last one.
  pub build_smart_index_lem :
      (ts : Dict Text (Option ℕ)) (names : List Text) (as_read : List Alert)
      → Once ts
      → (index : Dict Text SmartInfo) × (build_smart_index p ts
            (map encode_disk names)
            (map encode_alert as_read)
          ≡ ok index)
        × ((k : Text)
            → get k index
              ≡ with_alert
                  (latest k none (warnings as_read))
                  (or_first (read_out (get k ts)) (listed k names)))
  unfolding build_smart_index
  build_smart_index_lem ts names as_read once =
      let (unread, listing, found) = put_unread-encode names (put_readings ts []) in
      let (index, ran, read) = put_alerts-encode as_read unread in
      (
        index,
        ap (λ o. o >>= put_alerts p (map encode_alert as_read)) listing ∙ ran,
        λ k.
            read k
            ∙ (ap (λ c. alerted k c (warnings as_read))
                  (found k
                    ∙ ap (λ o. or_first o (listed k names))
                        (get-put_readings k ts [] once ∙ first_only (read_out (get k ts)) k))
                ∙ alerted-latest k none (or_first (read_out (get k ts)) (listed k names))
                    (warnings as_read)),
      )
