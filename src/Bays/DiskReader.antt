-- ===== src/Bays/DiskReader.antt =====
-- `DiskInfoReader` of backend/ktnmgr/enclosure/disks.py: the cached identity of a device name.
use ktn_enclosure_manager.Common.{
  ℕ, ◌*◌, ◌≡◌, refl, sym, ap, ◌∙◌, Bool, true, false, not, ◌&&◌, ◌||◌, Option, none, some, List, [],
  ◌∷◌, ◌++◌, is_some, if◌then◌else◌, ◌==◌, ==→≡, list_eq, nat_eq, option_eq, Bool-cases,
  Option-cases, inl, inr,
}
use ktn_enclosure_manager.Common.Dict.{Dict, get, put, pop, get-put, get-pop}
use ktn_enclosure_manager.Common.Text.{Text, codes, is_space, strip, lower, starts_with}
use ktn_enclosure_manager.Bays.Model.{DiskIdentity}
use ktn_enclosure_manager.Bays.Compose.{
  Reading, unreadable, identity, no_identity, is_blank, or_empty,
}

-- What the reads of the sysfs attributes give, an empty text being none; `failed` tells an error
-- from an attribute that is not there.
pub record Attributes : Type 0 where
  pub present : Bool
  pub wwid : Option Text
  pub wwid_failed : Bool
  pub serial : Option Text
  pub serial_failed : Bool
  pub vendor : Option Text
  pub model : Option Text
  pub rev : Option Text
  pub sectors : Option ℕ
  pub rotational : Option Bool

abbrev pub Cache : Type 0
Cache = Dict Text (Text × DiskIdentity)

-- `raw.strip().split()[0]`
unfoldable pub first_word : Text → Text
unfolding is_space
first_word [] = []
first_word (c ∷ cs) = let rest = first_word cs in if is_space c then [] else c ∷ rest

abbrev pub skip : Text → Text → Text
skip [] s = s
skip (p ∷ ps) [] = []
skip (p ∷ ps) (c ∷ s) = skip ps s

-- The loop over the prefixes, which ends at the first that fits.
unfoldable pub without_prefix : List Text → Text → Text
unfolding lower starts_with
without_prefix [] v = v
without_prefix (p ∷ ps) v =
    let rest = without_prefix ps v in if starts_with p (lower v) then skip p v else rest

unfoldable pub normalise_wwn : Option Text → Option Text
unfolding first_word without_prefix strip lower
normalise_wwn none = none
normalise_wwn (some raw) =
    let v = lower (
      strip (
        without_prefix (codes "naa." ∷ codes "0x" ∷ codes "eui." ∷ codes "wwn-" ∷ [])
          (first_word (strip raw)))) in
    if v == [] then none else some (codes "0x" ++ v)

unfoldable pub full_model : Option Text → Option Text → Option Text
unfolding starts_with strip
full_model (some vendor) (some model) =
    if starts_with vendor model then some model else some (strip (vendor ++ 32 ∷ model))
full_model _ model = model

unfoldable pub identity_of : Attributes → DiskIdentity
unfolding normalise_wwn full_model
identity_of a = record {
  serial = a.serial;
  wwn = normalise_wwn a.wwid;
  model = full_model a.vendor a.model;
  firmware = a.rev;
  size_bytes = elim a.sectors [ none ↦ none | some n ↦ some (n * 512) ];
  sas_address = none;
  transport = none;
  rotational = a.rotational;
}

-- The end of `read`, when the cache has nothing that can be confirmed.
unfoldable pub read_again : Attributes → Text → Cache → Reading × Cache
unfolding identity_of normalise_wwn put pop
read_again a name cache =
    if not (is_some (normalise_wwn a.wwid))
      && not (is_some a.serial)
      && (a.wwid_failed || a.serial_failed)
    then (unreadable, pop name cache)
    else elim a.wwid [
      | none ↦ (identity false (identity_of a), pop name cache)
      | some w ↦ (identity true (identity_of a), put name (w, identity_of a) cache)
    ]

unfoldable pub read_disk : Attributes → Option Text → Cache → Reading × Cache
unfolding is_blank get pop read_again
read_disk a device cache =
    let name = or_empty device in
    if is_blank device
    then (identity false no_identity, cache)
    else if not a.present
    then (identity false no_identity, pop name cache)
    else elim (get name cache) [
      | none ↦ read_again a name cache
      | some (w, d) ↦ if a.wwid == some w then (identity true d, cache) else read_again a name cache
    ]

-- Every kept identity has the WWN of the wwid that it is kept under.
pub record IsHonest (cache : Cache) : Type 0 where
  pub kept :
      (name w : Text) (d : DiskIdentity)
      → get name cache ≡ some (w, d)
      → d.wwn ≡ normalise_wwn (some w)

-- What a reading says of the WWN, if it says anything.
abbrev pub Shows : Option Text → Reading → Type 0
Shows wwn unreadable = Unit
Shows wwn (identity kept d) = d.wwn ≡ wwn

identity_of-wwn : (a : Attributes) → (identity_of a).wwn ≡ normalise_wwn a.wwid
unfolding identity_of
identity_of-wwn a = refl

silent : Attributes → Bool
silent a =
    not (is_some (normalise_wwn a.wwid))
    && not (is_some a.serial)
    && (a.wwid_failed || a.serial_failed)

read_again-Shows :
    (a : Attributes) (name : Text) (cache : Cache)
    → Shows (normalise_wwn a.wwid) (read_again a name cache).0
unfolding read_again silent
read_again-Shows a name cache = elim (Bool-cases (silent a)) [
  | inl y ↦ rw y tt
  | inr n ↦ elim (Option-cases a.wwid) [
    | inl absent ↦ rw n rw absent (identity_of-wwn a ∙ ap normalise_wwn absent)
    | inr (w, held) ↦ rw n rw held (identity_of-wwn a ∙ ap normalise_wwn held)
  ]
]

-- With a cache that is honest, the reading of a device that is present fails, or shows the WWN of
-- the wwid that the device shows now: it is never the identity of a disk that had the name before.
pub read_disk_confirms :
    (a : Attributes) (device : Option Text) (cache : Cache)
    → is_blank device ≡ false
    → a.present ≡ true
    → IsHonest cache
    → Shows (normalise_wwn a.wwid) (read_disk a device cache).0
unfolding read_disk
read_disk_confirms a device cache named there honest =
    let name : Text = or_empty device in
    elim (Option-cases (get name cache)) [
      | inl fresh ↦ rw named rw there rw fresh (read_again-Shows a name cache)
      | inr ((w, d), held) ↦ elim (Bool-cases (a.wwid == some w)) [
        | inl y ↦
            rw named rw there rw held rw y
              (honest.kept name w d held ∙ ap normalise_wwn (sym (==→≡ a.wwid (some w) y)))
        | inr n ↦ rw named rw there rw held rw n (read_again-Shows a name cache)
      ]
    ]

pop-IsHonest : (name : Text) (cache : Cache) → IsHonest cache → IsHonest (pop name cache)
pop-IsHonest name cache honest = record {
  kept = λ j w d h. elim (Bool-cases (name == j)) [
    | inl y ↦
        let gone : get j (pop name cache) ≡ none = get-pop name j cache ∙ rw y refl in
        absurd (cc (gone, h))
    | inr n ↦ honest.kept j w d (sym (get-pop name j cache ∙ rw n refl) ∙ h)
  ];
}

read_again-IsHonest :
    (a : Attributes) (name : Text) (cache : Cache)
    → IsHonest cache
    → IsHonest (read_again a name cache).1
unfolding read_again silent
read_again-IsHonest a name cache honest = elim (Bool-cases (silent a)) [
  | inl y ↦ rw y (pop-IsHonest name cache honest)
  | inr n ↦ elim (Option-cases a.wwid) [
    | inl absent ↦ rw n rw absent (pop-IsHonest name cache honest)
    | inr (w, held) ↦ rw n rw held (record {
      kept = λ j v d h. elim (Bool-cases (name == j)) [
        | inl y ↦
            let at : some (w, identity_of a) ≡ some (v, d) =
              sym (get-put name j (w, identity_of a) cache ∙ rw y refl) ∙ h in
            let same : identity_of a ≡ d = cc at in
            let key : w ≡ v = cc at in
            ap (λ (x : DiskIdentity). x.wwn) (sym same)
            ∙ identity_of-wwn a
            ∙ ap normalise_wwn (held ∙ ap some key)
        | inr m ↦ honest.kept j v d (sym (get-put name j (w, identity_of a) cache ∙ rw m refl) ∙ h)
      ];
    })
  ]
]

-- Every reading keeps the cache honest.
pub read_disk-IsHonest :
    (a : Attributes) (device : Option Text) (cache : Cache)
    → IsHonest cache
    → IsHonest (read_disk a device cache).1
unfolding read_disk
read_disk-IsHonest a device cache honest =
    let name : Text = or_empty device in
    elim (Bool-cases (is_blank device)) [
      | inl y ↦ rw y honest
      | inr named ↦ elim (Bool-cases a.present) [
        | inr gone ↦ rw named rw gone (pop-IsHonest name cache honest)
        | inl there ↦ elim (Option-cases (get name cache)) [
          | inl fresh ↦ rw named rw there rw fresh (read_again-IsHonest a name cache honest)
          | inr ((w, d), held) ↦ elim (Bool-cases (a.wwid == some w)) [
            | inl y ↦ rw named rw there rw held rw y honest
            | inr n ↦ rw named rw there rw held rw n (read_again-IsHonest a name cache honest)
          ]
        ]
      ]
    ]
