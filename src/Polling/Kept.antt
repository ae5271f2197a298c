-- ===== src/Polling/Kept.antt =====
-- What `poll_hardware` of backend/ktnmgr/services/state.py leaves in the caches, on every path.
use ktn_enclosure_manager.Common.{
  ℕ, ◌+◌, ◌≤◌, true, none, List, [], ◌∷◌, keep, list_eq, nat_eq, ◌≡◌, ◌⊎◌, inl, inr, sym, ap, ◌∙◌,
  subst, arith, Bool-cases,
}
use ktn_enclosure_manager.Common.Dict.{Dict, put}
use ktn_enclosure_manager.Common.Text.{Text}
use ktn_enclosure_manager.Errors.{Exception, Outcome, ok, Outcome-cases, ok-injective}
use ktn_enclosure_manager.Bays.Compose.{SlotState}
use ktn_enclosure_manager.Sysfs.Scan.{EnclosureRef}
use ktn_enclosure_manager.Polling.Cached.{Cached, Clock, due, succeed, fail}
use ktn_enclosure_manager.Polling.Service.{
  Service, Shelf, is_os_error, is_allowed, read_all, store_slots, poll_hardware,
}

-- The shelf's answers for the enclosures, one after the other from the world `w` on, put into the
-- dictionary `d`, give the dictionary `out` and leave the last world.
pub data ReadInTurn {W : Type 0} (shelf : Shelf W)
    : List EnclosureRef
      → Dict Text (List SlotState)
      → W
      → Dict Text (List SlotState)
      → W
      → Type 0 where
  all_read : (d : Dict Text (List SlotState)) (w : W) → ReadInTurn shelf [] d w d w
  one_read :
      (ref : EnclosureRef) (refs : List EnclosureRef) (found : List SlotState)
      (d out : Dict Text (List SlotState)) (w w' after : W)
      → shelf.read_slots ref w ≡ (ok found, w')
      → ReadInTurn shelf refs (put ref.logical_id found d) w' out after
      → ReadInTurn shelf (ref ∷ refs) d w out after

-- The slots of the cache are those of all enclosures that discovery found and the list allows, read in
-- a poll that began in the world `w`; or they are the ones from before, with the time of their reading.
abbrev pub ReadSince :
    {W : Type 0} → Clock W → Shelf W → List Text → W → Service → Service → W → Type 0
ReadSince {W} k shelf allowlist w s t after =
    ((discovered : List EnclosureRef) × (w' : W) × (shelf.discover w ≡ (ok discovered, w'))
      × ReadInTurn shelf (keep (λ (e : EnclosureRef). is_allowed allowlist e.logical_id) discovered)
          [] w' t.slots.value after
      × (t.slots.observed_monotonic ≡ k.monotonic w)
      × (t.slots.last_error ≡ none))
    ⊎ ((t.slots.value ≡ s.slots.value) × (t.slots.observed_monotonic ≡ s.slots.observed_monotonic))

-- What no hardware poll touches.
pub record IsApart (s t : Service) : Type 0 where
  pub zfs : t.zfs ≡ s.zfs
  pub remote_disks : t.remote_disks ≡ s.remote_disks
  pub smart : t.smart ≡ s.smart
  pub chassis : t.chassis ≡ s.chassis
  pub system_info : t.system_info ≡ s.system_info
  pub sas_by_slot : t.sas_by_slot ≡ s.sas_by_slot
  pub disk_cache : t.disk_cache ≡ s.disk_cache

slots-IsApart :
    (s t : Service) {e : Cached (List EnclosureRef)} {c : Cached (Dict Text (List SlotState))}
    → record s { slots = c; enclosures = e } ≡ t
    → IsApart s t
slots-IsApart s t stored = record {
  zfs = ap (λ (u : Service). u.zfs) (sym stored);
  remote_disks = ap (λ (u : Service). u.remote_disks) (sym stored);
  smart = ap (λ (u : Service). u.smart) (sym stored);
  chassis = ap (λ (u : Service). u.chassis) (sym stored);
  system_info = ap (λ (u : Service). u.system_info) (sym stored);
  sas_by_slot = ap (λ (u : Service). u.sas_by_slot) (sym stored);
  disk_cache = ap (λ (u : Service). u.disk_cache) (sym stored);
}

module _ {W : Type 0} (k : Clock W) (shelf : Shelf W) (message : Exception → Text) where
  -- What a poll that returns leaves: the slots were tried at its end, and what else it leaves alone.
  record IsPolled (allowlist : List Text) (w : W) (s t : Service) (w' : W) : Type 0 where
    pub tried : t.slots.stamp ≡ k.monotonic w'
    pub observed : ReadSince k shelf allowlist w s t w'
    pub apart : IsApart s t

  read_all-ReadInTurn :
      (refs : List EnclosureRef) (d out : Dict Text (List SlotState)) (w after : W)
      → read_all k shelf message refs d w ≡ (ok out, after)
      → ReadInTurn shelf refs d w out after
  unfolding read_all
  read_all-ReadInTurn [] d out w after h =
      let same : d ≡ out =
        ok-injective (ap (λ (o : Outcome (Dict Text (List SlotState)) × W). o.0) h) in
      subst (λ (p : Dict Text (List SlotState) × W). ReadInTurn shelf [] d w p.0 p.1)
        (ap (λ x. (x, w)) same
          ∙ ap (λ (o : Outcome (Dict Text (List SlotState)) × W). (out, o.1)) h)
        (all_read d w)
  read_all-ReadInTurn (ref ∷ refs) d out w after h =
      elim (Outcome-cases (shelf.read_slots ref w).0) [
        | inl (found, e) ↦
            one_read ref refs found d out w (shelf.read_slots ref w).1 after
              (ap (λ o. (o, (shelf.read_slots ref w).1)) e)
              (read_all-ReadInTurn refs (put ref.logical_id found d) out (shelf.read_slots ref w).1
                after (rw (e, read_all) at h))
        | inr (x, e) ↦ absurd (cc (rw (e, read_all) at h))
      ]

  -- A slots cache that failed at the end.
  failed-IsPolled :
      (allowlist : List Text) (w : W) (s t : Service) (v w' : W) (error : Text)
      {e : Cached (List EnclosureRef)}
      → ◌≡◌ {A = Outcome (Unit {0}) × (Service × W)}
          (ok tt, (record s { slots = fail k v error s.slots; enclosures = e }, v))
          (ok tt, (t, w'))
      → IsPolled allowlist w s t w'
  unfolding fail
  failed-IsPolled allowlist w s t v w' error h =
      let stored = ap (λ (o : Outcome (Unit {0}) × (Service × W)). o.1.0) h in
      let ended = ap (λ (o : Outcome (Unit {0}) × (Service × W)). o.1.1) h in
      record {
        tried = ap (λ (u : Service). u.slots.stamp) (sym stored) ∙ ap k.monotonic ended;
        observed = inr (
          ap (λ (u : Service). u.slots.value) (sym stored),
          ap (λ (u : Service). u.slots.observed_monotonic) (sym stored),
        );
        apart = slots-IsApart s t stored;
      }

  store_slots-IsPolled :
      (allowlist : List Text) (discovered : List EnclosureRef) (s t : Service) (w w1 w' : W)
      → shelf.discover w ≡ (ok discovered, w1)
      → store_slots k shelf message
          (keep (λ (e : EnclosureRef). is_allowed allowlist e.logical_id) discovered)
          (k.monotonic w)
          s
          w1
        ≡ (ok tt, (t, w'))
      → IsPolled allowlist w s t w'
  unfolding store_slots succeed fail
  store_slots-IsPolled allowlist discovered s t w w1 w' e h =
      let found = keep (λ (e : EnclosureRef). is_allowed allowlist e.logical_id) discovered in
      let read = read_all k shelf message found [] w1 in
      let service = λ (o : Outcome (Unit {0}) × (Service × W)). o.1.0 in
      elim (Outcome-cases read.0) [
        | inl (slots, r) ↦
            let left = rw (r, store_slots) at h in
            let stored = ap service left in
            let ended = ap (λ (o : Outcome (Unit {0}) × (Service × W)). o.1.1) left in
            record {
              tried = ap (λ (u : Service). u.slots.stamp) (sym stored) ∙ ap k.monotonic ended;
              observed = inl (
                discovered,
                w1,
                e,
                subst (λ (p : Dict Text (List SlotState) × W). ReadInTurn shelf found [] w1 p.0 p.1)
                    (ap (λ v. (slots, v)) ended ∙ ap (λ (u : Service). (u.slots.value, w')) stored)
                    (read_all-ReadInTurn found [] slots w1 read.1 (ap (λ o. (o, read.1)) r)),
                ap (λ (u : Service). u.slots.observed_monotonic) (sym stored),
                ap (λ (u : Service). u.slots.last_error) (sym stored),
              );
              apart = slots-IsApart s t stored;
            }
        | inr (x, r) ↦ elim (Bool-cases (is_os_error x)) [
          | inr other ↦ absurd (cc (rw (r, other, store_slots) at h))
          | inl caught ↦
              failed-IsPolled allowlist w s t read.1 w' (message x)
                (rw (r, caught, store_slots) at h)
        ]
      ]

  poll_hardware-IsPolled :
      (allowlist : List Text) (s t : Service) (w w' : W)
      → poll_hardware k shelf message allowlist s w ≡ (ok tt, (t, w'))
      → IsPolled allowlist w s t w'
  unfolding poll_hardware
  poll_hardware-IsPolled allowlist s t w w' h = elim (Outcome-cases (shelf.discover w).0) [
    | inl (discovered, e) ↦
        store_slots-IsPolled allowlist discovered s t w (shelf.discover w).1 w'
          (ap (λ o. (o, (shelf.discover w).1)) e) (rw (e, poll_hardware) at h)
    | inr (x, e) ↦ elim (Bool-cases (is_os_error x)) [
      | inr other ↦ absurd (cc (rw (e, other, poll_hardware) at h))
      | inl caught ↦
          failed-IsPolled allowlist w s t (shelf.discover w).1 w' (message x)
            (rw (e, caught, poll_hardware) at h)
    ]
  ]

  due-IsPolled :
      (allowlist : List Text) {w : W} {s t : Service} {w' : W} (interval now : ℕ)
      → IsPolled allowlist w s t w'
      → due interval t.slots now ≡ true
      → k.monotonic w' + interval ≤ now
  unfolding due
  due-IsPolled allowlist interval now i d = ground (arith, i.tried)

  -- However a hardware poll goes, if it returns then the slots fall due no sooner than the interval
  -- after its end; the cached slots are the ones from before with the time of their reading, or else
  -- those of all enclosures that this poll discovered and the list allows, as the shelf gave them one
  -- after the other, stamped with the beginning of the poll; and every other source's cache, the SAS
  -- addresses and the disk cache are as before.
  pub poll_hardware_paces :
      (allowlist : List Text) (interval now : ℕ) (s t : Service) (w w' : W)
      → poll_hardware k shelf message allowlist s w ≡ (ok tt, (t, w'))
      → (due interval t.slots now ≡ true → k.monotonic w' + interval ≤ now)
        × ReadSince k shelf allowlist w s t w'
        × IsApart s t
  poll_hardware_paces allowlist interval now s t w w' h =
      let i = poll_hardware-IsPolled allowlist s t w w' h in
      (due-IsPolled allowlist interval now i, i.observed, i.apart)
