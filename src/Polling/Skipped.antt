-- ===== src/Polling/Skipped.antt =====
-- Enclosures that a round of `poll_chassis` of backend/ktnmgr/services/state.py does not read while it
-- reads another.
use ktn_enclosure_manager.Common.{
  true, false, Option, none, some, List, [], ◌∷◌, ◌≡◌, refl, ◌⊎◌, inl, inr, ◌∙◌, arith, ◌==◌,
  nat_eq, list_eq, Bool-cases,
}
use ktn_enclosure_manager.Common.Dict.{Dict, get, get-put, get-pop}
use ktn_enclosure_manager.Common.Text.{Text, codes}
use ktn_enclosure_manager.Locate.Plan.{is_absent}
use ktn_enclosure_manager.Ses.Join.{ChassisTelemetry}
use ktn_enclosure_manager.Sysfs.Scan.{EnclosureRef}
use ktn_enclosure_manager.Polling.Addresses.{slot_sas_addresses}
use ktn_enclosure_manager.Polling.Cached.{Clock, succeed, fail}
use ktn_enclosure_manager.Polling.Chassis.{
  Round, page_failed, addresses_read, addresses_failed, telemetry_read, conclude_addresses,
  conclude_join, conclude_configuration, poll_enclosure, poll_enclosures, store_round, first_round,
  poll_chassis, mark_found, mark_one, mark_stale,
}
use ktn_enclosure_manager.Polling.Honest.{Absent}
use ktn_enclosure_manager.Polling.Runner.{Page, output, unread, Runner}
use ktn_enclosure_manager.Polling.Service.{Service}

-- Each enclosure of the list has another id, or has lost its sg node.
abbrev pub Skipped : Text → List EnclosureRef → Type 0
Skipped id [] = Unit
Skipped id (ref ∷ refs) =
    (((ref.logical_id == id) ≡ false) ⊎ (is_absent ref.sg_device ≡ true)) × Skipped id refs

-- What a round has for one enclosure.
abbrev pub Same : Text → Round → Round → Type 0
Same id r t = (get id t.addresses ≡ get id r.addresses) × (get id t.collected ≡ get id r.collected)

mark_found-other :
    (id other error : Text) (o : Option ChassisTelemetry) (d : Dict Text ChassisTelemetry)
    → (other == id) ≡ false
    → get id (mark_found other error o d) ≡ get id d
unfolding mark_found
mark_found-other id other error none d ne = refl
mark_found-other id other error (some t) d ne = get-put other id (mark_stale error t) d ∙ rw ne refl

mark_one-other :
    (id other error : Text) (d : Dict Text ChassisTelemetry)
    → (other == id) ≡ false
    → get id (mark_one other error d) ≡ get id d
unfolding mark_one
mark_one-other id other error d ne = mark_found-other id other error (get other d) d ne

module _ {W : Type 0} (k : Clock W) (runner : Runner W) where
  failed-Same :
      (id error : Text) (r : Round) (ref : EnclosureRef)
      → (ref.logical_id == id) ≡ false
      → Same id r (page_failed ref.logical_id error r)
  unfolding page_failed
  failed-Same id error r ref ne = (
    get-pop ref.logical_id id r.addresses ∙ rw ne refl,
    mark_one-other id ref.logical_id error r.collected ne,
  )

  addresses-Same :
      (id : Text) (r : Round) (ref : EnclosureRef) (cf : Text) (o : Page × W)
      → (ref.logical_id == id) ≡ false
      → Same id r (conclude_addresses k runner ref cf r o).0
  unfolding conclude_addresses addresses_read addresses_failed
  addresses-Same id r ref cf (output page, w) ne =
      (get-put ref.logical_id id (slot_sas_addresses cf page) r.addresses ∙ rw ne refl, refl)
  addresses-Same id r ref cf (unread e, w) ne =
      (get-pop ref.logical_id id r.addresses ∙ rw ne refl, refl)

  join-Same :
      (id : Text) (r : Round) (ref : EnclosureRef) (cf : Text) (o : Page × W)
      → (ref.logical_id == id) ≡ false
      → Same id r (conclude_join k runner ref cf r o).0
  unfolding conclude_join telemetry_read
  join-Same id r ref cf (output page, w) ne =
      let read = telemetry_read k runner ref.logical_id cf page w r in
      let same =
        addresses-Same id read ref cf (runner.read_for ref (codes "additional_element_status") w)
          ne in
      (same.0, same.1 ∙ (get-put ref.logical_id id _ r.collected ∙ rw ne refl))
  join-Same id r ref cf (unread e, w) ne = failed-Same id e r ref ne

  configuration-Same :
      (id : Text) (r : Round) (ref : EnclosureRef) (o : Page × W)
      → (ref.logical_id == id) ≡ false
      → Same id r (conclude_configuration k runner ref r o).0
  unfolding conclude_configuration
  configuration-Same id r ref (output cf, w) ne =
      join-Same id r ref cf (runner.read_for ref (codes "join") w) ne
  configuration-Same id r ref (unread e, w) ne = failed-Same id e r ref ne

  enclosure-Same :
      (id : Text) (r : Round) (ref : EnclosureRef) (w : W)
      → (ref.logical_id == id) ≡ false
      → Same id r (poll_enclosure k runner ref r w).0
  unfolding poll_enclosure
  enclosure-Same id r ref w ne = split (Bool-cases (is_absent ref.sg_device))
    where
      split :
          (is_absent ref.sg_device ≡ true) ⊎ (is_absent ref.sg_device ≡ false)
          → Same id r (poll_enclosure k runner ref r w).0
      split (inl gone) = rw gone (get-pop ref.logical_id id r.addresses ∙ rw ne refl, refl)
      split (inr there) =
          rw there (configuration-Same id r ref (runner.read_for ref (codes "configuration") w) ne)

  skipped-collected :
      (id : Text) (r : Round) (ref : EnclosureRef) (w : W)
      → ((ref.logical_id == id) ≡ false) ⊎ (is_absent ref.sg_device ≡ true)
      → get id (poll_enclosure k runner ref r w).0.collected ≡ get id r.collected
  unfolding poll_enclosure
  skipped-collected id r ref w (inl ne) = (enclosure-Same id r ref w ne).1
  skipped-collected id r ref w (inr gone) = rw gone refl

  round-collected :
      (id : Text) (refs : List EnclosureRef) (r : Round) (w : W)
      → Skipped id refs
      → get id (poll_enclosures k runner refs r w).0.collected ≡ get id r.collected
  unfolding poll_enclosures
  round-collected id [] r w skipped = refl
  round-collected id (ref ∷ refs) r w (here, rest) =
      round-collected id refs _ (poll_enclosure k runner ref r w).1 rest
      ∙ skipped-collected id r ref w here

  round-addresses :
      (id : Text) (refs : List EnclosureRef) (r : Round) (w : W)
      → Absent id refs
      → get id (poll_enclosures k runner refs r w).0.addresses ≡ get id r.addresses
  unfolding poll_enclosures
  round-addresses id [] r w absent = refl
  round-addresses id (ref ∷ refs) r w (here, rest) =
      round-addresses id refs _ (poll_enclosure k runner ref r w).1 rest
      ∙ (enclosure-Same id r ref w here).0

  -- An enclosure that is not attached keeps its addresses through every poll that reads another one.
  pub detached_addresses_kept :
      (id : Text) (s : Service) (w : W)
      → runner.available w ≡ true
      → Absent id s.enclosures.value
      → (poll_enclosures k runner s.enclosures.value (first_round s) w).0.read_any ≡ true
      → get id (poll_chassis k runner s w).0.sas_by_slot ≡ get id s.sas_by_slot
  unfolding poll_chassis store_round
  detached_addresses_kept id s w there absent read =
      ground (arith, round-addresses id s.enclosures.value (first_round s) w absent)

  -- The telemetry of an enclosure that has lost its sg node, or is not attached, is served as it was
  -- after every poll that reads another one: no mark and no error is put on it.
  pub unmarked_telemetry_kept :
      (id : Text) (s : Service) (w : W)
      → runner.available w ≡ true
      → Skipped id s.enclosures.value
      → (poll_enclosures k runner s.enclosures.value (first_round s) w).0.read_any ≡ true
      → get id (poll_chassis k runner s w).0.chassis.value ≡ get id s.chassis.value
  unfolding poll_chassis store_round succeed fail
  unmarked_telemetry_kept id s w there skipped read =
      ground (arith, round-collected id s.enclosures.value (first_round s) w skipped)
