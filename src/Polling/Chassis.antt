-- ===== src/Polling/Chassis.antt =====
-- `poll_chassis` of backend/ktnmgr/services/state.py, over a SES runner. The
-- dictionary that it collects shares its telemetry with the cache, so marking an entry stale marks it
-- in the cache too: a cycle that fails leaves the collected dictionary behind.
use ktn_enclosure_manager.Common.{
  ℕ, Bool, true, false, not, ◌&&◌, Option, none, some, List, [], ◌∷◌, if◌then◌else◌, nat_eq,
  list_eq,
}
use ktn_enclosure_manager.Common.Dict.{Dict, get, put, pop}
use ktn_enclosure_manager.Common.Text.{Text, codes}
use ktn_enclosure_manager.Bays.Compose.{is_blank, or_empty}
use ktn_enclosure_manager.Locate.Plan.{is_absent}
use ktn_enclosure_manager.Ses.Join.{ChassisTelemetry, build_telemetry}
use ktn_enclosure_manager.Sysfs.Scan.{EnclosureRef}
use ktn_enclosure_manager.Polling.Addresses.{slot_sas_addresses}
use ktn_enclosure_manager.Polling.Cached.{Clock, succeed, fail}
use ktn_enclosure_manager.Polling.Runner.{Page, output, unread, Runner}
use ktn_enclosure_manager.Polling.Service.{Service}

-- The variables of the loop, and `_sas_by_slot`.
pub record Round : Type 0 where
  pub collected : Dict Text ChassisTelemetry
  pub error : Option Text
  pub read_any : Bool
  pub addresses : Dict Text (Dict ℕ Text)

unfoldable pub mark_stale : Text → ChassisTelemetry → ChassisTelemetry
mark_stale error t = record t { stale = true; error = some error }

unfoldable pub mark_found :
    Text → Text → Option ChassisTelemetry → Dict Text ChassisTelemetry → Dict Text ChassisTelemetry
unfolding put mark_stale
mark_found id error none collected = collected
mark_found id error (some t) collected = put id (mark_stale error t) collected

unfoldable pub mark_one : Text → Text → Dict Text ChassisTelemetry → Dict Text ChassisTelemetry
unfolding get mark_found
mark_one id error collected = mark_found id error (get id collected) collected

unfoldable pub mark_all : Text → Dict Text ChassisTelemetry → Dict Text ChassisTelemetry
unfolding mark_stale
mark_all error [] = []
mark_all error ((id, t) ∷ d) = (id, mark_stale error t) ∷ mark_all error d

abbrev pub is_empty : Dict Text ChassisTelemetry → Bool
is_empty [] = true
is_empty (x ∷ d) = false

-- The handler of a `SesError` of the configuration or the joined page.
unfoldable pub page_failed : Text → Text → Round → Round
unfolding mark_one pop
page_failed id error r = record r {
  collected = mark_one id error r.collected;
  error = some error;
  addresses = pop id r.addresses;
}

-- The two handlers of the additional element status page.
unfoldable pub addresses_read : Text → Text → Text → Round → Round
unfolding put slot_sas_addresses
addresses_read id configuration aes r = record r {
  addresses = put id (slot_sas_addresses configuration aes) r.addresses;
}

unfoldable pub addresses_failed : Text → Text → Round → Round
unfolding pop
addresses_failed id error r = record r { error = some error; addresses = pop id r.addresses }

abbrev pub no_reading : Text
no_reading = codes "no enclosure with an sg device to read"

abbrev pub not_installed : Text
not_installed = codes "sg_ses is not installed in this image"

abbrev pub first_round : Service → Round
first_round s = record {
  collected = s.chassis.value;
  error = none;
  read_any = false;
  addresses = s.sas_by_slot;
}

module _ {W : Type 0} (k : Clock W) where
  -- What follows the loop.
  unfoldable pub store_round : Round → Service → W → Service
  unfolding succeed fail mark_all is_blank
  store_round r s w =
      if not (is_blank r.error) && is_empty r.collected
      then record s { chassis = fail k w (or_empty r.error) s.chassis; sas_by_slot = r.addresses }
      else if not r.read_any
      then (let error = if is_blank r.error then no_reading else or_empty r.error in
          record s {
            chassis = fail k w error (record s.chassis { value = mark_all error r.collected });
            sas_by_slot = [];
          })
      else (let cache = succeed k w r.collected none s.chassis in
          record s {
            chassis = if is_blank r.error then cache else record cache { last_error = r.error };
            sas_by_slot = r.addresses;
          })

module _ {W : Type 0} (k : Clock W) (runner : Runner W) where
  -- Both pages were read.
  unfoldable pub telemetry_read : Text → Text → Text → W → Round → Round
  unfolding put build_telemetry
  telemetry_read id configuration joined w r = record r {
    collected = put id (build_telemetry id configuration joined (k.utc w)) r.collected;
    read_any = true;
  }

  unfoldable pub conclude_addresses : EnclosureRef → Text → Round → Page × W → Round × W
  unfolding addresses_read addresses_failed
  conclude_addresses ref configuration r (output page, w) =
      (addresses_read ref.logical_id configuration page r, w)
  conclude_addresses ref configuration r (unread e, w) = (addresses_failed ref.logical_id e r, w)

  unfoldable pub conclude_join : EnclosureRef → Text → Round → Page × W → Round × W
  unfolding page_failed telemetry_read conclude_addresses
  conclude_join ref configuration r (output page, w) =
      conclude_addresses ref configuration (telemetry_read ref.logical_id configuration page w r)
        (runner.read_for ref (codes "additional_element_status") w)
  conclude_join ref configuration r (unread e, w) = (page_failed ref.logical_id e r, w)

  unfoldable pub conclude_configuration : EnclosureRef → Round → Page × W → Round × W
  unfolding page_failed conclude_join
  conclude_configuration ref r (output configuration, w) =
      conclude_join ref configuration r (runner.read_for ref (codes "join") w)
  conclude_configuration ref r (unread e, w) = (page_failed ref.logical_id e r, w)

  -- The body of the loop over the enclosures.
  unfoldable pub poll_enclosure : EnclosureRef → Round → W → Round × W
  unfolding pop conclude_configuration
  poll_enclosure ref r w =
      if is_absent ref.sg_device
      then (record r { addresses = pop ref.logical_id r.addresses }, w)
      else conclude_configuration ref r (runner.read_for ref (codes "configuration") w)

  unfoldable pub poll_enclosures : List EnclosureRef → Round → W → Round × W
  unfolding poll_enclosure
  poll_enclosures [] r w = (r, w)
  poll_enclosures (ref ∷ refs) r w =
      let (r', w') = poll_enclosure ref r w in poll_enclosures refs r' w'

  unfoldable pub poll_chassis : Service → W → Service × W
  unfolding poll_enclosures store_round fail
  poll_chassis s w =
      if runner.available w
      then (let (r, w') = poll_enclosures s.enclosures.value (first_round s) w in
          (store_round k r s w', w'))
      else (record s { chassis = fail k w not_installed s.chassis; sas_by_slot = [] }, w)
