-- ===== src/Polling/Tests.antt =====
-- backend/ktnmgr/services/state.py on a shelf with one enclosure. The world is the time, and every
-- call takes one unit of it.
use ktn_enclosure_manager.Common.{
  ℤ, ℕ, suc, ◌+◌, ◌≤◌, true, false, Option, none, some, List, [], ◌∷◌, nat_eq, list_eq, pair_eq,
  int_eq, ◌≡◌, refl, ◌⊎◌, inl, inr, if◌then◌else◌, ◌==◌,
}
use ktn_enclosure_manager.Common.Dict.{Dict, get}
use ktn_enclosure_manager.Common.Text.{Text, codes, join}
use ktn_enclosure_manager.Errors.{ok, raise, Exception, other_exception}
use ktn_enclosure_manager.Bays.Compose.{SlotState, is_blank}
use ktn_enclosure_manager.Bays.DiskReader.{Attributes}
use ktn_enclosure_manager.Correlate.Json.{Value, number, obj, end, field}
use ktn_enclosure_manager.Correlate.Sample.{fitting}
use ktn_enclosure_manager.Correlate.Zfs.{build_zfs_index}
use ktn_enclosure_manager.Ident.State.{Manager}
use ktn_enclosure_manager.Locate.Aes.{AesBlock, array_device_slot, is_misattributed}
use ktn_enclosure_manager.Notify.Notifier as Alerts
use ktn_enclosure_manager.Ses.Join.{ChassisTelemetry}
use ktn_enclosure_manager.Sysfs.Scan.{EnclosureRef}
use ktn_enclosure_manager.Polling.Addresses.{page_addresses}
use ktn_enclosure_manager.Polling.Cached.{Clock, unpolled, due}
use ktn_enclosure_manager.Polling.Chassis.{poll_chassis, poll_enclosures, first_round}
use ktn_enclosure_manager.Polling.Claimed.{page_claims, sole_address, page_addresses_lem}
use ktn_enclosure_manager.Polling.Honest.{Absent, IsRead, poll_chassis_addresses}
use ktn_enclosure_manager.Polling.Kept.{ReadSince, IsApart, poll_hardware_paces}
use ktn_enclosure_manager.Polling.Loop.{Settings, Parts, Pass, hardware_step, loop_pass}
use ktn_enclosure_manager.Polling.Passes.{begin_pass, bad_pool_starves, unconfigured_alerts_always}
use ktn_enclosure_manager.Polling.Remote.{TrueNas, fetched, refused}
use ktn_enclosure_manager.Polling.Runner.{output, unread, Runner}
use ktn_enclosure_manager.Polling.Service.{Service, Shelf, poll_hardware}
use ktn_enclosure_manager.Polling.Skipped.{unmarked_telemetry_kept}

abbrev clock : Clock ℕ
clock = record { monotonic = λ w. w; utc = λ w. w }

abbrev ref_of : Text → Option Text → EnclosureRef
ref_of id sg = record {
  logical_id = id;
  vendor = codes "EMC";
  product = codes "ESES";
  revision = codes "0001";
  scsi_address = codes "1:0:0:0";
  sysfs_path = codes "/sys/class/enclosure/1:0:0:0";
  sg_device = sg;
  bsg_device = none;
  slot_count = 1;
}

abbrev front : EnclosureRef
front = ref_of (codes "50060480aabbcc3e") (some (codes "/dev/sg16"))

abbrev slot : SlotState
slot = record {
  ses_slot = ℤ.pos 4;
  display_bay = ℤ.pos 5;
  status = codes "OK";
  power_status = none;
  locate = false;
  fault = false;
  active = none;
  block_device = none;
  sysfs_path = codes "/sys/class/enclosure/1:0:0:0/4";
}

abbrev shelf : Shelf ℕ
shelf = record {
  discover = λ w. (ok (front ∷ []), suc w);
  read_slots = λ ref w. (ok (slot ∷ []), suc w);
}

abbrev empty_service : Service
empty_service = record {
  enclosures = unpolled [];
  slots = unpolled [];
  zfs = unpolled [];
  remote_disks = unpolled [];
  smart = unpolled [];
  chassis = unpolled [];
  system_info = unpolled (obj end);
  sas_by_slot = [];
  disk_cache = [];
}

abbrev message : Exception → Text
message e = codes "error"

-- A hardware poll that begins at 10 and ends at 12.
abbrev polled : Service
polled = (poll_hardware clock shelf message [] empty_service 10).1.0

polled_runs : poll_hardware clock shelf message [] empty_service 10 ≡ (ok tt, (polled, 12))
unfolding poll_hardware
polled_runs = refl

polled_slots : polled.slots.value ≡ (codes "50060480aabbcc3e", slot ∷ []) ∷ []
unfolding poll_hardware
polled_slots = refl

poll_hardware_paces_example :
    (due 5 polled.slots 16 ≡ true → clock.monotonic 12 + 5 ≤ 16)
    × ReadSince clock shelf [] 10 empty_service polled 12
    × IsApart empty_service polled
poll_hardware_paces_example =
    poll_hardware_paces clock shelf message [] 5 16 empty_service polled 10 12 polled_runs

abbrev block : AesBlock
block = record {
  element_type = array_device_slot;
  subenclosure_id = 0;
  type_index = 1;
  entries =
      record {
        element_index = some 0;
        eiioe = some 0;
        device_slot_number = some 4;
        sas_address = some (codes "0x5000cca0e0000002");
      }
      ∷ [];
  malformed = false;
}

page_addresses_lem_example : get 4 (page_addresses 1 (block ∷ [])) ≡ (
    if is_misattributed (block ∷ [])
    then none
    else sole_address (page_claims 4 1 false (block ∷ [])))
page_addresses_lem_example = page_addresses_lem 1 (block ∷ []) 4

address_test : get 4 (page_addresses 1 (block ∷ [])) ≡ some (codes "0x5000cca0e0000002")
unfolding page_addresses get
address_test = refl

claimed_twice_test : get 4 (page_addresses 1 (block ∷ block ∷ [])) ≡ none
unfolding page_addresses get
claimed_twice_test = refl

abbrev settings : Settings
settings = record { allowlist = []; poll_slots = 1; poll_truenas = 1; poll_smart = 1; poll_ses = 1 }

-- A client whose one pool has a number for its topology.
abbrev bad_pool : Value
bad_pool = obj (field (codes "topology") (number 3) end)

abbrev client : TrueNas ℕ
client = record {
  pools = λ w. (fetched (bad_pool ∷ []), suc w);
  disks = λ w. (fetched [], suc w);
  temperatures = λ w. (fetched [], suc w);
  temperature_alerts = λ names w. (fetched [], suc w);
  system_info = λ w. (refused (codes "denied"), suc w);
  version = λ w. (fetched (codes "25.10"), suc w);
}

abbrev no_attributes : Attributes
no_attributes = record {
  present = false;
  wwid = none;
  wwid_failed = false;
  serial = none;
  serial_failed = false;
  vendor = none;
  model = none;
  rev = none;
  sectors = none;
  rotational = none;
}

abbrev silent : Runner ℕ
silent = record { available = λ w. false; read_for = λ ref name w. (unread (codes "absent"), w) }

abbrev parts_with : Option (TrueNas ℕ) → Parts ℕ
parts_with truenas = record {
  clock = clock;
  shelf = shelf;
  runner = silent;
  fitting = fitting;
  truenas = truenas;
  attributes = λ w name. no_attributes;
  post = λ w bay previous. Alerts.status 200;
  message = message;
}

abbrev manager : Manager
manager = record { records = []; clear_failures = []; last_write = [] }

abbrev config : Alerts.Config
config = record { enabled = true; notify_recovery = true; retry_seconds = 60 }

abbrev begun : Pass ℕ
begun = record {
  service = empty_service;
  notifier = record { last = []; retry_at = []; saves = 0 };
  polled = false;
  alerts = false;
  world = 10;
}

abbrev after_hardware : Pass ℕ
after_hardware = record begun { service = polled; polled = true; world = 12 }

bad_pool_starves_example :
    loop_pass (parts_with (some client)) settings config manager begun
    ≡ (raise other_exception, record after_hardware { world = 14 })
unfolding hardware_step build_zfs_index
bad_pool_starves_example =
    bad_pool_starves (parts_with (some client)) settings config manager begun after_hardware client
      (bad_pool ∷ []) [] 13 14 other_exception refl refl refl refl refl refl

abbrev quiet_pass : Pass ℕ
quiet_pass = (loop_pass (parts_with none) settings config manager begun).1

quiet_pass_runs : loop_pass (parts_with none) settings config manager begun ≡ (ok tt, quiet_pass)
unfolding loop_pass
quiet_pass_runs = refl

quiet_hardware :
    hardware_step (parts_with none) settings (begin_pass begun) ≡ (ok tt, after_hardware)
unfolding hardware_step
quiet_hardware = refl

zfs_due : due 1 after_hardware.service.zfs 12 ≡ true
unfolding due poll_hardware
zfs_due = refl

unconfigured_alerts_always_example :
    (quiet_pass.alerts ≡ true)
    × (quiet_pass.service.zfs ≡ after_hardware.service.zfs)
    × ((later : ℕ) → 12 ≤ later → due 1 quiet_pass.service.zfs later ≡ true)
unconfigured_alerts_always_example =
    unconfigured_alerts_always (parts_with none) settings config manager begun quiet_pass
      after_hardware refl quiet_hardware zfs_due quiet_pass_runs

abbrev lines_of : List Text → Text
lines_of = join (codes "\n")

abbrev cf_text : Text
cf_text = lines_of (
    codes "    Element type: Array device slot, subenclosure id: 0"
    ∷ codes "      number of possible elements: 1"
    ∷ [])

abbrev aes_text : Text
aes_text = lines_of (
    codes "    Element type: Array device slot, subenclosure id: 0 [ti=0]"
    ∷ codes "      Element index: 0  eiioe=0"
    ∷ codes "        device slot number: 4"
    ∷ codes "          SAS address: 0x5000cca0e0000002"
    ∷ [])

abbrev page_at : Text → Text
page_at name =
    if name == codes "configuration" then cf_text else if name == codes "join" then [] else aes_text

abbrev ses : Runner ℕ
ses = record { available = λ w. true; read_for = λ ref name w. (output (page_at name), suc w) }

abbrev attached : Service
attached = record empty_service {
  enclosures = record empty_service.enclosures { value = front ∷ [] };
  sas_by_slot = (codes "5006048000000000", (7, codes "0x5000cca0e0000009") ∷ []) ∷ [];
}

abbrev served_addresses : Dict ℕ Text
served_addresses = (4, codes "0x5000cca0e0000002") ∷ []

served_test :
    get (codes "50060480aabbcc3e") (poll_chassis clock ses attached 20).0.sas_by_slot
    ≡ some served_addresses
unfolding poll_chassis get join is_blank
served_test = refl

poll_chassis_addresses_example :
    IsRead clock ses
      (front ∷ [])
      (first_round attached)
      20
      (codes "50060480aabbcc3e")
      served_addresses
    ⊎ (Absent (codes "50060480aabbcc3e") (front ∷ [])
        × (get (codes "50060480aabbcc3e") attached.sas_by_slot ≡ some served_addresses))
poll_chassis_addresses_example =
    poll_chassis_addresses clock ses (codes "50060480aabbcc3e") served_addresses attached 20
      served_test

abbrev away : Text
away = codes "5006048000000000"

something_read :
    (poll_enclosures clock ses (front ∷ []) (first_round attached) 20).0.read_any ≡ true
unfolding poll_enclosures
something_read = refl

-- The second enclosure has lost its sg node; its telemetry is from the time 3.
abbrev lost : EnclosureRef
lost = ref_of away none

abbrev old_telemetry : ChassisTelemetry
old_telemetry = record {
  enclosure_id = away;
  subenclosures = [];
  elements = [];
  overall_flags = none;
  collected_at = 3;
  stale = false;
  error = none;
}

abbrev node_lost : Service
node_lost = record attached {
  enclosures = record attached.enclosures { value = front ∷ lost ∷ [] };
  chassis = record attached.chassis { value = (away, old_telemetry) ∷ [] };
}

other_read :
    (poll_enclosures clock ses (front ∷ lost ∷ []) (first_round node_lost) 20).0.read_any ≡ true
unfolding poll_enclosures
other_read = refl

unmarked_telemetry_kept_example :
    get away (poll_chassis clock ses node_lost 20).0.chassis.value
    ≡ get away node_lost.chassis.value
unmarked_telemetry_kept_example =
    unmarked_telemetry_kept clock ses away node_lost 20 refl (inl refl, (inr refl, tt)) other_read
