-- ===== src/Polling/Loop.antt =====
-- One pass of `_loop` of backend/ktnmgr/services/state.py, and `start`. An exception ends the pass: it
-- is logged, and the next pass begins after a sleep.
use ktn_enclosure_manager.Common.{
  ℕ, Bool, true, false, ◌||◌, Option, List, [], ◌∷◌, if◌then◌else◌, nat_eq, list_eq, pair_eq,
  int_eq,
}
use ktn_enclosure_manager.Common.Dict.{Dict, get, put}
use ktn_enclosure_manager.Common.Text.{Text}
use ktn_enclosure_manager.Errors.{Exception, Outcome, ok, raise}
use ktn_enclosure_manager.Bays.Compose.{SlotState, or_else}
use ktn_enclosure_manager.Bays.DiskReader.{Attributes}
use ktn_enclosure_manager.Correlate.Json.{Fitting}
use ktn_enclosure_manager.Ident.Host.{Host, Sys}
use ktn_enclosure_manager.Ident.State.{Key, Manager}
use ktn_enclosure_manager.Ident.Timers.{reconcile}
use ktn_enclosure_manager.Notify.Notifier as Alerts
use ktn_enclosure_manager.Sysfs.Scan.{EnclosureRef}
use ktn_enclosure_manager.Polling.Runner.{Runner}
use ktn_enclosure_manager.Polling.Cached.{Clock, due}
use ktn_enclosure_manager.Polling.Chassis.{poll_chassis}
use ktn_enclosure_manager.Polling.Composition.{notify_health_changes}
use ktn_enclosure_manager.Polling.Remote.{TrueNas, poll_truenas, poll_smart, poll_system_info}
use ktn_enclosure_manager.Polling.Service.{Service, Shelf, poll_hardware}

-- `Settings`, the intervals in milliseconds.
pub record Settings : Type 0 where
  pub allowlist : List Text
  pub poll_slots : ℕ
  pub poll_truenas : ℕ
  pub poll_smart : ℕ
  pub poll_ses : ℕ

-- The system information is asked for every 300 seconds.
abbrev pub system_info_interval : ℕ
system_info_interval = 300000

-- What the service is given.
pub record Parts (W : Type 0) : Type 0 where
  pub clock : Clock W
  pub shelf : Shelf W
  pub runner : Runner W
  pub fitting : Fitting
  pub truenas : Option (TrueNas W)
  pub attributes : W → Text → Attributes
  pub post : W → Alerts.Bay → Option Text → Alerts.Response
  pub message : Exception → Text

-- The service and its notifier in their world; `polled` is the variable of the pass, and `alerts`
-- whether the health was looked at.
pub record Pass (W : Type 0) : Type 0 where
  pub service : Service
  pub notifier : Alerts.Notifier
  pub polled : Bool
  pub alerts : Bool
  pub world : W

-- One poll after another: an exception ends the pass.
abbrev pub chain :
    {W : Type 0}
    → Outcome (Unit {0}) × Pass W
    → (Pass W → Outcome (Unit {0}) × Pass W)
    → Outcome (Unit {0}) × Pass W
chain (ok _, s) f = f s
chain (raise e, s) f = (raise e, s)

module _ {W : Type 0} (p : Parts W) (settings : Settings) where
  -- A poll that is due.
  abbrev pub Poll : Type 0
  Poll = Service → W → Outcome (Unit {0}) × (Service × W)

  unfoldable pub run_poll : Bool → Poll → Pass W → Outcome (Unit {0}) × Pass W
  run_poll counts poll s =
      let (o, left) = poll s.service s.world in
      let (s', w) = left in
      elim o [
        | ok _ ↦ (ok tt, record s { service = s'; world = w; polled = s.polled || counts })
        | raise e ↦ (raise e, record s { service = s'; world = w })
      ]

  unfoldable pub run_if : Bool → Bool → Poll → Pass W → Outcome (Unit {0}) × Pass W
  unfolding run_poll
  run_if is_due counts poll s = if is_due then run_poll counts poll s else (ok tt, s)

  abbrev pub chassis_poll : Poll
  chassis_poll s w = (ok tt, poll_chassis p.clock p.runner s w)

  unfoldable pub hardware_step : Pass W → Outcome (Unit {0}) × Pass W
  unfolding due run_if poll_hardware
  hardware_step s =
      run_if (due settings.poll_slots s.service.slots (p.clock.monotonic s.world)) true
        (poll_hardware p.clock p.shelf p.message settings.allowlist) s

  unfoldable pub truenas_step : Pass W → Outcome (Unit {0}) × Pass W
  unfolding due run_if poll_truenas
  truenas_step s =
      run_if (due settings.poll_truenas s.service.zfs (p.clock.monotonic s.world)) true
        (poll_truenas p.clock p.fitting p.truenas) s

  unfoldable pub smart_step : Pass W → Outcome (Unit {0}) × Pass W
  unfolding due run_if poll_smart
  smart_step s =
      run_if (due settings.poll_smart s.service.smart (p.clock.monotonic s.world)) true
        (poll_smart p.clock p.fitting p.truenas) s

  unfoldable pub system_step : Pass W → Outcome (Unit {0}) × Pass W
  unfolding due run_if poll_system_info
  system_step s =
      run_if (due system_info_interval s.service.system_info (p.clock.monotonic s.world)) false
        (poll_system_info p.clock p.fitting p.truenas) s

  unfoldable pub chassis_step : Pass W → Outcome (Unit {0}) × Pass W
  unfolding due run_if poll_chassis
  chassis_step s =
      run_if (due settings.poll_ses s.service.chassis (p.clock.monotonic s.world)) true chassis_poll
        s

  module _ (config : Alerts.Config) (m : Manager) where
    unfoldable pub notify_step : Pass W → Outcome (Unit {0}) × Pass W
    unfolding notify_health_changes
    notify_step s =
        let (service, notifier) =
          notify_health_changes (p.attributes s.world) m config (p.clock.monotonic s.world)
            (p.post s.world) s.service s.notifier in
        if s.polled
        then (ok tt, record s { service = service; notifier = notifier; alerts = true })
        else (ok tt, s)

    -- The `try` block.
    unfoldable pub loop_pass : Pass W → Outcome (Unit {0}) × Pass W
    unfolding hardware_step truenas_step smart_step system_step chassis_step notify_step
    loop_pass s =
        chain
          (chain
            (chain
              (chain
                (chain (hardware_step (record s { polled = false; alerts = false })) truenas_step)
                smart_step)
              system_step)
            chassis_step)
          notify_step

  -- The dictionary that `start` gives to `reconcile`.
  unfoldable pub observe_slots : Text → List SlotState → Dict Key Bool → Dict Key Bool
  unfolding put
  observe_slots id [] d = d
  observe_slots id (slot ∷ slots) d = observe_slots id slots (put (id, slot.ses_slot) slot.locate d)

  unfoldable pub observe :
      List EnclosureRef → Dict Text (List SlotState) → Dict Key Bool → Dict Key Bool
  unfolding observe_slots get
  observe [] slots d = d
  observe (ref ∷ refs) slots d =
      observe refs slots (observe_slots ref.logical_id (or_else [] (get ref.logical_id slots)) d)

  -- `start`, up to the tasks that it creates.
  unfoldable pub start : Host W → Service → Sys W → Outcome (Unit {0}) × (Service × Sys W)
  unfolding poll_hardware observe reconcile
  start h s sys =
      let (o, left) = poll_hardware p.clock p.shelf p.message settings.allowlist s sys.world in
      let (s', w) = left in
      let sys' = record sys { world = w } in
      elim o [
        | raise e ↦ (raise e, (s', sys'))
        | ok _ ↦
            let (o', sys'') = reconcile h (observe s'.enclosures.value s'.slots.value []) sys' in
            (o', (s', sys''))
      ]
