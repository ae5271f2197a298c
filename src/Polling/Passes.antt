-- ===== src/Polling/Passes.antt =====
-- Passes of the poll loop of backend/ktnmgr/services/state.py.
use ktn_enclosure_manager.Common.{
  ℕ, ◌≤◌, Bool, if◌then◌else◌, List, [], ◌∷◌, map, inl, inr, nat_eq, list_eq, true, false, Option,
  none, some, ◌≡◌, refl, ◌∙◌, sym, ap, arith,
}
use ktn_enclosure_manager.Errors.{Exception, Outcome, ok, raise, Outcome-cases}
use ktn_enclosure_manager.Correlate.Json.{Value, Fitting}
use ktn_enclosure_manager.Correlate.Zfs.{build_zfs_index}
use ktn_enclosure_manager.Ident.State.{Manager}
use ktn_enclosure_manager.Notify.Notifier as Alerts
use ktn_enclosure_manager.Polling.Cached.{Cached, Clock, due}
use ktn_enclosure_manager.Common.Dict.{Dict}
use ktn_enclosure_manager.Bays.Model.{ZfsInfo}
use ktn_enclosure_manager.Polling.Loop.{
  Settings, Parts, Pass, run_poll, run_if, chain, hardware_step, truenas_step, smart_step,
  system_step, chassis_step, notify_step, loop_pass,
}
use ktn_enclosure_manager.Polling.Remote.{
  TrueNas, fetched, poll_truenas, store_pools, poll_smart, poll_system_info,
}
use ktn_enclosure_manager.Polling.Chassis.{poll_chassis, store_round}
use ktn_enclosure_manager.Polling.Runner.{Runner}
use ktn_enclosure_manager.Polling.Composition.{
  enclosure, compose_bays, alert_bay, notify_each, notify_health_changes,
}
use ktn_enclosure_manager.Sysfs.Scan.{EnclosureRef}
use ktn_enclosure_manager.Bays.DiskReader.{Attributes}
use ktn_enclosure_manager.Common.Text.{Text}
use ktn_enclosure_manager.Polling.Service.{Service}

abbrev pub begin_pass : {W : Type 0} → Pass W → Pass W
begin_pass s = record s { polled = false; alerts = false }

poll_truenas-absent :
    {W : Type 0} (k : Clock W) (f : Fitting) (client : Option (TrueNas W)) (s : Service) (w : W)
    → client ≡ none
    → poll_truenas k f client s w ≡ (ok tt, (s, w))
unfolding poll_truenas
poll_truenas-absent k f client s w absent = rw absent refl

poll_truenas-bad :
    {W : Type 0} (k : Clock W) (f : Fitting) (client : Option (TrueNas W)) (c : TrueNas W)
    (ps rs : List Value) (s : Service) (w w' w'' : W) (e : Exception)
    → client ≡ some c
    → c.pools w ≡ (fetched ps, w')
    → c.disks w' ≡ (fetched rs, w'')
    → build_zfs_index f ps ≡ raise e
    → poll_truenas k f client s w ≡ (raise e, (s, w''))
unfolding poll_truenas store_pools
poll_truenas-bad k f client c ps rs s w w' w'' e is_c pools disks bad = ground arith

poll_chassis-zfs :
    {W : Type 0} (k : Clock W) (runner : Runner W) (s : Service) (w : W)
    → (poll_chassis k runner s w).0.zfs ≡ s.zfs
unfolding poll_chassis store_round
poll_chassis-zfs k runner s w = ground arith

either-zfs :
    {N : Type 0} {z : Cached (Dict Text ZfsInfo)} (b : Bool) (x y : Service × N)
    → x.0.zfs ≡ z
    → y.0.zfs ≡ z
    → (if b then x else y).0.zfs ≡ z
either-zfs true x y e f = e
either-zfs false x y e f = f

module _ (attributes : Text → Attributes) (m : Manager) where
  compose_bays-zfs : (id : Text) (s : Service) → (compose_bays attributes m id s).1.zfs ≡ s.zfs
  unfolding compose_bays
  compose_bays-zfs id s = elim (Outcome-cases (enclosure s id)) [
    | inl (ref, e) ↦ rw (e, compose_bays) refl
    | inr (x, e) ↦ rw (e, compose_bays) refl
  ]

  module _ (c : Alerts.Config) (now : ℕ) (post : Alerts.Bay → Option Text → Alerts.Response) where
    notify_each-zfs :
        (refs : List EnclosureRef) (s : Service) (n : Alerts.Notifier)
        → (notify_each attributes m c now post refs s n).0.zfs ≡ s.zfs
    unfolding notify_each
    notify_each-zfs [] s n = refl
    notify_each-zfs (ref ∷ refs) s n =
        elim (Outcome-cases (compose_bays attributes m ref.logical_id s).0) [
          | inl (composed, e) ↦
              rw (e, notify_each)
                (notify_each-zfs refs (compose_bays attributes m ref.logical_id s).1
                    (Alerts.evaluate c now post (map (alert_bay attributes m) composed) n)
                  ∙ compose_bays-zfs ref.logical_id s)
          | inr (x, e) ↦ rw (e, notify_each) (compose_bays-zfs ref.logical_id s)
        ]

    notify_health_changes-zfs :
        (s : Service) (n : Alerts.Notifier)
        → (notify_health_changes attributes m c now post s n).0.zfs ≡ s.zfs
    unfolding notify_health_changes
    notify_health_changes-zfs s n =
        either-zfs c.enabled (notify_each attributes m c now post s.enclosures.value s n) (s, n)
          (notify_each-zfs s.enclosures.value s n) refl

module _ {W : Type 0} (p : Parts W) (settings : Settings) (config : Alerts.Config)
    (m : Manager) where
  pass_of : {s t : Pass W} → ◌≡◌ {A = Outcome (Unit {0}) × Pass W} (ok tt, s) (ok tt, t) → s ≡ t
  pass_of h = ap (λ (r : Outcome (Unit {0}) × Pass W). r.1) h

  polled_of :
      (s u : Pass W)
      → ◌≡◌ {A = Outcome (Unit {0}) × Pass W} (ok tt, s) (ok tt, record u { polled = true })
      → s.polled ≡ true
  polled_of s u h = ap (λ (r : Outcome (Unit {0}) × Pass W). r.1.polled) h

  truenas-ran :
      (s : Pass W)
      → due settings.poll_truenas s.service.zfs (p.clock.monotonic s.world) ≡ true
      → poll_truenas p.clock p.fitting p.truenas s.service s.world ≡ (ok tt, (s.service, s.world))
      → truenas_step p settings s ≡ (ok tt, record s { polled = true })
  unfolding truenas_step run_if run_poll
  truenas-ran s is_due polled = ground arith

  truenas-raised :
      (s : Pass W) (s' : Service) (w : W) (e : Exception)
      → due settings.poll_truenas s.service.zfs (p.clock.monotonic s.world) ≡ true
      → poll_truenas p.clock p.fitting p.truenas s.service s.world ≡ (raise e, (s', w))
      → truenas_step p settings s ≡ (raise e, record s { service = s'; world = w })
  unfolding truenas_step run_if run_poll
  truenas-raised s s' w e is_due polled = ground arith

  -- A pool record that cannot be indexed, for a reason that is neither a TrueNAS error nor an
  -- `OSError`, ends every pass at the TrueNAS poll: the pass raises, the TrueNAS cache is not stamped
  -- and so stays due, and neither the temperatures, the system information, the chassis nor the alerts
  -- are looked at.
  pub bad_pool_starves :
      (s t : Pass W) (c : TrueNas W) (ps rs : List Value) (w w' : W) (e : Exception)
      → hardware_step p settings (begin_pass s) ≡ (ok tt, t)
      → due settings.poll_truenas t.service.zfs (p.clock.monotonic t.world) ≡ true
      → p.truenas ≡ some c
      → c.pools t.world ≡ (fetched ps, w)
      → c.disks w ≡ (fetched rs, w')
      → build_zfs_index p.fitting ps ≡ raise e
      → loop_pass p settings config m s ≡ (raise e, record t { world = w' })
  unfolding loop_pass
  bad_pool_starves s t c ps rs w w' e hardware is_due client pools disks bad =
      let poll =
        poll_truenas-bad p.clock p.fitting p.truenas c ps rs t.service t.world w w' e client pools
          disks bad in
      rw (hardware, truenas-raised t t.service w' e is_due poll) refl

  truenas-absent :
      (s : Pass W)
      → p.truenas ≡ none
      → due settings.poll_truenas s.service.zfs (p.clock.monotonic s.world) ≡ true
      → truenas_step p settings s ≡ (ok tt, record s { polled = true })
  truenas-absent s client is_due =
      truenas-ran s is_due
        (poll_truenas-absent p.clock p.fitting p.truenas s.service s.world client)

  smart-polled :
      (s t : Pass W) → s.polled ≡ true → smart_step p settings s ≡ (ok tt, t) → t.polled ≡ true
  unfolding smart_step run_if run_poll
  smart-polled s t was h = ground arith

  system-polled :
      (s t : Pass W) → s.polled ≡ true → system_step p settings s ≡ (ok tt, t) → t.polled ≡ true
  unfolding system_step run_if run_poll
  system-polled s t was h = ground arith

  chassis-polled :
      (s t : Pass W) → s.polled ≡ true → chassis_step p settings s ≡ (ok tt, t) → t.polled ≡ true
  unfolding chassis_step run_if run_poll
  chassis-polled s t was h = ground arith

  notify-alerts :
      (s t : Pass W)
      → s.polled ≡ true
      → notify_step p settings config m s ≡ (ok tt, t)
      → t.alerts ≡ true
  unfolding notify_step
  notify-alerts s t was h = ground arith

  chain-ok :
      (o : Outcome (Unit {0}) × Pass W) (f : Pass W → Outcome (Unit {0}) × Pass W) (t : Pass W)
      → chain o f ≡ (ok tt, t)
      → (s : Pass W) × (o ≡ (ok tt, s)) × (f s ≡ (ok tt, t))
  chain-ok (ok done, s) f t h = (s, refl, h)
  chain-ok (raise e, s) f t h = cc

  smart-absent :
      (s t : Pass W)
      → p.truenas ≡ none
      → smart_step p settings s ≡ (ok tt, t)
      → t.service.zfs ≡ s.service.zfs
  unfolding smart_step run_if run_poll poll_smart
  smart-absent s t absent h = ground (arith, absent)

  system-absent :
      (s t : Pass W)
      → p.truenas ≡ none
      → system_step p settings s ≡ (ok tt, t)
      → t.service.zfs ≡ s.service.zfs
  unfolding system_step run_if run_poll poll_system_info
  system-absent s t absent h = ground (arith, absent)

  chassis-zfs :
      (s t : Pass W) → chassis_step p settings s ≡ (ok tt, t) → t.service.zfs ≡ s.service.zfs
  unfolding chassis_step run_if run_poll
  chassis-zfs s t h = ground (arith, poll_chassis-zfs p.clock p.runner s.service s.world)

  notify-zfs :
      (s t : Pass W)
      → notify_step p settings config m s ≡ (ok tt, t)
      → t.service.zfs ≡ s.service.zfs
  unfolding notify_step
  notify-zfs s t h = ground (
    arith,
    notify_health_changes-zfs (p.attributes s.world) m config (p.clock.monotonic s.world)
        (p.post s.world) s.service s.notifier,
  )

  due_later :
      (interval now later : ℕ) (s t : Service)
      → t.zfs ≡ s.zfs
      → due interval s.zfs now ≡ true
      → now ≤ later
      → due interval t.zfs later ≡ true
  unfolding due
  due_later interval now later s t same is_due le = rw same (ground (arith, is_due, le))

  -- Without a TrueNAS client, once the interval of the TrueNAS poll has passed after the start: a pass
  -- that does not raise looks at the alerts, and it leaves the TrueNAS cache as it was, without a stamp,
  -- so that the poll is due at every later time too, however little time has gone by.
  pub unconfigured_alerts_always :
      (s t u : Pass W)
      → p.truenas ≡ none
      → hardware_step p settings (begin_pass s) ≡ (ok tt, u)
      → due settings.poll_truenas u.service.zfs (p.clock.monotonic u.world) ≡ true
      → loop_pass p settings config m s ≡ (ok tt, t)
      → (t.alerts ≡ true)
        × (t.service.zfs ≡ u.service.zfs)
        × ((later : ℕ)
            → p.clock.monotonic u.world ≤ later
            → due settings.poll_truenas t.service.zfs later ≡ true)
  unfolding loop_pass
  unconfigured_alerts_always s t u client hardware is_due done =
      let (s4, before4, step4) = chain-ok _ _ t done in
      let (s3, before3, step3) = chain-ok _ _ s4 before4 in
      let (s2, before2, step2) = chain-ok _ _ s3 before3 in
      let (s1, before1, step1) = chain-ok _ _ s2 before2 in
      let (s0, before0, step0) = chain-ok _ _ s1 before1 in
      let ran =
        sym step0
        ∙ (ap (truenas_step p settings) (pass_of (sym before0 ∙ hardware))
            ∙ truenas-absent u client is_due) in
      let polled1 : s1.polled ≡ true = polled_of s1 u ran in
      let kept : t.service.zfs ≡ u.service.zfs =
        notify-zfs s4 t step4
        ∙ (chassis-zfs s3 s4 step3
            ∙ (system-absent s2 s3 client step2
                ∙ (smart-absent s1 s2 client step1
                    ∙ ap (λ (o : Outcome (Unit {0}) × Pass W). o.1.service.zfs) ran))) in
      (
        notify-alerts s4 t
            (chassis-polled s3 s4 (system-polled s2 s3 (smart-polled s1 s2 polled1 step1) step2)
              step3)
            step4,
        kept,
        λ later le.
            due_later settings.poll_truenas (p.clock.monotonic u.world) later u.service t.service
              kept is_due le,
      )
