-- ===== src/Polling/Remote.antt =====
-- `poll_truenas`, `poll_smart` and `poll_system_info` of backend/ktnmgr/services/state.py, over a
-- TrueNAS client that is a parameter.
use ktn_enclosure_manager.Common.{
  ℕ, ◌||◌, Option, none, some, List, [], ◌∷◌, any, if◌then◌else◌, ◌==◌, nat_eq, list_eq,
}
use ktn_enclosure_manager.Common.Dict.{Dict}
use ktn_enclosure_manager.Common.Text.{Text, codes}
use ktn_enclosure_manager.Errors.{Exception, Outcome, ok, raise}
use ktn_enclosure_manager.Bays.Compose.{SlotState, is_blank, or_empty}
use ktn_enclosure_manager.Correlate.Disks.{build_disk_index}
use ktn_enclosure_manager.Correlate.Json.{Value, text, obj, end, field, Fitting}
use ktn_enclosure_manager.Correlate.Smart.{build_smart_index}
use ktn_enclosure_manager.Correlate.Zfs.{build_zfs_index}
use ktn_enclosure_manager.Sysfs.Tree.{text_leb, sorted}
use ktn_enclosure_manager.Polling.Cached.{Clock, succeed, fail}
use ktn_enclosure_manager.Polling.Service.{Service}

-- How a call of the client ends: `refused` is a `TrueNASError` or an `OSError`, with its text, and
-- `broken` any other exception.
pub data Fetched (A : Type 0) : Type 0 where
  fetched : A → Fetched A
  refused : Text → Fetched A
  broken : Exception → Fetched A

pub record TrueNas (W : Type 0) : Type 0 where
  pub pools : W → Fetched (List Value) × W
  pub disks : W → Fetched (List Value) × W
  pub temperatures : W → Fetched (Dict Text (Option ℕ)) × W
  pub temperature_alerts : List Text → W → Fetched (List Value) × W
  pub system_info : W → Fetched Value × W
  pub version : W → Fetched Text × W

-- The block devices of the bays, each once.
unfoldable pub add_names : List SlotState → List Text → List Text
unfolding is_blank
add_names [] names = names
add_names (slot ∷ slots) names =
    let name = or_empty slot.block_device in
    add_names slots
      (if is_blank slot.block_device || any (λ n. n == name) names then names else name ∷ names)

unfoldable pub device_names : Dict Text (List SlotState) → List Text → List Text
unfolding add_names
device_names [] names = names
device_names ((id, slots) ∷ rest) names = device_names rest (add_names slots names)

module _ {W : Type 0} (k : Clock W) (p : Fitting) (client : Option (TrueNas W)) where
  abbrev pub Polled : Type 0
  Polled = Outcome (Unit {0}) × (Service × W)

  -- What the polls store once their calls have answered.
  unfoldable pub store_pools : List Value → List Value → Service → W → Polled
  unfolding build_zfs_index build_disk_index succeed
  store_pools pools records s w = elim (build_zfs_index p pools) [
    | raise e ↦ (raise e, (s, w))
    | ok zfs ↦ elim (build_disk_index p records) [
      | raise e ↦ (raise e, (record s { zfs = succeed k w zfs none s.zfs }, w))
      | ok disks ↦ (
        ok tt,
        (
          record s {
            zfs = succeed k w zfs none s.zfs;
            remote_disks = succeed k w disks none s.remote_disks;
          },
          w,
        ),
      )
    ]
  ]

  unfoldable pub pools_failed : Text → Service → W → Service
  unfolding fail
  pools_failed error s w = record s {
    zfs = fail k w error s.zfs;
    remote_disks = fail k w error s.remote_disks;
  }

  unfoldable pub poll_truenas : Service → W → Polled
  unfolding store_pools pools_failed
  poll_truenas s w = elim client [
    | none ↦ (ok tt, (s, w))
    | some c ↦
        let (pools, w') = c.pools w in
        elim pools [
          | refused error ↦ (ok tt, (pools_failed error s w', w'))
          | broken e ↦ (raise e, (s, w'))
          | fetched ps ↦
              let (records, w'') = c.disks w' in
              elim records [
                | refused error ↦ (ok tt, (pools_failed error s w'', w''))
                | broken e ↦ (raise e, (s, w''))
                | fetched rs ↦ store_pools ps rs s w''
              ]
        ]
  ]

  unfoldable pub poll_smart : Service → W → Polled
  unfolding device_names sorted text_leb build_smart_index succeed fail
  poll_smart s w = elim client [
    | none ↦ (ok tt, (s, w))
    | some c ↦
        let (temperatures, w') = c.temperatures w in
        elim temperatures [
          | refused error ↦ (ok tt, (record s { smart = fail k w' error s.smart }, w'))
          | broken e ↦ (raise e, (s, w'))
          | fetched ts ↦
              let (alerts, w'') =
                c.temperature_alerts (sorted text_leb (device_names s.slots.value [])) w' in
              elim alerts [
                | refused error ↦ (ok tt, (record s { smart = fail k w'' error s.smart }, w''))
                | broken e ↦ (raise e, (s, w''))
                | fetched as_read ↦ elim (build_smart_index p ts [] as_read) [
                  | raise e ↦ (raise e, (s, w''))
                  | ok index ↦ (ok tt, (record s { smart = succeed k w'' index none s.smart }, w''))
                ]
              ]
        ]
  ]

  -- `system.info` was refused, with `first_error`.
  unfoldable pub poll_version : TrueNas W → Text → Service → W → Polled
  unfolding succeed fail
  poll_version c first_error s w =
      let (version, w') = c.version w in
      elim version [
        | refused error ↦
            (ok tt, (record s { system_info = fail k w' first_error s.system_info }, w'))
        | broken e ↦ (raise e, (s, w'))
        | fetched v ↦
            if v == []
            then (ok tt, (record s { system_info = fail k w' first_error s.system_info }, w'))
            else (
              ok tt,
              (
                record s {
                  system_info =
                      succeed k w' (obj (field (codes "version") (text v) end)) none s.system_info;
                },
                w',
              ),
            )
      ]

  unfoldable pub poll_system_info : Service → W → Polled
  unfolding poll_version succeed
  poll_system_info s w = elim client [
    | none ↦ (ok tt, (s, w))
    | some c ↦
        let (info, w') = c.system_info w in
        elim info [
          | refused error ↦ poll_version c error s w'
          | broken e ↦ (raise e, (s, w'))
          | fetched v ↦ (ok tt, (record s { system_info = succeed k w' v none s.system_info }, w'))
        ]
  ]
