-- ===== src/Notify/Notifier.antt =====
-- `HealthNotifier.evaluate` and the verdict of `HealthNotifier._send`.
use ktn_enclosure_manager.Common.{
  ℕ, ◌+◌, ℤ, Bool, true, false, not, ◌&&◌, ◌||◌, Option, none, some, List, [], ◌∷◌, ◌++◌, ltb, leb,
  if◌then◌else◌, ◌==◌, list_eq, nat_eq, pair_eq, int_eq, option_eq,
}
use ktn_enclosure_manager.Common.Dict.{Dict, get, put, pop}
use ktn_enclosure_manager.Common.Text.{Text}
use ktn_enclosure_manager.Bays.Model.{SlotHealth, warning, failed, health_value}

-- `f"{bay.enclosure_id}:{bay.ses_slot}"`; a decimal number has no colon, so the text determines
-- the pair.
abbrev pub BayKey : Type 0
BayKey = Text × ℤ

-- The fields of a `Bay` that decide about an alert; the message text is not modelled.
pub record Bay : Type 0 where
  pub enclosure_id : Text
  pub ses_slot : ℤ
  pub health : SlotHealth

abbrev pub key_of : Bay → BayKey
key_of b = (b.enclosure_id, b.ses_slot)

-- What the HTTP client came back with: a status, or an exception of any kind.
pub data Response : Type 0 where
  status : ℕ → Response
  client_error : Response

-- The verdict of `_send`: only a 2xx is delivery.
unfoldable pub delivered : Response → Bool
delivered (status code) = leb 200 code && ltb code 300
delivered client_error = false

pub record Config : Type 0 where
  pub enabled : Bool
  pub notify_recovery : Bool
  pub retry_seconds : ℕ

-- `_last`, the health that the operator was last told of, and `_retry_at`; `saves` counts the
-- calls of `_save`.
pub record Notifier : Type 0 where
  pub last : Dict BayKey Text
  pub retry_at : Dict BayKey ℕ
  pub saves : ℕ

-- `health in BAD`
abbrev pub is_bad : SlotHealth → Bool
is_bad warning = true
is_bad failed = true
is_bad _ = false

-- `previous is not None and previous in bad_values`
unfoldable pub was_bad : Option Text → Bool
was_bad none = false
was_bad (some v) = (v == health_value warning) || (v == health_value failed)

unfoldable pub wants_alert : Config → Option Text → SlotHealth → Bool
unfolding was_bad
wants_alert c previous health = is_bad health || (was_bad previous && c.notify_recovery)

-- The four ways in which the loop leaves a bay.
pub data Verdict : Type 0 where
  steady silent cooling attempt : Verdict

unfoldable pub judge : Config → ℕ → Option Text → Option ℕ → SlotHealth → Verdict
unfolding wants_alert
judge c now previous retry health =
    if previous == some (health_value health)
    then steady
    else if not (wants_alert c previous health)
    then silent
    else if ltb now (elim retry [ none ↦ 0 | some t ↦ t ])
    then cooling
    else attempt

-- (key, new value, bay, previous)
pub record Pending : Type 0 where
  pub key : BayKey
  pub value : Text
  pub bay : Bay
  pub previous : Option Text

-- The two dictionaries and the flag `changed`.
pub record Scan : Type 0 where
  pub last : Dict BayKey Text
  pub retry_at : Dict BayKey ℕ
  pub changed : Bool

unfoldable pub act : Verdict → Bay → Option Text → Scan → Scan × List Pending
unfolding put pop
act steady b previous s = (record s { retry_at = pop (key_of b) s.retry_at }, [])
act silent b previous s = (
  record s {
    last = put (key_of b) (health_value b.health) s.last;
    retry_at = pop (key_of b) s.retry_at;
    changed = true;
  },
  [],
)
act cooling b previous s = (s, [])
act attempt b previous s =
    (s, record { key = key_of b; value = health_value b.health; bay = b; previous = previous } ∷ [])

-- The body of the loop over the bays.
unfoldable pub scan_bay : Config → ℕ → Bay → Scan → Scan × List Pending
unfolding get judge act
scan_bay c now b s =
    let previous = get (key_of b) s.last in
    act (judge c now previous (get (key_of b) s.retry_at) b.health) b previous s

unfoldable pub scan : Config → ℕ → List Bay → Scan → Scan × List Pending
unfolding scan_bay
scan c now [] s = (s, [])
scan c now (b ∷ bs) s =
    let (s', p) = scan_bay c now b s in let (s'', ps) = scan c now bs s' in (s'', p ++ ps)

module _ (c : Config) (now : ℕ) (post : Bay → Option Text → Response) where
  -- One result of the `gather`.
  unfoldable pub conclude : Pending → Scan → Scan
  unfolding delivered put pop
  conclude p s =
      if delivered (post p.bay p.previous)
      then record {
        last = put p.key p.value s.last;
        retry_at = pop p.key s.retry_at;
        changed = true;
      }
      else record s { retry_at = put p.key (now + c.retry_seconds) s.retry_at }

  unfoldable pub conclude_all : List Pending → Scan → Scan
  unfolding conclude
  conclude_all [] s = s
  conclude_all (p ∷ ps) s = conclude_all ps (conclude p s)

  -- `HealthNotifier.evaluate`, once the state file has been read. `post` is what the endpoint
  -- answers to each alert.
  unfoldable pub evaluate : List Bay → Notifier → Notifier
  unfolding scan conclude_all
  evaluate bays n =
      let start : Scan = record { last = n.last; retry_at = n.retry_at; changed = false } in
      let (s, pending) = scan c now bays start in
      let s' = conclude_all pending s in
      if c.enabled
      then record {
        last = s'.last;
        retry_at = s'.retry_at;
        saves = if s'.changed then n.saves + 1 else n.saves;
      }
      else n
