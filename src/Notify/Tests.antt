-- ===== src/Notify/Tests.antt =====
-- Two bays, one of them failed, and an endpoint that comes back.
use ktn_enclosure_manager.Common.{
  pos, ◌≡◌, refl, true, Option, none, some, List, [], ◌∷◌, list_eq, nat_eq, pair_eq, int_eq,
}
use ktn_enclosure_manager.Common.Dict.{get}
use ktn_enclosure_manager.Common.Text.{Text, codes}
use ktn_enclosure_manager.Bays.Model.{healthy, failed, health_value}
use ktn_enclosure_manager.Notify.Notifier.{
  Bay, key_of, Response, status, Config, Notifier, judge, delivered, wants_alert, evaluate,
}
use ktn_enclosure_manager.Notify.Served.{is_distinct, told_of, serve, evaluate_serves_each}
use ktn_enclosure_manager.Notify.Alerts.{refused_alert_sent_later}

abbrev good : Bay
good = record { enclosure_id = codes "0x50060480aabbcc00"; ses_slot = pos 2; health = healthy }

abbrev bad : Bay
bad = record good { ses_slot = pos 7; health = failed }

abbrev bays : List Bay
bays = good ∷ bad ∷ []

abbrev config : Config
config = record { enabled = true; notify_recovery = true; retry_seconds = 300 }

abbrev fresh : Notifier
fresh = record { last = []; retry_at = []; saves = 0 }

abbrev redirecting : Bay → Option Text → Response
redirecting b previous = status 301

abbrev accepting : Bay → Option Text → Response
accepting b previous = status 200

redirect_is_not_delivery :
    evaluate config 10 redirecting bays fresh
    ≡ record { last = (key_of good, codes "ok") ∷ []; retry_at = (key_of bad, 310) ∷ []; saves = 1 }
unfolding evaluate
redirect_is_not_delivery = refl

evaluate_serves_each_example :
    told_of (key_of bad) (evaluate config 10 accepting bays fresh)
    ≡ record { health = some (codes "failed"); retry = none }
unfolding serve judge told_of get delivered is_distinct
evaluate_serves_each_example =
    evaluate_serves_each config 10 accepting bays fresh 1 bad refl refl refl

refused_alert_sent_later_example :
    ((told_of (key_of bad) (evaluate config 10 redirecting bays fresh)).health
      ≡ (told_of (key_of bad) fresh).health)
    × (told_of
          (key_of bad)
          (evaluate config 400 accepting bays (evaluate config 10 redirecting bays fresh))
        ≡ record { health = some (health_value failed); retry = none })
unfolding is_distinct told_of get wants_alert delivered
refused_alert_sent_later_example =
    refused_alert_sent_later config 10 400 redirecting accepting bays bays fresh 1 1 bad refl refl
      refl refl refl (record { differs = refl; wanted = refl }) refl refl refl refl
