-- ===== src/Notify/Alerts.antt =====
-- An alert that was not accepted, and one that was.
use ktn_enclosure_manager.Common.{
  ℕ, ◌+◌, ◌≡◌, refl, ap, ◌∙◌, true, false, Option, none, some, List, get_elem?, ltb, leb, ◌==◌,
  list_eq, nat_eq, option_eq, arith, Bool-cases, inl, inr,
}
use ktn_enclosure_manager.Common.Text.{Text}
use ktn_enclosure_manager.Bays.Model.{health_value}
use ktn_enclosure_manager.Notify.Notifier.{
  Bay, key_of, Response, delivered, Config, Notifier, wants_alert, judge, cooling, attempt,
  evaluate,
}
use ktn_enclosure_manager.Notify.Served.{is_distinct, Told, told_of, serve, evaluate_serves_each}

-- The first tick at which another attempt is made.
abbrev pub deadline : Told → ℕ
deadline t = elim t.retry [ none ↦ 0 | some r ↦ r ]

-- An alert is owed for a bay: its health is not what the operator was told, and it is worth one.
pub record Owed (c : Config) (b : Bay) (t : Told) : Type 0 where
  pub differs : (t.health == some (health_value b.health)) ≡ false
  pub wanted : wants_alert c t.health b.health ≡ true

module _ (c : Config) (now : ℕ) (b : Bay) (t : Told) (o : Owed c b t) where
  judge_early : ltb now (deadline t) ≡ true → judge c now t.health t.retry b.health ≡ cooling
  unfolding judge
  judge_early y = rw (o.differs) rw (o.wanted) rw y refl

  judge_due : ltb now (deadline t) ≡ false → judge c now t.health t.retry b.health ≡ attempt
  unfolding judge
  judge_due n = rw (o.differs) rw (o.wanted) rw n refl

  serve-refused :
      (later : ℕ)
      → leb (deadline t) later ≡ true
      → leb (now + c.retry_seconds) later ≡ true
      → ((serve c now false b t).health ≡ t.health)
        × (leb (deadline (serve c now false b t)) later ≡ true)
  unfolding serve
  serve-refused later d l = elim (Bool-cases (ltb now (deadline t))) [
    | inl y ↦ rw (judge_early y, serve) (refl, d)
    | inr n ↦ rw (judge_due n, serve) (refl, l)
  ]

  serve-accepted :
      leb (deadline t) now ≡ true
      → serve c now true b t ≡ record { health = some (health_value b.health); retry = none }
  unfolding serve
  serve-accepted d = rw (judge_due (ground arith), serve) refl

Owed-told : (c : Config) (b : Bay) (s t : Told) → t.health ≡ s.health → Owed c b s → Owed c b t
Owed-told c b s t e o = record { differs = rw e o.differs; wanted = rw e o.wanted }

-- Notification is on and no two bays share an enclosure and slot. An alert is owed for a bay and
-- the endpoint refuses it in one evaluation. What the operator was told then stays, so that the
-- alert is still owed, and the next evaluation that runs after both the old cooldown and a new
-- one of `retry_seconds`, with an endpoint that accepts the alert, sends it and commits it.
pub refused_alert_sent_later :
    (c : Config) (now later : ℕ) (post post' : Bay → Option Text → Response) (bays bays' : List Bay)
    (n : Notifier) (i j : ℕ) (b : Bay)
    → c.enabled ≡ true
    → is_distinct bays ≡ true
    → is_distinct bays' ≡ true
    → get_elem? bays i ≡ some b
    → get_elem? bays' j ≡ some b
    → Owed c b (told_of (key_of b) n)
    → delivered (post b (told_of (key_of b) n).health) ≡ false
    → delivered (post' b (told_of (key_of b) n).health) ≡ true
    → leb (deadline (told_of (key_of b) n)) later ≡ true
    → leb (now + c.retry_seconds) later ≡ true
    → ((told_of (key_of b) (evaluate c now post bays n)).health ≡ (told_of (key_of b) n).health)
      × (told_of (key_of b) (evaluate c later post' bays' (evaluate c now post bays n))
          ≡ record { health = some (health_value b.health); retry = none })
refused_alert_sent_later c now later post post' bays bays' n i j b on d d' e e' o no_answer answer q
      r =
    let k = key_of b in
    let n' : Notifier = evaluate c now post bays n in
    let first : told_of k n' ≡ serve c now false b (told_of k n) =
      evaluate_serves_each c now post bays n i b on d e
      ∙ ap (λ x. serve c now x b (told_of k n)) no_answer in
    let kept = serve-refused c now b (told_of k n) o later q r in
    let same : (told_of k n').health ≡ (told_of k n).health = ap (λ t. t.health) first ∙ kept.0 in
    let accepted : delivered (post' b (told_of k n').health) ≡ true = rw same answer in
    let due : leb (deadline (told_of k n')) later ≡ true = rw first kept.1 in
    (
      same,
      evaluate_serves_each c later post' bays' n' j b on d' e'
          ∙ ap (λ x. serve c later x b (told_of k n')) accepted
          ∙ serve-accepted c later b (told_of k n')
              (Owed-told c b (told_of k n) (told_of k n') same o) due,
    )
