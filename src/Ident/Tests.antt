-- ===== src/Ident/Tests.antt =====
-- A bench shelf, runs of the timer engine on it, and its theorems at concrete inputs.
use ktn_enclosure_manager.Common.{
  ℕ, ℤ, pos, ◌+◌, ◌≤◌, ◌↔◌, ◌≡◌, ◌≢◌, refl, Bool, true, false, Option, some, none, List, [], ◌∷◌,
  arith, list_eq, nat_eq, pair_eq, int_eq,
}
use ktn_enclosure_manager.Common.Dict.{Dict, get, put, pop, get-put_ne}
use ktn_enclosure_manager.Common.Text.{Text, codes, lower}
use ktn_enclosure_manager.Errors.{
  Exception, Outcome, ok, raise, locate_error, write_failed, os_error, is_locate_or_lookup,
}
use ktn_enclosure_manager.Locate.Request.{int_value, str_value, validate_request}
use ktn_enclosure_manager.Ident.State.{
  Key, IdentRecord, Manager, describe_over, settled, foreign, record_for, origin_app, expired,
}
use ktn_enclosure_manager.Ident.Host.{Host, Policy, Sys}
use ktn_enclosure_manager.Ident.Identify.{
  Request, identify, off_updates, apply_all, audit, audit_call, new_record,
}
use ktn_enclosure_manager.Ident.Timers.{clear_as, reconcile, load, tick, tick_record}
use ktn_enclosure_manager.Ident.Publication.{cleared_to, off_publication_external}
use ktn_enclosure_manager.Ident.Effects.{
  Cleared, Saved, identify_failure_keeps, identify_off_clears,
}
use ktn_enclosure_manager.Ident.Retry.{
  IsBounded, timer_clear, passes, tick-IsBounded, passes_give_up,
}
use ktn_enclosure_manager.Ident.Safety.{Shelf}
use ktn_enclosure_manager.Ident.Races.{stale_pass_clears_fresh, uncaught_error_blocks}

record Bench : Type 0 where
  leds : Dict Key Bool
  file : Option (List IdentRecord)
  now : ℕ
  fault : Option Exception

abbrev led : Bench → Key → Bool
led w k = elim (get k w.leds) [ none ↦ false | some b ↦ b ]

abbrev bench_write : Bench → Text → ℤ → Bool → Outcome Bool × Bench
bench_write w id slot on = elim w.fault [
  | none ↦ (ok on, record w { leds = put (id, slot) on w.leds; now = w.now + 1 })
  | some e ↦ (raise e, w)
]

abbrev bench : Host Bench
bench = record {
  read = λ w id slot. (ok (led w (id, slot)), w);
  write = bench_write;
  save = λ w rs. record w { file = some rs };
  load = λ w. w.file;
  utc = λ w. w.now;
  monotonic = λ w. w.now;
  message = λ e. codes "LocateError: write failed";
}

led-bench_write :
    (w : Bench) (id : Text) (slot : ℤ) (on : Bool) (k : Key)
    → (id, slot) ≢ k
    → led (bench_write w id slot on).1 k ≡ led w k
led-bench_write w id slot on k ne = ground (arith, get-put_ne (id, slot) k on w.leds ne)

abbrev bench_shelf : Shelf bench
bench_shelf = record {
  led = led;
  led-read = λ w id slot k. refl;
  led-write = led-bench_write;
  led-save = λ w rs k. refl;
}

abbrev id : Text
id = codes "0x50060480aabbcc00"

abbrev key : Key
key = (id, pos 7)

-- Raised at 0 for ten seconds.
abbrev ours : IdentRecord
ours = record {
  enclosure_id = id;
  ses_slot = pos 7;
  created_by = codes "admin";
  created_at = 0;
  expires_at = some 10_000_000;
  origin = origin_app;
}

abbrev later : IdentRecord
later = record ours { created_at = 9_000_000; expires_at = some 309_000_000 }

abbrev idle : Manager
idle = record { records = []; clear_failures = []; last_write = [] }

abbrev owner : Manager
owner = record idle { records = (key, ours) ∷ [] }

abbrev lit_world : Bench
lit_world = record {
  leds = (key, true) ∷ ((id, pos 3), true) ∷ [];
  file = some (ours ∷ []);
  now = 20_000_000;
  fault = none;
}

abbrev lit_sys : Sys Bench
lit_sys = record { manager = owner; world = lit_world; trail = [] }

abbrev start_sys : Sys Bench
start_sys = record { manager = idle; world = lit_world; trail = [] }

abbrev broken : Exception → Sys Bench
broken e = record lit_sys { world = record lit_world { fault = some e } }

abbrev policy : Policy
policy = record { clear_max_attempts = 2; clear_backoff = 2_000_000 }

abbrev light : Request
light = record { on = true; user = codes "admin"; duration_seconds = some 30; serial = none }

abbrev clear : Request
clear = clear_as (codes "admin")

valid_id : validate_request (str_value id) (int_value (pos 7)) ≡ ok key
unfolding validate_request
valid_id = refl

lit_bay_expires : (tick bench policy lit_sys).manager.records ≡ []
unfolding tick expired identify audit_call audit off_updates apply_all get put pop validate_request
    new_record
lit_bay_expires = refl

startup_clears_only_ours :
    (reconcile bench ((key, true) ∷ ((id, pos 3), true) ∷ []) start_sys).1.world.leds
    ≡ (key, false) ∷ ((id, pos 3), true) ∷ []
unfolding reconcile load identify get put pop validate_request
startup_clears_only_ours = refl

abbrev cleared : Sys Bench
cleared = (identify bench id (pos 7) clear lit_sys).1

off_publication_external_example :
    (describe_over
        (cleared_to owner id (pos 7) 20 0)
        (cleared_to owner id (pos 7) 20 2)
        id
        (pos 7)
        true
        19
      ≡ foreign)
    ↔ ((◌≡◌ {A = ℕ} 0 0) × (2 ≤ 2) × (settled owner (lower id, pos 7) true 19 ≡ true))
unfolding record_for
off_publication_external_example =
    off_publication_external owner id (pos 7) ours 20 0 2 true 19 refl refl (omega arith)

identify_failure_keeps_example :
    (identify bench id (pos 7) clear (broken os_error)).1.manager ≡ (broken os_error).manager
unfolding identify validate_request
identify_failure_keeps_example =
    identify_failure_keeps bench id (pos 7) clear (broken os_error) os_error refl

identify_off_clears_example :
    (k : Key) × (validate_request (str_value id) (int_value (pos 7)) ≡ ok k)
    × (◌≡◌ {A = Option IdentRecord} none none)
    × Cleared k lit_sys.manager (identify bench id (pos 7) clear lit_sys).1.manager
    × Saved bench (identify bench id (pos 7) clear lit_sys).1
unfolding identify validate_request
identify_off_clears_example = identify_off_clears bench id (pos 7) clear lit_sys none refl refl

abbrev lit_record : IdentRecord
lit_record = record {
  enclosure_id = id;
  ses_slot = pos 7;
  created_by = codes "admin";
  created_at = 20_000_001;
  expires_at = some 50_000_001;
  origin = origin_app;
}

owner-IsBounded : IsBounded policy owner
unfolding get
owner-IsBounded = record { below = λ k n t e. ground arith }

tick-IsBounded_example : IsBounded policy (tick bench policy (broken os_error)).manager
tick-IsBounded_example = tick-IsBounded bench policy (broken os_error) owner-IsBounded

abbrev refused : Sys Bench
refused = broken (locate_error write_failed)

abbrev unexpired : Sys Bench
unexpired = record start_sys { world = record lit_world { now = 5 } }

stale_pass_clears_fresh_example :
    get key
      (tick_record bench policy 20_000_000 key ours (record lit_sys {
        manager = record owner { records = (key, later) ∷ [] };
      })).1.manager.records
    ≡ none
unfolding expired get identify validate_request
stale_pass_clears_fresh_example =
    stale_pass_clears_fresh bench policy 20_000_000 key ours later
      (record lit_sys { manager = record owner { records = (key, later) ∷ [] } }) none refl refl
      refl refl refl refl

uncaught_error_blocks_example :
    (tick bench policy (broken os_error) ≡ (timer_clear bench policy ours (broken os_error)).1)
    × ((tick bench policy (broken os_error)).manager ≡ (broken os_error).manager)
unfolding expired get identify validate_request
uncaught_error_blocks_example =
    uncaught_error_blocks bench policy (broken os_error) key ours [] os_error refl refl refl refl
      refl

-- A shelf that refuses every write.
abbrev deaf : Host Bench
deaf = record bench { write = λ w i s on. (raise (locate_error write_failed), w) }

deaf_refuses :
    (u : Sys Bench)
    → (e : Exception) × ((timer_clear deaf policy ours u).0 ≡ raise e)
      × (is_locate_or_lookup e ≡ true)
unfolding identify validate_request
deaf_refuses u = (locate_error write_failed, refl, refl)

-- At 20 s, and again at 22 s when the back-off of 2 s is over.
passes_give_up_example :
    (passes deaf policy key ours (20_000_000 ∷ 22_000_000 ∷ []) lit_sys).manager.records ≡ []
unfolding get pop expired
passes_give_up_example =
    passes_give_up deaf policy key ours deaf_refuses 20_000_000 (22_000_000 ∷ []) lit_sys refl
      (omega arith) (refl, omega arith, (refl, omega arith, tt))
