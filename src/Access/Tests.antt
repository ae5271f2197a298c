-- ===== src/Access/Tests.antt =====
-- backend/ktnmgr/enclosure/access.py: the lock at concrete steps of two threads.
use ktn_enclosure_manager.Common.{ℕ, true, false, some, nat_eq, ◌≡◌, ◌≢◌, refl}
use ktn_enclosure_manager.Access.Lock.{
  Lock, enter_nested, enter_acquired, enter_degraded, unlocked, initially, after, locked, nested,
  timed_out, IsReachable, Holds, outermost, innermost,
}
use ktn_enclosure_manager.Access.Exclusion.{mutual_exclusion, nested_given_true}

-- Thread 3 has the lock and has nested once, thread 5 has given up waiting.
abbrev contended : Lock
contended = enter_degraded 5 (enter_nested 3 (enter_acquired 3 unlocked))

contended-IsReachable : IsReachable contended
unfolding enter_nested enter_acquired enter_degraded
contended-IsReachable =
    after (after (after initially (locked 3 refl refl)) (nested 3 0 refl)) (timed_out 5 refl)

contended-Holds : Holds contended 3
unfolding enter_nested enter_acquired enter_degraded
contended-Holds = refl

contended_degraded : outermost (contended.given 5) ≡ some false
unfolding enter_nested enter_acquired enter_degraded
contended_degraded = refl

mutual_exclusion_example : ◌≡◌ {A = ℕ} 3 3
mutual_exclusion_example = mutual_exclusion contended-IsReachable contended-Holds contended-Holds

nested_given_true_example :
    (t : Lock) × IsReachable t
    × (◌≢◌ {A = ℕ} 3 5)
    × (t.holder ≡ some 3)
    × (innermost (t.given 3) ≡ innermost (contended.given 3))
    × (innermost (t.given 5) ≡ some true)
nested_given_true_example =
    nested_given_true contended-IsReachable contended-Holds contended_degraded
