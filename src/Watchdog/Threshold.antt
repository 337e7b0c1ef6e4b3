-- ===== src/Watchdog/Threshold.antt =====
-- Recovery starts only after consecutive failures.
use sbnb.Prelude.{
  ℕ, suc, ◌+◌, ◌≤◌, String, ◌≡◌, ◌≢◌, refl, Bool, true, false, Option, none, some, List, [], ◌∷◌,
  arith,
}
use sbnb.Watchdog.{
  World, State, absent, read_int, find_container, check_container, check_service, after, probe,
  probed, failure_threshold,
}

-- what the probe of a service that is there says; none where it raises an exception
pub verdict : String → World → Option String → Option Bool
verdict kind w none = some true
verdict kind w (some container) = probe kind w.reply

-- a run counts, ends the streak, or is passed over
count : Option Bool → ℕ → ℕ
count none n = n
count (some true) n = 0
count (some false) n = suc n

-- how many of the latest runs failed in a row, runs that an exception ended left out
unfoldable pub streak : String → List World → ℕ
unfolding count verdict
streak kind [] = 0
streak kind (w ∷ ws) = count (verdict kind w (find_container w)) (streak kind ws)

probed_counted :
    (c : String) (w : World) (o : Option Bool) (n : ℕ) (s : State)
    → read_int s.failures ≤ n
    → read_int (probed c w s o).0.failures ≤ count o n
unfolding probed read_int count
probed_counted c w none n s h = h
probed_counted c w (some true) n s h = omega arith
probed_counted c w (some false) n s h = ground arith

failures_counted :
    (kind : String) (w : World) (o : Option String) (n : ℕ) (s : State)
    → read_int s.failures ≤ n
    → read_int (check_container kind w o s).0.failures ≤ count (verdict kind w o) n
unfolding check_container read_int verdict count
failures_counted kind w none n s h = omega arith
failures_counted kind w (some c) n s h = probed_counted c w (probe kind w.reply) n s h

pub failures-le-streak :
    (kind : String) (ws : List World) (s : State)
    → read_int s.failures ≡ 0
    → read_int (after kind ws s).failures ≤ streak kind ws
unfolding after check_service streak
failures-le-streak kind [] s h = omega arith
failures-le-streak kind (w ∷ ws) s h =
    failures_counted kind w (find_container w) (streak kind ws) (after kind ws s)
      (failures-le-streak kind ws s h)

probed_needs :
    (c : String) (w : World) (o : Option Bool) (s : State)
    → (probed c w s o).0.restarts ≢ s.restarts
    → (o ≡ some false) × (3 ≤ read_int s.failures + 1)
unfolding probed read_int
probed_needs c w none s h = absurd (h refl)
probed_needs c w (some true) s h = absurd (h refl)
probed_needs c w (some false) s h = ground arith

restart_needs :
    (kind : String) (w : World) (o : Option String) (s : State)
    → (check_container kind w o s).0.restarts ≢ s.restarts
    → (verdict kind w o ≡ some false) × (3 ≤ read_int s.failures + 1)
unfolding check_container verdict
restart_needs kind w none s h = absurd (h refl)
restart_needs kind w (some c) s h = probed_needs c w (probe kind w.reply) s h

-- When no failure is recorded at the start, a run that restarts the service is at least the third
-- in a row that found it and failed to reach it, runs that an exception ended left out.
pub restart_after_three :
    (kind : String) (w : World) (ws : List World) (s : State)
    → read_int s.failures ≡ 0
    → (after kind (w ∷ ws) s).restarts ≢ (after kind ws s).restarts
    → failure_threshold ≤ streak kind (w ∷ ws)
unfolding after check_service streak
restart_after_three kind w ws s h changed =
    let (fails, enough) = restart_needs kind w (find_container w) (after kind ws s) changed in
    rw fails (omega (arith, failures-le-streak kind ws s h))

-- When the service is found, its probe fails for the third time in a row and no cooldown runs, the
-- check restarts it.
pub third_failure_restarts :
    (kind c : String) (w : World) (s : State)
    → find_container w ≡ some c
    → probe kind w.reply ≡ some false
    → 2 ≤ read_int s.failures
    → read_int s.cooldown ≤ w.now
    → (check_service kind w s).0.restarts ≡ (c, w.now) ∷ s.restarts
unfolding check_service check_container read_int
third_failure_restarts kind c w s f p n q = rw (f, p) (ground arith)

healthy :
    (kind : String) (w : World) (o : Option String) (s : State)
    → verdict kind w o ≡ some true
    → check_container kind w o s ≡ (record s { failures = absent }, some true)
unfolding check_container verdict probed
healthy kind w none s h = refl
healthy kind w (some c) s h = rw h refl

-- A run that finds the service healthy, or finds no service, forgets the failures and restarts
-- nothing.
pub healthy_resets :
    (kind : String) (w : World) (s : State)
    → verdict kind w (find_container w) ≡ some true
    → check_service kind w s ≡ (record s { failures = absent }, some true)
unfolding check_service
healthy_resets kind w s h = healthy kind w (find_container w) s h
