-- ===== src/Samples/Recovery.antt =====
-- Samples for the watchdog: a proxy that does not answer.
use sbnb.Prelude.{ℕ, refl, false, List, [], ◌∷◌}
use sbnb.Watchdog.{World, State, unreachable, lines, absent, after}
use sbnb.Watchdog.Cooldown.{IsSpaced, restarts-IsSpaced}

abbrev down : ℕ → World
down t = record {
  docker_ps = λ p. lines ("c1" ∷ []);
  reply = unreachable;
  restart_succeeds = false;
  now = t;
}

abbrev start : State
start = record { failures = absent; cooldown = absent; restarts = [] }

abbrev misses : List World
misses = down 60 ∷ down 0 ∷ []

restarts-IsSpaced_example : IsSpaced (after "http-response" (down 120 ∷ misses) start).restarts
restarts-IsSpaced_example = restarts-IsSpaced "http-response" (down 120 ∷ misses) start refl
