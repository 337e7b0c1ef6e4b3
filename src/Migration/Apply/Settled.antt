-- ===== src/Migration/Apply/Settled.antt =====
-- dataplane.py: how `_apply_v2_projects` leaves the legacy project.
use sbnb.Prelude.{not, Bool, true, false, ◌≡◌, List, [], ◌∷◌}
use sbnb.Migration.{
  uncaught, Attempt, returned, Command, stop_legacy, remove_legacy, up_legacy, down_legacy,
  stop_legacy_app, Event, ran, committed,
}

-- How the legacy project stands. It is half-way once a part of it is stopped, removed or taken down,
-- until the whole project is brought up again or the migration is committed. When the command that
-- brings it up fails, or the commit raises an exception before it is done, that is a state of its own.
pub data Legacy : Type 0 where
  untouched half_way restored restore_failed gone interrupted : Legacy

abbrev pub after_up : Bool → Legacy
after_up true = restored
after_up false = restore_failed

abbrev pub after_command : Command → Bool → Legacy → Legacy
after_command stop_legacy ok before = half_way
after_command remove_legacy ok before = half_way
after_command down_legacy ok before = half_way
after_command (stop_legacy_app _) ok before = half_way
after_command up_legacy ok before = after_up ok
after_command _ ok before = before

abbrev pub after_exception : Legacy → Legacy
after_exception gone = gone
after_exception _ = interrupted

unfoldable pub legacy_after : List Event → Legacy
legacy_after [] = untouched
legacy_after (ran c ok ∷ es) = after_command c ok (legacy_after es)
legacy_after (committed ∷ es) = gone
legacy_after (uncaught _ ∷ es) = after_exception (legacy_after es)
legacy_after (_ ∷ es) = legacy_after es

abbrev pub is_half_way : Legacy → Bool
is_half_way half_way = true
is_half_way _ = false

abbrev pub is_settled : List Event → Bool
is_settled es = not (is_half_way (legacy_after es))

-- A commit that succeeds settles the matter.
abbrev IsSettledCommit : List Event × Attempt Bool → Type 0
IsSettledCommit (es, returned true) = is_settled es ≡ true
IsSettledCommit (es, _) = Unit
