-- ===== src/Rollout/Project/HeldBack.antt =====
-- The system project (dataplane.py) after its start failed.
use sbnb.Prelude.{String, Bool, true, false, ◌≡◌, refl, none, some, List, [], ◌∷◌}
use mathlib.Core.Bool.{true≢false}
use sbnb.ApplyResults.Record.{Text, codes}
use sbnb.Devices.{same_text}
use sbnb.Project.{Compose}
use sbnb.Rollout.{FailedRecord, Event, wrote_compose, World, Outcome, succeeded, failed}
use sbnb.Rollout.Project.{
  Context, failed_before, matching_failed_record, failure_of, write_failed_sig_path,
  read_failed_sig_record, failure_marker_context, prepare_system_project_compose,
  prepare_unless_failed, is_retried, pull_system, start_after, system_started,
  start_prepared_system_project,
}
use sbnb.Rollout.Project.Sticky.{write_marks, failure_marker_context-IsOwn}

abbrev pub system_context : World → String → Compose → Context
system_context w project c = failure_marker_context w project c none [] []

-- The next preparation of the system project is refused without a command, and one for a migration
-- pulls again.
abbrev pub IsHeldBack : World → String → Compose → List Event → Type 0
IsHeldBack w project c es =
    ((f : FailedRecord) × (prepare_system_project_compose w project c false es
        ≡ (wrote_compose project ∷ es, failed_before f)))
    × (prepare_system_project_compose w project c true es
        ≡ pull_system w project (system_context w project c) (wrote_compose project ∷ es))

module _ (w : World) (project : String) (c : Compose) where
  marked-IsHeldBack :
      (f : FailedRecord) (es : List Event)
      → matching_failed_record w (system_context w project c) (wrote_compose project ∷ es) ≡ some f
      → f.phase ≡ codes "start"
      → IsHeldBack w project c es
  unfolding prepare_system_project_compose prepare_unless_failed is_retried same_text
  marked-IsHeldBack f es m p = ((f, rw m refl), rw (m, p) refl)

  module _ (always : (es : List Event) → w.persists es ≡ true) where
    written-IsHeldBack :
        (reason : Text) (es : List Event)
        → IsHeldBack w project c
            (write_failed_sig_path w (system_context w project c) (codes "start") reason es)
    unfolding matching_failed_record read_failed_sig_record failure_of
    written-IsHeldBack reason es =
        marked-IsHeldBack (failure_of w (system_context w project c) (codes "start") reason)
          (write_failed_sig_path w (system_context w project c) (codes "start") reason es)
          (write_marks w always (system_context w project c)
            (failure_marker_context-IsOwn w project c none [] []) (codes "start") reason es)
          refl

    started-IsHeldBack :
        (y : List Event × Outcome)
        → (system_started w (system_context w project c) y).1 ≡ false
        → IsHeldBack w project c (system_started w (system_context w project c) y).0
    unfolding system_started
    started-IsHeldBack (es, succeeded output) e = absurd (true≢false e)
    started-IsHeldBack (es, failed output reason) e = written-IsHeldBack reason es

    after-IsHeldBack :
        (y : List Event × Bool)
        → (start_after w project (system_context w project c) y).1 ≡ false
        → IsHeldBack w project c (start_after w project (system_context w project c) y).0
    unfolding start_after
    after-IsHeldBack (es, true) e = started-IsHeldBack _ e
    after-IsHeldBack (es, false) e = written-IsHeldBack _ es

-- Where markers can be written, once the start of the prepared system project has failed, in the
-- hand-off before it or in the start itself, the next preparation is refused and only writes the
-- Compose file, while a preparation for a migration pulls the images again.
pub failed_start-IsHeldBack :
    (w : World) (project : String) (c : Compose) (before_start : List Event → List Event × Bool)
    (es : List Event)
    → ((fs : List Event) → w.persists fs ≡ true)
    → (start_prepared_system_project w project (system_context w project c) before_start es).1
      ≡ false
    → IsHeldBack w project c
        (start_prepared_system_project w project (system_context w project c) before_start es).0
unfolding start_prepared_system_project
failed_start-IsHeldBack w project c before_start es always e =
    after-IsHeldBack w project c always (before_start es) e
