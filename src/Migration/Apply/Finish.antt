-- ===== src/Migration/Apply/Finish.antt =====
-- dataplane.py: the end of a migration, with its commit or its rollback.
use sbnb.Prelude.{ap, String, Bool, true, false, ◌&&◌, ◌≡◌, refl, sym, ◌∙◌, List, [], ◌∷◌, arith}
use mathlib.Core.Bool.{true≢false}
use sbnb.Migration.Apps.Fine.{kept-publish_v2}
use sbnb.Migration.Fine.{KeptByCommit}
use sbnb.Migration.{
  Attempt, raised, returned, uncaught, Event, scheduled_retry, reset_retry, State, World,
  commit_v2_migration, rollback_v2_migration,
}
use sbnb.Migration.Fine.{is_fine, Keeps, KeptByCommit-commit}
use sbnb.Migration.Uncommitted.{
  has_committed, has_committed-Skips, uncommitted-rollback, UncommittedWhenFalse,
  UncommittedWhenFalse-commit,
}
use sbnb.Migration.Apps.Quiet.{quiet-publish_legacy}
use sbnb.Migration.Apply.{
  Warning, Progress, schedule_or_reset, publish_restored, roll_back, commit_reply, finish_migration,
}
use sbnb.Migration.Apply.Quiet.{quiet-schedule}

-- No event of the list is a failure.
abbrev pub is_clean : List Event → Bool
is_clean [] = true
is_clean (e ∷ es) = is_fine e && is_clean es

pub is_clean-Keeps : Keeps is_clean
is_clean-Keeps e es f h = ground arith

uncommitted-publish_restored :
    (w : World) (s : State) (wanted : String → Bool) (r : List Event × Bool)
    → has_committed (publish_restored w s wanted r) ≡ has_committed r.0
unfolding publish_restored
uncommitted-publish_restored w s wanted (es, true) =
    quiet-publish_legacy true has_committed (has_committed-Skips true) _ wanted s.apps es
uncommitted-publish_restored w s wanted (es, false) = refl

pub uncommitted-roll_back :
    (w : World) (s : State) (wanted : String → Bool) (es : List Event)
    → has_committed (roll_back w s wanted es) ≡ has_committed es
unfolding roll_back
uncommitted-roll_back w s wanted es =
    uncommitted-publish_restored w s wanted (rollback_v2_migration w s es)
    ∙ uncommitted-rollback w s es

module _ (m : List Event → Bool) (keeps : Keeps m) where
  kept-schedule :
      (warnings : List Warning) (es : List Event)
      → m es ≡ true
      → m (schedule_or_reset warnings es).0 ≡ true
  unfolding schedule_or_reset
  kept-schedule warnings es h =
      ground (arith, keeps scheduled_retry es refl h, keeps reset_retry es refl h)

  kept-commit_reply :
      (w : World) (s : State) (pr : Progress) (r : List Event × Attempt Bool)
      → UncommittedWhenFalse r
      → KeptByCommit m r
      → has_committed (commit_reply w s pr r).0 ≡ true
      → m (commit_reply w s pr r).0 ≡ true
  unfolding commit_reply
  kept-commit_reply w s pr (es, returned true) u k h =
      kept-schedule _ _ (kept-publish_v2 m keeps pr.prepared_apps s.apps es k)
  kept-commit_reply w s pr (es, raised name) u k h = keeps (uncaught name) es refl k
  kept-commit_reply w s pr (es, returned false) u k h = absurd (
      true≢false (
        sym h
        ∙ quiet-schedule true has_committed (has_committed-Skips true) _ _
        ∙ uncommitted-roll_back w s _ es
        ∙ u))

-- the two ends of a migration
finish_failed :
    (w : World) (s : State) (pr : Progress)
    → pr.migration_failed ≡ true
    → has_committed (finish_migration w s pr).0 ≡ has_committed pr.events
unfolding finish_migration
finish_failed w s pr e = rw e (
    quiet-schedule true has_committed (has_committed-Skips true) _ _
    ∙ uncommitted-roll_back w s _ pr.events)

finish_committing :
    (w : World) (s : State) (pr : Progress)
    → pr.migration_failed ≡ false
    → finish_migration w s pr ≡ commit_reply w s pr (commit_v2_migration w pr.events)
unfolding finish_migration
finish_committing w s pr e = rw e refl

pub unfailed-finish :
    (w : World) (s : State) (pr : Progress)
    → has_committed pr.events ≡ false
    → has_committed (finish_migration w s pr).0 ≡ true
    → pr.migration_failed ≡ false
unfailed-finish w s pr u h = ground (arith, finish_failed w s pr)

pub kept-finish :
    (m : List Event → Bool) (keeps : Keeps m) (w : World) (s : State) (pr : Progress)
    → has_committed pr.events ≡ false
    → m pr.events ≡ true
    → has_committed (finish_migration w s pr).0 ≡ true
    → m (finish_migration w s pr).0 ≡ true
kept-finish m keeps w s pr u k h =
    let same = finish_committing w s pr (unfailed-finish w s pr u h) in
    ap (λ (x : List Event × List Warning). m x.0) same
    ∙ kept-commit_reply m keeps w s pr (commit_v2_migration w pr.events)
        (UncommittedWhenFalse-commit w pr.events u) (KeptByCommit-commit m keeps w pr.events k)
        (ap (λ (x : List Event × List Warning). has_committed x.0) (sym same) ∙ h)
