-- ===== src/Migration/Apply/Committed.antt =====
-- dataplane.py: what has happened when a migration is committed.
use sbnb.Migration.Apps.Wanted.{Agrees}
use sbnb.Prelude.{
  String, All-map, All, ap, Bool, true, false, ◌≡◌, refl, sym, ◌∙◌, List, [], ◌∷◌, Bool-cases, inl,
  inr,
}
use mathlib.Core.Bool.{true≢false}
use mathlib.Core.Path.{subst⁻¹}
use sbnb.Migration.Apply.TwoPhase.{prepared_by}
use sbnb.Migration.{
  Event, reset_retry, prepared_system, App, State, World, v2_migration_pending, run_compose_command,
  start_prepared_system_project,
}
use sbnb.Migration.Fine.{KeptBy, KeptBy-start_system}
use sbnb.Migration.Uncommitted.{has_committed, has_committed-Skips, uncommitted-start_system}
use sbnb.Migration.Apps.Quiet.{quiet-publish_legacy}
use sbnb.Migration.Apps.Brought.{brought_in, brought_in-Keeps}
use sbnb.Migration.Apply.{
  system_warning, is_prepared, Warning, Progress, Request, finish_migration, reconcile_all,
  start_system_reply, after_preparation, migrate, reconcile_system, apply_v2_projects,
}
use sbnb.Migration.Apply.Quiet.{quiet-schedule, quiet-prepare_each, quiet-reconcile_all}
use sbnb.Migration.Apply.Succeeded.{
  Wants, agreed-prepare_each, kept-prepare_each, kept-reconcile_all, brought-reconcile_all,
}
use sbnb.Migration.Apply.Finish.{
  uncommitted-roll_back, unfailed-finish, kept-finish, is_clean, is_clean-Keeps,
}

-- what is shown of the events of a migration that is committed
abbrev IsComplete : World → List Event → Type 0
IsComplete w es = (is_clean es ≡ true) × All (λ (a : App). brought_in a es ≡ true) w.reconcile_order

module _ (w : World) (s : State) (q : Request) (wants : String → Bool)
    (of_first : Wants wants w.preparation_order) (of_second : Wants wants w.reconcile_order) where
  IsComplete-along :
      {x y : List Event × List Warning}
      → x ≡ y
      → (has_committed y.0 ≡ true → IsComplete w y.0)
      → has_committed x.0 ≡ true
      → IsComplete w x.0
  IsComplete-along p f h =
      subst⁻¹ (λ (z : List Event × List Warning). IsComplete w z.0) p
        (f (sym (ap (λ (z : List Event × List Warning). has_committed z.0) p) ∙ h))

  IsComplete-finish :
      (pr : Progress)
      → has_committed pr.events ≡ false
      → is_clean pr.events ≡ true
      → Agrees wants pr.prepared_apps
      → has_committed (finish_migration w s (reconcile_all w s q true pr)).0 ≡ true
      → IsComplete w (finish_migration w s (reconcile_all w s q true pr)).0
  IsComplete-finish pr u k g h =
      let after = reconcile_all w s q true pr in
      let none_yet =
        quiet-reconcile_all true has_committed (has_committed-Skips true) w q s pr ∙ u in
      let unfailed = unfailed-finish w s after none_yet h in
      (
        kept-finish is_clean is_clean-Keeps w s after none_yet
            (kept-reconcile_all w q is_clean is_clean-Keeps s pr k unfailed) h,
        All-map _ _ w.reconcile_order
            (λ a b. kept-finish (brought_in a) (brought_in-Keeps a) w s after none_yet b h)
            (brought-reconcile_all wants w q s pr of_second g unfailed),
      )

  IsComplete-start :
      (pr : Progress) (r : List Event × Bool)
      → has_committed r.0 ≡ false
      → KeptBy is_clean r
      → Agrees wants pr.prepared_apps
      → has_committed (start_system_reply w s q pr r).0 ≡ true
      → IsComplete w (start_system_reply w s q pr r).0
  unfolding start_system_reply
  IsComplete-start pr (es, false) u k g h =
      absurd (true≢false (sym h ∙ uncommitted-roll_back w s (is_prepared pr.prepared_apps) es ∙ u))
  IsComplete-start pr (es, true) u k g h = IsComplete-finish (record pr { events = es }) u k g h

  -- the two ends of the first pool
  abandoned :
      (pr : Progress)
      → pr.migration_failed ≡ true
      → has_committed (after_preparation w s q pr).0 ≡ has_committed pr.events
  unfolding after_preparation
  abandoned pr e = rw e (
      quiet-schedule true has_committed (has_committed-Skips true) _ _
      ∙ quiet-publish_legacy true has_committed (has_committed-Skips true) _ _ s.apps pr.events)

  going_on :
      (pr : Progress)
      → pr.migration_failed ≡ false
      → after_preparation w s q pr
        ≡ start_system_reply w s q pr (start_prepared_system_project w s pr.events)
  unfolding after_preparation
  going_on pr e = rw e refl

  IsComplete-after_preparation :
      (pr : Progress)
      → has_committed pr.events ≡ false
      → (pr.migration_failed ≡ false → is_clean pr.events ≡ true)
      → Agrees wants pr.prepared_apps
      → has_committed (after_preparation w s q pr).0 ≡ true
      → IsComplete w (after_preparation w s q pr).0
  unfolding after_preparation
  IsComplete-after_preparation pr u k g h = elim (Bool-cases pr.migration_failed) [
    | inl e ↦ absurd (true≢false (sym h ∙ abandoned pr e ∙ u))
    | inr e ↦
        IsComplete-along (going_on pr e)
          (IsComplete-start pr _ (uncommitted-start_system w s pr.events ∙ u)
            (KeptBy-start_system is_clean is_clean-Keeps w s pr.events (k e)) g)
          h
  ]

  unprepared :
      w.prepare_system [] ≡ false
      → migrate w s q ≡ (reset_retry ∷ prepared_system false ∷ [], system_warning ∷ [])
  unfolding migrate
  unprepared e = rw e refl

  system_is_prepared :
      w.prepare_system [] ≡ true → migrate w s q ≡ after_preparation w s q (prepared_by w q)
  unfolding migrate
  system_is_prepared e = rw e refl

  IsComplete-migrate : has_committed (migrate w s q).0 ≡ true → IsComplete w (migrate w s q).0
  unfolding migrate
  IsComplete-migrate h = elim (Bool-cases (w.prepare_system [])) [
    | inr e ↦ absurd (
        true≢false
          (sym h ∙ ap (λ (x : List Event × List Warning). has_committed x.0) (unprepared e)))
    | inl e ↦
        IsComplete-along (system_is_prepared e)
          (IsComplete-after_preparation (prepared_by w q)
            (quiet-prepare_each true has_committed (has_committed-Skips true) w q
              w.preparation_order _)
            (kept-prepare_each w q is_clean is_clean-Keeps w.preparation_order _ refl)
            (agreed-prepare_each wants w q w.preparation_order _ of_first tt))
          h
  ]

  migrating : v2_migration_pending w ≡ true → apply_v2_projects w s q ≡ migrate w s q
  unfolding apply_v2_projects
  migrating e = rw e refl

-- When `_apply_v2_projects` commits a migration, no command, preparation or start that it reads has
-- failed, and each app of the second pool has had its own project stopped, if it is to be stopped,
-- and started otherwise. The apps of one id agree on whether they are to be stopped.
pub committed-IsComplete :
    (w : World) (s : State) (q : Request) (wants : String → Bool)
    → Wants wants w.preparation_order
    → Wants wants w.reconcile_order
    → has_committed (apply_v2_projects w s q).0 ≡ true
    → (is_clean (apply_v2_projects w s q).0 ≡ true)
      × All (λ (a : App). brought_in a (apply_v2_projects w s q).0 ≡ true) w.reconcile_order
unfolding apply_v2_projects reconcile_system run_compose_command
committed-IsComplete w s q wants of_first of_second h = elim (Bool-cases (v2_migration_pending w)) [
  | inl e ↦
      IsComplete-along w s q wants of_first of_second (migrating w s q wants of_first of_second e)
        (IsComplete-migrate w s q wants of_first of_second) h
  | inr e ↦ absurd (
      true≢false (
        sym h
        ∙ rw e (
            quiet-schedule false has_committed (has_committed-Skips false) _ _
            ∙ quiet-reconcile_all false has_committed (has_committed-Skips false) w q s _)))
]
