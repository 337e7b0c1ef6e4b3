-- ===== src/Migration/Apply/Succeeded.antt =====
-- dataplane.py: the pools of `_apply_v2_projects`, when no worker fails.
use sbnb.Migration.Apps.Wanted.{
  Agrees, Agrees-insert, Agrees-lookup, PreparedFor, AppliedFor, for-prepare_v2_app,
  for-reconcile_v2_app,
}
use sbnb.Prelude.{
  Bool-cases, inl, inr, some, none, sym, ◌∙◌, String, All, Bool, true, false, ◌≡◌, Option, List, [],
  ◌∷◌, arith, elem,
}
use sbnb.Prelude.Dict.{lookup}
use sbnb.Migration.{Event, App, State, World}
use sbnb.Migration.Fine.{Keeps, kept-remove_absent}
use sbnb.Migration.Apps.{Prepared, Preparation, refused, ready, Outcome, failed, applied}
use sbnb.Migration.Apps.Fine.{
  KeptByPreparation, KeptByOutcome, kept-prepare_v2_app, kept-reconcile_v2_app,
}
use sbnb.Migration.Apps.Brought.{brought_in, brought_in-Keeps, brought-reconcile_v2_app}
use sbnb.Migration.Apply.{
  is_superseded_code, keep_health, Progress, Request, note_failure, collect_preparation, is_forced,
  prepare_each, add_optional, collect_failure, collect_outcome, reconcile_each, reconcile_all,
  desired_projects,
}
use sbnb.Migration.Apply.TwoPhase.{not_yet_failed}

kept-collect_preparation :
    (m : List Event → Bool) (a : App) (r : List Event × Preparation) (pr : Progress)
    → KeptByPreparation m r
    → (collect_preparation a r pr).migration_failed ≡ false
    → m (collect_preparation a r pr).events ≡ true
unfolding collect_preparation note_failure
kept-collect_preparation m a (es, refused c) pr k h = ground arith
kept-collect_preparation m a (es, ready p) pr k h = k

kept-collect_outcome :
    (m : List Event → Bool) (a : App) (given : Option Prepared) (r : List Event × Outcome)
    (pr : Progress)
    → KeptByOutcome m r
    → (collect_outcome a true given r pr).migration_failed ≡ false
    → m (collect_outcome a true given r pr).events ≡ true
unfolding collect_outcome collect_failure note_failure add_optional
kept-collect_outcome m a given (es, failed c fs) pr k h = ground arith
kept-collect_outcome m a given (es, applied p fs) pr k h = k

failed-collect_outcome :
    (a : App) (given : Option Prepared) (r : List Event × Outcome) (pr : Progress)
    → pr.migration_failed ≡ true
    → (collect_outcome a true given r pr).migration_failed ≡ true
unfolding collect_outcome collect_failure note_failure add_optional
failed-collect_outcome a given (es, failed c fs) pr h = ground arith
failed-collect_outcome a given (es, applied p fs) pr h = h

module _ (w : World) (q : Request) where
  failed-reconcile_each :
      (apps : List App) (pr : Progress)
      → pr.migration_failed ≡ true
      → (reconcile_each w q true apps pr).migration_failed ≡ true
  unfolding reconcile_each
  failed-reconcile_each [] pr h = h
  failed-reconcile_each (a ∷ apps) pr h =
      failed-reconcile_each apps _ (failed-collect_outcome a _ _ pr h)

  not_failed_before :
      (apps : List App) (pr : Progress)
      → (reconcile_each w q true apps pr).migration_failed ≡ false
      → pr.migration_failed ≡ false
  not_failed_before apps pr h = ground (arith, failed-reconcile_each apps pr)

  module _ (m : List Event → Bool) (keeps : Keeps m) where
    pub kept-prepare_each :
        (apps : List App) (pr : Progress)
        → m pr.events ≡ true
        → (prepare_each w q apps pr).migration_failed ≡ false
        → m (prepare_each w q apps pr).events ≡ true
    unfolding prepare_each
    kept-prepare_each [] pr k h = k
    kept-prepare_each (a ∷ apps) pr k h =
        kept-prepare_each apps _
          (kept-collect_preparation m a _ pr
            (kept-prepare_v2_app m keeps w a (elem a.instance_uuid q.failed_restores)
              (is_forced q.force_retry a) pr.events k)
            (not_yet_failed w q apps _ h))
          h

    kept-reconcile_each :
        (apps : List App) (pr : Progress)
        → m pr.events ≡ true
        → (reconcile_each w q true apps pr).migration_failed ≡ false
        → m (reconcile_each w q true apps pr).events ≡ true
    unfolding reconcile_each
    kept-reconcile_each [] pr k h = k
    kept-reconcile_each (a ∷ apps) pr k h =
        kept-reconcile_each apps _
          (kept-collect_outcome m a _ _ pr
            (kept-reconcile_v2_app m keeps w a true (elem a.instance_uuid q.failed_restores)
              (lookup a.instance_uuid pr.prepared_apps) pr.events k)
            (not_failed_before apps _ h))
          h

    pub kept-reconcile_all :
        (s : State) (pr : Progress)
        → m pr.events ≡ true
        → (reconcile_all w s q true pr).migration_failed ≡ false
        → m (reconcile_all w s q true pr).events ≡ true
    unfolding reconcile_all
    kept-reconcile_all s pr k h =
        kept-reconcile_each w.reconcile_order _
          (kept-remove_absent m keeps w (desired_projects s.apps) pr.events k) h

-- Apps of one id agree on whether they are to be stopped.
abbrev pub Wants : (String → Bool) → List App → Type 0
Wants wants apps = All (λ (a : App). a.wants_stopped ≡ wants a.instance_uuid) apps

module _ (wants : String → Bool) where
  agreed-collect_preparation :
      (a : App) (r : List Event × Preparation) (pr : Progress)
      → a.wants_stopped ≡ wants a.instance_uuid
      → PreparedFor a.wants_stopped r.1
      → Agrees wants pr.prepared_apps
      → Agrees wants (collect_preparation a r pr).prepared_apps
  unfolding collect_preparation note_failure
  agreed-collect_preparation a (es, refused c) pr e k h = ground (arith, h)
  agreed-collect_preparation a (es, ready p) pr e k h =
      Agrees-insert wants a.instance_uuid p pr.prepared_apps (k ∙ e) h

  agreed-keep_health :
      (a : App) (given : Option Prepared) (p : Prepared) (pr : Progress)
      → p.is_stopped ≡ wants a.instance_uuid
      → Agrees wants pr.prepared_apps
      → Agrees wants (keep_health a given p pr.prepared_apps)
  unfolding keep_health
  agreed-keep_health a none p pr e h = h
  agreed-keep_health a (some q) p pr e h =
      Agrees-insert wants a.instance_uuid p pr.prepared_apps e h

  agreed-collect_outcome :
      (a : App) (given : Option Prepared) (r : List Event × Outcome) (pr : Progress)
      → a.wants_stopped ≡ wants a.instance_uuid
      → AppliedFor a.wants_stopped r.1
      → Agrees wants pr.prepared_apps
      → Agrees wants (collect_outcome a true given r pr).prepared_apps
  unfolding collect_outcome collect_failure note_failure add_optional
  agreed-collect_outcome a given (es, failed c fs) pr e k h =
      elim (Bool-cases (is_superseded_code c)) [ inl b ↦ simp b h | inr b ↦ simp b h ]
  agreed-collect_outcome a given (es, applied p fs) pr e k h =
      agreed-keep_health a given p pr (k ∙ e) h

  module _ (w : World) (q : Request) where
    pub agreed-prepare_each :
        (apps : List App) (pr : Progress)
        → Wants wants apps
        → Agrees wants pr.prepared_apps
        → Agrees wants (prepare_each w q apps pr).prepared_apps
    unfolding prepare_each
    agreed-prepare_each [] pr v h = h
    agreed-prepare_each (a ∷ apps) pr v h = agreed-prepare_each apps _ v.1 (
        agreed-collect_preparation a _ pr v.0
          (for-prepare_v2_app w a (elem a.instance_uuid q.failed_restores)
            (is_forced q.force_retry a) pr.events)
          h)

    -- every app of the second pool is brought into its own project
    brought-reconcile_each :
        (apps : List App) (pr : Progress)
        → Wants wants apps
        → Agrees wants pr.prepared_apps
        → (reconcile_each w q true apps pr).migration_failed ≡ false
        → All (λ (a : App). brought_in a (reconcile_each w q true apps pr).events ≡ true) apps
    unfolding reconcile_each
    brought-reconcile_each [] pr v g h = tt
    brought-reconcile_each (a ∷ apps) pr v g h =
        let wanted : (p : Prepared)
            → lookup a.instance_uuid pr.prepared_apps ≡ some p
            → p.is_stopped ≡ a.wants_stopped =
          λ p e. Agrees-lookup wants a.instance_uuid p pr.prepared_apps g e ∙ sym v.0 in
        (
          kept-reconcile_each w q (brought_in a) (brought_in-Keeps a) apps _
              (kept-collect_outcome (brought_in a) a _ _ pr
                (brought-reconcile_v2_app w a true (elem a.instance_uuid q.failed_restores)
                  (lookup a.instance_uuid pr.prepared_apps) pr.events wanted)
                (not_failed_before w q apps _ h))
              h,
          brought-reconcile_each apps _ v.1
              (agreed-collect_outcome a (lookup a.instance_uuid pr.prepared_apps) _ pr v.0
                (for-reconcile_v2_app w a true (elem a.instance_uuid q.failed_restores)
                  (lookup a.instance_uuid pr.prepared_apps) pr.events wanted)
                g)
              h,
        )

    pub brought-reconcile_all :
        (s : State) (pr : Progress)
        → Wants wants w.reconcile_order
        → Agrees wants pr.prepared_apps
        → (reconcile_all w s q true pr).migration_failed ≡ false
        → All
            (λ (a : App). brought_in a (reconcile_all w s q true pr).events ≡ true)
            w.reconcile_order
    unfolding reconcile_all
    brought-reconcile_all s pr v g h = brought-reconcile_each w.reconcile_order _ v g h
