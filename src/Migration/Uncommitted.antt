-- ===== src/Migration/Uncommitted.antt =====
-- dataplane.py: the steps of a migration that do not commit it.
use sbnb.Prelude.{
  Option-cases, Option, some, none, Bool-cases, inl, inr, ◌&&◌, String, Bool, true, false, ◌||◌,
  ◌≡◌, refl, ◌∙◌, List, [], ◌∷◌, arith,
}
use sbnb.Migration.{
  Attempt, returned, marker_reply, removal_reply, after_down, ran, down_legacy, conclude_start,
  stop_legacy, remove_legacy, remove_system, start_system, stop_app, Event, committed, App, State,
  World, run_compose_command, and_then, release_legacy, clear_signatures, prepare_v2_system_handoff,
  start_prepared_system_project, stop_projects, remove_system_if_present, restore_legacy,
  rollback_v2_migration, commit_v2_migration, write_marker, legacy_system_services, Command,
}
use sbnb.Migration.Quiet.{Skips}

abbrev pub is_commit : Event → Bool
is_commit committed = true
is_commit _ = false

-- The migration was committed.
abbrev pub has_committed : List Event → Bool
has_committed [] = false
has_committed (e ∷ es) = is_commit e || has_committed es

pub has_committed-Skips : (migration : Bool) → Skips migration has_committed
has_committed-Skips migration e es h = ground arith

module _ (w : World) where
  uncommitted-run :
      (c : Command) (es : List Event)
      → has_committed (run_compose_command w c es).0 ≡ has_committed es
  unfolding run_compose_command
  uncommitted-run c es = refl

  uncommitted-and_then :
      (r : List Event × Bool) (next : List Event → List Event × Bool)
      → ((es : List Event) → has_committed (next es).0 ≡ has_committed es)
      → has_committed (and_then r next).0 ≡ has_committed r.0
  unfolding and_then
  uncommitted-and_then (es, true) next h = h es
  uncommitted-and_then (es, false) next h = refl

  uncommitted-release :
      (names : List String) (es : List Event)
      → has_committed (release_legacy w names es).0 ≡ has_committed es
  unfolding release_legacy run_compose_command
  uncommitted-release [] es = refl
  uncommitted-release (n ∷ names) es =
      uncommitted-and_then (run_compose_command w stop_legacy es)
        (run_compose_command w remove_legacy) (uncommitted-run remove_legacy)

  uncommitted-handoff :
      (s : State) (names : List String) (es : List Event)
      → has_committed (prepare_v2_system_handoff w s names es).0 ≡ has_committed es
  unfolding prepare_v2_system_handoff clear_signatures run_compose_command
  uncommitted-handoff s names es =
      let removed = run_compose_command w remove_system es in
      uncommitted-and_then (and_then removed (release_legacy w names)) (clear_signatures s)
        (λ fs. refl)
      ∙ uncommitted-and_then removed (release_legacy w names) (uncommitted-release names)

  uncommitted-conclude :
      (s : State) (r : List Event × Bool) → has_committed (conclude_start s r).0 ≡ has_committed r.0
  unfolding conclude_start
  uncommitted-conclude s (es, true) = refl
  uncommitted-conclude s (es, false) = refl

  pub uncommitted-start_system :
      (s : State) (es : List Event)
      → has_committed (start_prepared_system_project w s es).0 ≡ has_committed es
  unfolding start_prepared_system_project
  uncommitted-start_system s es =
      let names = legacy_system_services s.instances w.legacy_services in
      let handoff = prepare_v2_system_handoff w s names es in
      uncommitted-conclude s (and_then handoff (run_compose_command w start_system))
      ∙ uncommitted-and_then handoff (run_compose_command w start_system)
          (uncommitted-run start_system)
      ∙ uncommitted-handoff s names es

  uncommitted-stop_projects :
      (apps : List App) (r : List Event × Bool)
      → has_committed (stop_projects w apps r).0 ≡ has_committed r.0
  unfolding stop_projects run_compose_command
  uncommitted-stop_projects [] (es, b) = refl
  uncommitted-stop_projects (a ∷ apps) (es, b) = ground (
    arith,
    uncommitted-stop_projects apps (es, b),
    uncommitted-stop_projects apps (
      (run_compose_command w (stop_app a.project_name) es).0,
      b && (run_compose_command w (stop_app a.project_name) es).1,
    ),
  )

  uncommitted-remove_system :
      (s : State) (r : List Event × Bool)
      → has_committed (remove_system_if_present w s r).0 ≡ has_committed r.0
  unfolding remove_system_if_present run_compose_command
  uncommitted-remove_system s (es, b) = ground arith

  uncommitted-restore :
      (r : List Event × Bool) → has_committed (restore_legacy w r).0 ≡ has_committed r.0
  unfolding restore_legacy run_compose_command
  uncommitted-restore (es, b) = refl

  pub uncommitted-rollback :
      (s : State) (es : List Event)
      → has_committed (rollback_v2_migration w s es).0 ≡ has_committed es
  unfolding rollback_v2_migration
  uncommitted-rollback s es =
      let stopped = stop_projects w s.apps (es, true) in
      uncommitted-restore (remove_system_if_present w s stopped)
      ∙ uncommitted-remove_system s stopped
      ∙ uncommitted-stop_projects s.apps (es, true)

-- A commit that answers no leaves no trace of one.
abbrev pub UncommittedWhenFalse : List Event × Attempt Bool → Type 0
UncommittedWhenFalse (es, returned false) = has_committed es ≡ false
UncommittedWhenFalse (es, _) = Unit

answered_or_raised :
    (w : World) (es : List Event) (o : Option String) → UncommittedWhenFalse (marker_reply w es o)
unfolding marker_reply removal_reply
answered_or_raised w es (some name) = tt
answered_or_raised w es none = elim (Option-cases (w.removal_error (committed ∷ es))) [
  | inl e ↦ rw e tt
  | inr (name, e) ↦ rw e tt
]

UncommittedWhenFalse-after_down :
    (w : World) (r : List Event × Bool)
    → has_committed r.0 ≡ false
    → UncommittedWhenFalse (after_down w r)
unfolding after_down write_marker
UncommittedWhenFalse-after_down w (es, true) h = answered_or_raised w es (w.marker_error es)
UncommittedWhenFalse-after_down w (es, false) h = h

pub UncommittedWhenFalse-commit :
    (w : World) (es : List Event)
    → has_committed es ≡ false
    → UncommittedWhenFalse (commit_v2_migration w es)
unfolding commit_v2_migration write_marker run_compose_command
UncommittedWhenFalse-commit w es h = elim (Bool-cases (w.legacy_file_exists es)) [
  | inl e ↦ rw e (
      UncommittedWhenFalse-after_down w
        (ran down_legacy (w.runs es down_legacy) ∷ es, w.runs es down_legacy) h)
  | inr e ↦ rw e (answered_or_raised w es (w.marker_error es))
]
