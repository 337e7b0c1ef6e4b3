-- ===== src/Migration/Fine.antt =====
-- dataplane.py: what is recorded when nothing of the hand-off fails.
use sbnb.Prelude.{
  Option-cases, String, Bool, true, false, ◌≡◌, refl, none, List, [], ◌∷◌, arith, Bool-cases, inl,
  inr,
}
use sbnb.Migration.{
  Attempt, marker_reply, removal_reply, after_down, cleared_signature, wrote_signature,
  conclude_start, Command, stop_legacy, remove_legacy, down_legacy, remove_system, start_system,
  down_project, raised, returned, started, Event, ran, prepared_system, prepared_project,
  prepared_artifacts, started_project, cleared_signatures, removed_project, committed, State, World,
  run_compose_command, and_then, release_legacy, clear_signatures, prepare_v2_system_handoff,
  start_prepared_system_project, write_marker, commit_v2_migration, remove_project, remove_each,
  remove_absent_v2_projects, legacy_system_services,
}

-- The answer of a command, when it is read: the code does not read that of the removal of an old
-- project.
abbrev pub is_fine_answer : Command → Bool → Bool
is_fine_answer (down_project _) ok = true
is_fine_answer c ok = ok

-- The event is no failure of a command, a preparation or a start.
abbrev pub is_fine : Event → Bool
is_fine (ran c ok) = is_fine_answer c ok
is_fine (prepared_system ok) = ok
is_fine (prepared_project _ (returned none)) = true
is_fine (prepared_project _ _) = false
is_fine (prepared_artifacts _ (returned ok)) = ok
is_fine (prepared_artifacts _ (raised _)) = false
is_fine (started_project _ (returned (started _ _))) = true
is_fine (started_project _ _) = false
is_fine (wrote_signature _) = false
is_fine _ = true

-- A reading of the events, latest first, that stays true over a fine event.
abbrev pub Keeps : (List Event → Bool) → Type 0
Keeps m = (e : Event) (es : List Event) → is_fine e ≡ true → m es ≡ true → m (e ∷ es) ≡ true

-- it is true of what a step leaves, when the step succeeds
abbrev pub KeptBy : (List Event → Bool) → List Event × Bool → Type 0
KeptBy m (es, true) = m es ≡ true
KeptBy m (es, false) = Unit

-- it is true of what a commit leaves, when the commit succeeds or raises
abbrev pub KeptByCommit : (List Event → Bool) → List Event × Attempt Bool → Type 0
KeptByCommit m (es, returned false) = Unit
KeptByCommit m (es, _) = m es ≡ true

module _ (m : List Event → Bool) (keeps : Keeps m) (w : World) where
  KeptBy-and_then :
      (r : List Event × Bool) (next : List Event → List Event × Bool)
      → KeptBy m r
      → ((es : List Event) → m es ≡ true → KeptBy m (next es))
      → KeptBy m (and_then r next)
  unfolding and_then
  KeptBy-and_then (es, true) next h k = k es h
  KeptBy-and_then (es, false) next h k = tt

  KeptBy-answer :
      (c : Command) (ok : Bool) (es : List Event)
      → is_fine_answer c true ≡ true
      → m es ≡ true
      → KeptBy m (ran c ok ∷ es, ok)
  KeptBy-answer c true es f h = keeps (ran c true) es f h
  KeptBy-answer c false es f h = tt

  pub KeptBy-run :
      (c : Command) (es : List Event)
      → is_fine_answer c true ≡ true
      → m es ≡ true
      → KeptBy m (run_compose_command w c es)
  unfolding run_compose_command
  KeptBy-run c es f h = KeptBy-answer c (w.runs es c) es f h

  KeptBy-release :
      (names : List String) (es : List Event) → m es ≡ true → KeptBy m (release_legacy w names es)
  unfolding release_legacy
  KeptBy-release [] es h = h
  KeptBy-release (n ∷ names) es h =
      KeptBy-and_then _ _ (KeptBy-run stop_legacy es refl h)
        (λ fs k. KeptBy-run remove_legacy fs refl k)

  KeptBy-handoff :
      (s : State) (names : List String) (es : List Event)
      → m es ≡ true
      → KeptBy m (prepare_v2_system_handoff w s names es)
  unfolding prepare_v2_system_handoff clear_signatures
  KeptBy-handoff s names es h =
      KeptBy-and_then _ _
        (KeptBy-and_then _ _ (KeptBy-run remove_system es refl h) (KeptBy-release names))
        (λ fs k. keeps (cleared_signatures s.system_name) fs refl k)

  KeptBy-conclude : (s : State) (r : List Event × Bool) → KeptBy m r → KeptBy m (conclude_start s r)
  unfolding conclude_start
  KeptBy-conclude s (es, true) h = keeps (cleared_signature s.system_name) es refl h
  KeptBy-conclude s (es, false) h = tt

  pub KeptBy-start_system :
      (s : State) (es : List Event) → m es ≡ true → KeptBy m (start_prepared_system_project w s es)
  unfolding start_prepared_system_project
  KeptBy-start_system s es h = KeptBy-conclude s _ (
      KeptBy-and_then _ _
        (KeptBy-handoff s (legacy_system_services s.instances w.legacy_services) es h)
        (λ fs k. KeptBy-run start_system fs refl k))

  KeptByCommit-marker : (es : List Event) → m es ≡ true → KeptByCommit m (write_marker w es)
  unfolding write_marker marker_reply removal_reply
  KeptByCommit-marker es h = elim (Option-cases (w.marker_error es)) [
    | inr (name, e) ↦ rw e h
    | inl e ↦ elim (Option-cases (w.removal_error (committed ∷ es))) [
      | inr (name, d) ↦ rw (e, d) (keeps committed es refl h)
      | inl d ↦ rw (e, d) (keeps committed es refl h)
    ]
  ]

  KeptByCommit-after_down : (r : List Event × Bool) → KeptBy m r → KeptByCommit m (after_down w r)
  unfolding after_down
  KeptByCommit-after_down (es, true) h = KeptByCommit-marker es h
  KeptByCommit-after_down (es, false) h = tt

  pub KeptByCommit-commit :
      (es : List Event) → m es ≡ true → KeptByCommit m (commit_v2_migration w es)
  unfolding commit_v2_migration
  KeptByCommit-commit es h = elim (Bool-cases (w.legacy_file_exists es)) [
    | inl e ↦ rw e (KeptByCommit-after_down _ (KeptBy-run down_legacy es refl h))
    | inr e ↦ rw e (KeptByCommit-marker es h)
  ]

  kept-remove_project :
      (name : String) (es : List Event) → m es ≡ true → m (remove_project w name es) ≡ true
  unfolding remove_project run_compose_command
  kept-remove_project name es h = elim (Bool-cases (w.compose_exists es name)) [
    | inl e ↦ rw e (
        keeps _ (ran (down_project name) _ ∷ es) refl
          (keeps (ran (down_project name) (w.runs es (down_project name))) es refl h))
    | inr e ↦ rw e (keeps (removed_project name) es refl h)
  ]

  kept-remove_each :
      (desired names : List String) (es : List Event)
      → m es ≡ true
      → m (remove_each w desired names es) ≡ true
  unfolding remove_each
  kept-remove_each desired [] es h = h
  kept-remove_each desired (name ∷ names) es h = ground (
    arith,
    kept-remove_each desired names es,
    kept-remove_each desired names (remove_project w name es),
    kept-remove_project name es,
  )

  pub kept-remove_absent :
      (desired : List String) (es : List Event)
      → m es ≡ true
      → m (remove_absent_v2_projects w desired es) ≡ true
  unfolding remove_absent_v2_projects
  kept-remove_absent desired es h = kept-remove_each desired (w.project_entries es) es h
