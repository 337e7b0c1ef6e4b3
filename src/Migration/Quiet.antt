-- ===== src/Migration/Quiet.antt =====
-- dataplane.py: what is recorded of a command that leaves the legacy project alone.
use sbnb.Prelude.{
  ◌||◌, inr, inl, Bool-cases, Bool, true, false, not, ◌≡◌, refl, ◌∙◌, String, List, [], ◌∷◌, arith,
}
use sbnb.Migration.{
  down_project, Command, stop_legacy, remove_legacy, up_legacy, down_legacy, stop_legacy_app,
  start_legacy_app, Event, ran, committed, uncaught, World, run_compose_command, remove_project,
  remove_each, remove_absent_v2_projects,
}

-- whether a command acts on the legacy project
abbrev pub is_legacy : Command → Bool
is_legacy stop_legacy = true
is_legacy remove_legacy = true
is_legacy up_legacy = true
is_legacy down_legacy = true
is_legacy (stop_legacy_app _) = true
is_legacy (start_legacy_app _) = true
is_legacy _ = false

-- An event that leaves the legacy project alone, or, while it is migrated, neither commits nor is an
-- exception.
abbrev pub is_quiet : Bool → Event → Bool
is_quiet migration (ran c ok) = migration || not (is_legacy c)
is_quiet migration committed = false
is_quiet migration (uncaught _) = false
is_quiet migration _ = true

-- A reading of the events, latest first, that passes over the quiet ones.
abbrev pub Skips : Bool → (List Event → Bool) → Type 0
Skips migration m = (e : Event) (es : List Event) → is_quiet migration e ≡ true → m (e ∷ es) ≡ m es

-- a command that is quiet however the legacy project stands
pub quiet-ran :
    (migration : Bool) (c : Command) (ok : Bool)
    → is_legacy c ≡ false
    → is_quiet migration (ran c ok) ≡ true
quiet-ran migration c ok h = ground arith

pub quiet_migrating :
    (migration : Bool) (c : Command) (ok : Bool)
    → migration ≡ true
    → is_quiet migration (ran c ok) ≡ true
quiet_migrating migration c ok h = ground arith

module _ (migration : Bool) (m : List Event → Bool) (skips : Skips migration m) (w : World) where
  quiet-remove_project : (name : String) (es : List Event) → m (remove_project w name es) ≡ m es
  unfolding remove_project run_compose_command
  quiet-remove_project name es = elim (Bool-cases (w.compose_exists es name)) [
    | inl e ↦ rw e (
        skips _ (ran (down_project name) _ ∷ es) refl
        ∙ skips _ es (quiet-ran migration (down_project name) (w.runs es (down_project name)) refl))
    | inr e ↦ rw e (skips _ es refl)
  ]

  quiet-remove_each :
      (desired names : List String) (es : List Event) → m (remove_each w desired names es) ≡ m es
  unfolding remove_each
  quiet-remove_each desired [] es = refl
  quiet-remove_each desired (name ∷ names) es = ground (
    arith,
    quiet-remove_each desired names es,
    quiet-remove_each desired names (remove_project w name es),
    quiet-remove_project name es,
  )

  pub quiet-remove_absent :
      (desired : List String) (es : List Event) → m (remove_absent_v2_projects w desired es) ≡ m es
  unfolding remove_absent_v2_projects
  quiet-remove_absent desired es = quiet-remove_each desired (w.project_entries es) es
