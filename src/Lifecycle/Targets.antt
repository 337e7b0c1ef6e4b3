-- ===== src/Lifecycle/Targets.antt =====
-- When newer desired state supersedes the app that a worker is applying.
use sbnb.Prelude.{
  true, false, Option-cases, List, ℕ, eq_refl, String, ◌≡◌, refl, Bool, Option, none, some, [], ◌∷◌,
  arith, str_eq, eq_iff, inl, inr, Bool-cases, is_some, if◌then◌else◌,
}
use mathlib.Core.Path.{subst}
use mathlib.Core.Option.{some-injective}
use sbnb.Json.{Json, null, boolean, int, neg, float, real, text, array, object, truthy}
use sbnb.Json.Access.{get?, each}
use sbnb.Prelude.Dict.{Dict, lookup, insert, lookup-insert, HasUniqueKeys, HasUniqueKeys-insert}
use sbnb.Lifecycle.{
  target_of, add_target, targets_from, app_desired_generation, is_v2_state, new_targets,
  set_project_targets, is_current_app_superseded, Context, generation, differs, each, Context, get?,
  truthy, is_current_app_superseded, differs, is_v2_state, target_of, set_project_targets,
  targets_from, Json, new_targets, add_target, Target, gone, retire, merge, replace_targets,
}

-- what a lookup gives after `retire`
abbrev retired : Bool → Option Target → Option Target
retired listed none = none
retired listed (some t) = some (if listed then t else gone)

lookup-retire :
    (targets old : Dict Target) (p : String)
    → lookup p (retire targets old) ≡ retired (is_some (lookup p targets)) (lookup p old)
unfolding lookup retire
lookup-retire targets [] p = refl
lookup-retire targets ((q, t) ∷ old) p = elim (Bool-cases (str_eq q p)) [
  | inl e ↦ rw ((eq_iff q p).0 e) (rw (eq_refl p))
  | inr e ↦ rw e (lookup-retire targets old p)
]

abbrev or_else : Option Target → Option Target → Option Target
or_else none u = u
or_else (some t) u = some t

lookup-merge :
    (targets old : Dict Target) (p : String)
    → HasUniqueKeys targets
    → lookup p (merge targets old) ≡ or_else (lookup p targets) (lookup p old)
unfolding lookup merge
lookup-merge [] old p u = refl
lookup-merge ((q, t) ∷ targets) old p u = elim (Bool-cases (str_eq q p)) [
  | inl e ↦
      let same : q ≡ p = (eq_iff q p).0 e in
      rw (lookup-merge targets (insert q t old) p u.1, lookup-insert q p t old, e, rw same at u.0)
  | inr e ↦ rw (lookup-merge targets (insert q t old) p u.1, lookup-insert q p t old, e)
]

-- A project that the new state lists has its new generation; one that only the old targets know is
-- gone; any other stays unknown.
abbrev pub expected : Option Target → Option Target → Option Target
expected (some t) old = some t
expected none (some old) = some gone
expected none none = none

pub lookup-replace_targets :
    (targets old : Dict Target) (p : String)
    → HasUniqueKeys targets
    → lookup p (replace_targets targets old) ≡ expected (lookup p targets) (lookup p old)
unfolding replace_targets
lookup-replace_targets targets old p u =
    rw (lookup-merge targets (retire targets old) p u) (ground (arith, lookup-retire targets old p))

unique_of_other :
    (name app : Json) (targets t : Dict Target)
    → HasUniqueKeys targets
    → (if truthy name then none else some targets) ≡ some t
    → HasUniqueKeys t
unique_of_other name app targets t u h = elim (Bool-cases (truthy name)) [
  | inl e ↦ cc (rw e at h)
  | inr e ↦ subst HasUniqueKeys (some-injective _ _ (rw e at h)) u
]

HasUniqueKeys-add_target :
    (name app : Json) (targets t : Dict Target)
    → HasUniqueKeys targets
    → add_target name app targets ≡ some t
    → HasUniqueKeys t
unfolding add_target
HasUniqueKeys-add_target (text p) app targets t u h = elim (Bool-cases (truthy (text p))) [
  | inl e ↦ elim (Option-cases (app_desired_generation app)) [
    | inl q ↦ cc (rw (e, q) at h)
    | inr (g, q) ↦
        subst HasUniqueKeys (some-injective _ _ (rw (e, q) at h))
          (HasUniqueKeys-insert p (generation g) targets u)
  ]
  | inr e ↦ subst HasUniqueKeys (some-injective _ _ (rw e at h)) u
]
HasUniqueKeys-add_target null app targets t u h = unique_of_other null app targets t u h
HasUniqueKeys-add_target (boolean b) app targets t u h =
    unique_of_other (boolean b) app targets t u h
HasUniqueKeys-add_target (int b) app targets t u h = unique_of_other (int b) app targets t u h
HasUniqueKeys-add_target (neg b) app targets t u h = unique_of_other (neg b) app targets t u h
HasUniqueKeys-add_target (float b) app targets t u h = unique_of_other (float b) app targets t u h
HasUniqueKeys-add_target (real b) app targets t u h = unique_of_other (real b) app targets t u h
HasUniqueKeys-add_target (array b) app targets t u h = unique_of_other (array b) app targets t u h
HasUniqueKeys-add_target (object b) app targets t u h = unique_of_other (object b) app targets t u h

HasUniqueKeys-target_of :
    (app : Json) (targets t : Dict Target)
    → HasUniqueKeys targets
    → target_of app targets ≡ some t
    → HasUniqueKeys t
unfolding target_of
HasUniqueKeys-target_of app targets t u h = elim (Option-cases (get? "project_name" app)) [
  | inl e ↦ cc (rw e at h)
  | inr (name, e) ↦ HasUniqueKeys-add_target name app targets t u (rw e at h)
]

HasUniqueKeys-targets_from :
    (apps : List Json) (targets t : Dict Target)
    → HasUniqueKeys targets
    → targets_from apps targets ≡ some t
    → HasUniqueKeys t
unfolding targets_from
HasUniqueKeys-targets_from [] targets t u h = subst HasUniqueKeys (some-injective _ _ h) u
HasUniqueKeys-targets_from (app ∷ apps) targets t u h =
    elim (Option-cases (target_of app targets)) [
      | inl e ↦ cc (rw (e, targets_from) at h)
      | inr (next, e) ↦
          HasUniqueKeys-targets_from apps next t (HasUniqueKeys-target_of app targets next u e)
            (rw (e, targets_from) at h)
    ]

HasUniqueKeys-new_targets :
    (state : Json) (listed : Dict Target) → new_targets state ≡ some listed → HasUniqueKeys listed
unfolding new_targets
HasUniqueKeys-new_targets state listed h = elim (Option-cases (get? "apps" state)) [
  | inl e ↦ cc (rw e at h)
  | inr (apps, e) ↦ elim (Option-cases (each apps)) [
    | inl q ↦ cc (rw (e, q) at h)
    | inr (list, q) ↦ HasUniqueKeys-targets_from list [] listed tt (rw (e, q) at h)
  ]
]

-- whether a worker that applies generation `g` of a project is to stop
abbrev pub verdict : Option Target → Option Target → Option ℕ → Bool
verdict (some t) old g = differs t g
verdict none (some old) g = true
verdict none none g = false

-- After new schema-v2 state is taken over, the worker of a named project is superseded exactly when
-- the state lists the project with another generation, or no longer lists a project that had a
-- target; a project that neither knows is not superseded.
pub superseded_after :
    (state : Json) (listed old targets : Dict Target) (c : Context)
    → is_v2_state state ≡ true
    → new_targets state ≡ some listed
    → set_project_targets state old ≡ some targets
    → str_eq c.project_name "" ≡ false
    → is_current_app_superseded (some c) targets
      ≡ verdict (lookup c.project_name listed) (lookup c.project_name old) c.desired_generation
unfolding set_project_targets is_current_app_superseded
superseded_after state listed old targets c v n h p =
    let same : replace_targets listed old ≡ targets = some-injective _ _ (rw (v, n) at h) in
    rw (p, ← same)
      (ground (
        arith,
        lookup-replace_targets listed old c.project_name (HasUniqueKeys-new_targets state listed n),
      ))

-- State of another schema leaves the targets alone.
pub set_project_targets-other :
    (state : Json) (old : Dict Target)
    → is_v2_state state ≡ false
    → set_project_targets state old ≡ some old
unfolding set_project_targets
set_project_targets-other state old h = rw h
