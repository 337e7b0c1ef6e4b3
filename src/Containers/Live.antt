-- ===== src/Containers/Live.antt =====
-- A live container is chosen where there is one (containers.py).
use sbnb.Prelude.{
  elem-append, String, Bool, true, false, ◌||◌, ◌≡◌, refl, Option, List, [], ◌∷◌, ◌++◌, arith,
  Bool-cases, inl, inr, if◌then◌else◌, elem, str_eq, eq_refl, eq_iff, eq_refl,
}
use sbnb.Json.{equals_nat}
use sbnb.Containers.{
  State, or_text, app_of, preferred_of, add_candidate, first_running, choose, legacy_of,
  resolve_app_container,
}

running-first_running :
    (is_running : String → Bool) (otherwise c : String) (cs : List String)
    → elem c cs ≡ true
    → is_running c ≡ true
    → is_running (first_running is_running otherwise cs) ≡ true
unfolding first_running elem
running-first_running is_running otherwise c [] e h = cc
running-first_running is_running otherwise c (x ∷ cs) e h = elim (Bool-cases (is_running x)) [
  | inl r ↦ ground (arith, r)
  | inr r ↦ ground (arith, r, eq_iff c x, running-first_running is_running otherwise c cs)
]

elem-add_candidate :
    (c x : String) (cs : List String)
    → str_eq x "" ≡ false
    → elem c (add_candidate x cs) ≡ (elem c cs || str_eq c x)
unfolding add_candidate elem
elem-add_candidate c x cs h = ground (arith, elem-append c cs (x ∷ []), eq_iff c x)

head_stays :
    (x p : String) (cs : List String) → (ys : List String) × (add_candidate x (p ∷ cs) ≡ p ∷ ys)
unfolding add_candidate
head_stays x p cs = elim (Bool-cases (str_eq x "" || elem x (p ∷ cs))) [
  | inl e ↦ (cs, rw e refl)
  | inr e ↦ (cs ++ x ∷ [], rw e refl)
]

first_candidate : (p : String) → str_eq p "" ≡ false → add_candidate p [] ≡ p ∷ []
unfolding add_candidate elem
first_candidate p h = ground arith

first_of_head :
    (is_running : String → Bool) (otherwise p x y : String)
    → str_eq p "" ≡ false
    → is_running p ≡ true
    → first_running is_running otherwise (add_candidate x (add_candidate y (add_candidate p [])))
      ≡ p
unfolding first_running
first_of_head is_running otherwise p x y n r =
    let (ys, e) = head_stays y p [] in
    let (zs, f) = head_stays x p ys in rw (first_candidate p n, e, f) (rw r refl)

-- For schema-v2 state, the desired container of the app is chosen when it has a name and runs, and
-- when the legacy container runs, the container that is chosen runs.
pub live_container_chosen :
    (is_running : String → Bool) (state : State) (uuid : String) (requested : Option String)
    → equals_nat state.schema_version 2 ≡ true
    → (str_eq (preferred_of (app_of uuid state.apps)) "" ≡ false
        → is_running (preferred_of (app_of uuid state.apps)) ≡ true
        → resolve_app_container is_running state uuid requested
          ≡ preferred_of (app_of uuid state.apps))
      × (str_eq (legacy_of uuid) "" ≡ false
          → is_running (legacy_of uuid) ≡ true
          → is_running (resolve_app_container is_running state uuid requested) ≡ true)
unfolding resolve_app_container choose
live_container_chosen is_running state uuid requested v =
    let preferred = preferred_of (app_of uuid state.apps) in
    let legacy = legacy_of uuid in
    let otherwise = if str_eq preferred "" then or_text requested legacy else preferred in
    let others = add_candidate (or_text requested "") (add_candidate preferred []) in
    (
      λ p r. rw v (first_of_head is_running otherwise preferred legacy (or_text requested "") p r),
      λ n r. rw v (
          running-first_running is_running otherwise legacy (add_candidate legacy others)
            (ground (arith, elem-add_candidate legacy legacy others n, eq_refl legacy)) r),
    )
