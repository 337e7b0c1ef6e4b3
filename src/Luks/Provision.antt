-- ===== src/Luks/Provision.antt =====
-- Provisioning of a batch of disks that fails (storage.py): what becomes of the mappers of the
-- attempt.
use mathlib.Core.Bool.{true≢false}
use sbnb.Prelude.{
  ℕ, String, Bool, true, false, ◌≡◌, refl, ap, Option, List, [], ◌∷◌, ◌++◌, inl, inr, Bool-cases,
  Option-cases, str_eq, eq_refl, if◌then◌else◌, ◌==◌, All, ◌||◌, sym, eq_iff, ◌∙◌,
}
use sbnb.Prelude.Lists.{All-append}
use sbnb.Luks.{World, Result, ok, err, Error, preflight_luks_targets}
use sbnb.Luks.Stack.{
  Action, opening, open_refused, write_keyfile, wipe, format, opened, close, mapper_path, Progress,
  fail, check_mapper, settle_on, provision_after, provision_each, close_each, settle, provision_at,
  provision_luks_stack,
}

-- the first of this name taken away
abbrev pop : String → List String → List String
pop m [] = []
pop m (x ∷ xs) = let rest = pop m xs in if str_eq x m then xs else x ∷ rest

-- The mappers that were opened, the latest first, less those that were told to close: all of
-- these, or only those whose close succeeded.
abbrev remaining : Bool → List Action → List String
remaining lax [] = []
remaining lax (opened m ∷ actions) = m ∷ remaining lax actions
remaining lax (opening m ∷ actions) = remaining lax actions
remaining lax (close m answer ∷ actions) =
    let rest = remaining lax actions in if lax || answer then pop m rest else rest
remaining lax (write_keyfile ∷ actions) = remaining lax actions
remaining lax (wipe t ∷ actions) = remaining lax actions
remaining lax (format t n ∷ actions) = remaining lax actions

-- the mappers that were opened and not told to close, the latest first
abbrev pub unclosed : List Action → List String
unclosed actions = remaining true actions

-- the mappers that were opened and not closed with success, the latest first
abbrev pub still_open : List Action → List String
still_open actions = remaining false actions

-- what is left besides the base are mappers that a close leaves
abbrev LeftBy : World → Bool → List String → List Action → Type 0
LeftBy w lax base actions =
    (refused : List String) × (remaining lax actions ≡ refused ++ base)
    × All (λ m. (lax || w.closes m) ≡ false) refused

pop-skips :
    (w : World) (lax : Bool) (name : String) (refused rest : List String)
    → (lax || w.closes name) ≡ true
    → All (λ m. (lax || w.closes m) ≡ false) refused
    → pop name (refused ++ name ∷ rest) ≡ refused ++ rest
pop-skips w lax name [] rest h a = rw (eq_refl name) refl
pop-skips w lax name (x ∷ xs) rest h a = elim (Bool-cases (str_eq x name)) [
  | inl e ↦ absurd (true≢false (sym (rw ((eq_iff x name).0 e) h) ∙ a.0))
  | inr e ↦ rw e (ap (λ (l : List String). x ∷ l) (pop-skips w lax name xs rest h a.1))
]

snoc-append :
    (xs : List String) (x : String) (rest : List String) → xs ++ x ∷ rest ≡ (xs ++ x ∷ []) ++ rest
snoc-append [] x rest = refl
snoc-append (y ∷ ys) x rest = ap (λ (l : List String). y ∷ l) (snoc-append ys x rest)

-- closing what was opened leaves what was open before and what a close leaves
closed_again :
    (w : World) (lax : Bool) (names refused : List String) (actions : List Action)
    (base : List String)
    → remaining lax actions ≡ refused ++ (names ++ base)
    → All (λ m. (lax || w.closes m) ≡ false) refused
    → LeftBy w lax base (close_each w names actions)
unfolding close_each
closed_again w lax [] refused actions base h a = (refused, h, a)
closed_again w lax (name ∷ names) refused actions base h a =
    elim (Bool-cases (lax || w.closes name)) [
      | inl e ↦
          closed_again w lax names refused (close name (w.closes name) ∷ actions) base
            (rw (e, h) (pop-skips w lax name refused (names ++ base) e a)) a
      | inr e ↦
          closed_again w lax names (refused ++ name ∷ []) (close name (w.closes name) ∷ actions)
            base (rw (e, h) (snoc-append refused name (names ++ base)))
            (All-append (λ m. (lax || w.closes m) ≡ false) refused (name ∷ []) a (e, tt))
    ]

-- the record of the loop has open, besides what was open, the mappers that the loop lists
abbrev IsTracked : Bool → List String → Progress → Type 0
IsTracked lax base p = remaining lax p.actions ≡ p.opened_mapper_names ++ base

IsTracked-check_mapper :
    (w : World) (lax : Bool) (n : ℕ) (mapper : String) (rest : Progress) (actions : List Action)
    (names base : List String)
    → remaining lax actions ≡ names ++ base
    → IsTracked lax base rest
    → IsTracked lax base (check_mapper w n mapper rest actions names)
unfolding check_mapper fail
IsTracked-check_mapper w lax n mapper rest actions names base h t =
    elim (Option-cases (w.getss (mapper_path mapper))) [
      | inl e ↦ rw (e, check_mapper) h
      | inr (actual, e) ↦ elim (Bool-cases (actual == n)) [
        | inl q ↦ rw (e, check_mapper) (rw q t)
        | inr q ↦ rw (e, check_mapper) (rw q h)
      ]
    ]

IsTracked-open_refused :
    (w : World) (lax : Bool) (target mapper : String) (actions : List Action)
    (names base : List String)
    → remaining lax actions ≡ names ++ base
    → IsTracked lax base (open_refused w target mapper actions names)
unfolding open_refused fail
IsTracked-open_refused w lax target mapper actions names base h =
    elim (Bool-cases (w.open_times_out target)) [ inl e ↦ rw e h | inr e ↦ rw e h ]

IsTracked-provision_each :
    (w : World) (lax : Bool) (n : ℕ) (targets : List (String × String)) (actions : List Action)
    (names base : List String)
    → remaining lax actions ≡ names ++ base
    → IsTracked lax base (provision_each w n targets actions names)
unfolding provision_each fail
IsTracked-provision_each w lax n [] actions names base h = h
IsTracked-provision_each w lax n ((target, mapper) ∷ targets) actions names base h =
    elim (Bool-cases (w.wiped target)) [
      | inr e ↦ rw e h
      | inl e ↦ elim (Bool-cases (w.formatted target)) [
        | inr f ↦ rw (e, f) h
        | inl f ↦ elim (Bool-cases (w.opened target)) [
          | inr o ↦ rw (e, f, o) (IsTracked-open_refused w lax target mapper _ names base h)
          | inl o ↦
              let later : List Action = opened mapper ∷ format target n ∷ wipe target ∷ actions in
              let tracked : remaining lax later ≡ (mapper ∷ names) ++ base =
                ap (λ (l : List String). mapper ∷ l) h in
              rw (e, f, o)
                (IsTracked-check_mapper w lax n mapper
                  (provision_each w n targets later (mapper ∷ names)) later (mapper ∷ names) base
                  tracked
                  (IsTracked-provision_each w lax n targets later (mapper ∷ names) base tracked))
        ]
      ]
    ]

settle_on_closes :
    (w : World) (lax : Bool) (r : Result (List String)) (p : Progress) (base : List String)
    (e : Error)
    → IsTracked lax base p
    → (settle_on w r p).1 ≡ err e
    → LeftBy w lax base (settle_on w r p).0
unfolding settle_on
settle_on_closes w lax (ok ps) p base e t h = cc
settle_on_closes w lax (err x) p base e t h =
    closed_again w lax p.opened_mapper_names [] p.actions base t tt

provision_at_closes :
    (w : World) (lax : Bool) (keyfile : Bool) (targets : List (String × String))
    (actions : List Action) (n : ℕ) (e : Error)
    → (provision_at w keyfile targets actions n).1 ≡ err e
    → LeftBy w lax (remaining lax actions) (provision_at w keyfile targets actions n).0
unfolding provision_at settle
provision_at_closes w lax false targets actions n e h =
    settle_on_closes w lax (provision_each w n targets actions []).result
      (provision_each w n targets actions []) (remaining lax actions) e
      (IsTracked-provision_each w lax n targets actions [] (remaining lax actions) refl) h
provision_at_closes w lax true targets actions n e h = elim (Bool-cases w.key_written) [
  | inr k ↦ rw k ([], refl, tt)
  | inl k ↦
      let p = provision_each w n targets (write_keyfile ∷ actions) [] in
      rw k (
        settle_on_closes w lax p.result p (remaining lax actions) e
          (IsTracked-provision_each w lax n targets (write_keyfile ∷ actions) []
            (remaining lax actions) refl)
          (rw k at h))
]

provision_after_closes :
    (w : World) (lax : Bool) (keyfile : Bool) (targets : List (String × String))
    (actions : List Action) (r : Result ℕ) (e : Error)
    → (provision_after w keyfile targets actions r).1 ≡ err e
    → LeftBy w lax (remaining lax actions) (provision_after w keyfile targets actions r).0
unfolding provision_after
provision_after_closes w lax keyfile targets actions (err x) e h = ([], refl, tt)
provision_after_closes w lax keyfile targets actions (ok n) e h =
    provision_at_closes w lax keyfile targets actions n e h

-- nothing is left where every close counts
none_left :
    (w : World) (base : List String) (actions : List Action)
    → LeftBy w true base actions
    → unclosed actions ≡ base
none_left w base actions ([], h, a) = h
none_left w base actions (m ∷ refused, h, a) = absurd (true≢false a.0)

-- When a batch cannot be provisioned, each mapper that it opened and listed as opened is told to
-- close: the mappers that were opened and not told to close are those from before. The mappers that
-- were opened and not closed with success are those from before and, in front of them, ones whose
-- close fails.
pub failed_closes :
    (w : World) (keyfile : Bool) (required : Option ℕ) (targets : List (String × String))
    (actions : List Action) (e : Error)
    → (provision_luks_stack w keyfile required targets actions).1 ≡ err e
    → (unclosed (provision_luks_stack w keyfile required targets actions).0 ≡ unclosed actions)
      × ((refused : List String) × (still_open
              (provision_luks_stack w keyfile required targets actions).0
            ≡ refused ++ still_open actions)
          × All (λ m. w.closes m ≡ false) refused)
unfolding provision_luks_stack
failed_closes w keyfile required targets actions e h =
    let sized = preflight_luks_targets w targets required in
    (
      none_left w (unclosed actions) (provision_after w keyfile targets actions sized).0
          (provision_after_closes w true keyfile targets actions sized e h),
      provision_after_closes w false keyfile targets actions sized e h,
    )
