-- ===== src/ApplyResults/Interrupted.antt =====
-- `fail_interrupted`, which `DataPlane.__init__` calls: no result is left unfinished.
use sbnb.Prelude.{
  String, ◌≡◌, refl, true, some, [], ◌∷◌, arith, inl, inr, ◌⊎◌, Bool-cases, str_eq, eq_iff,
}
use sbnb.Prelude.Dict.{Dict, lookup}
use sbnb.ApplyResults.Record.{Text, Result, is_terminal, parse_status, codes, failed}
use sbnb.ApplyResults.Update.{found_after_update}
use sbnb.ApplyResults.{Store, Env, has_terminal_status, update, fail_each, fail_interrupted}

-- every unfinished result of the store is still to come in the loop
abbrev IsPending : Dict Result → Store → Type 0
IsPending items s =
    (k : String) (r : Result)
    → lookup k s.results ≡ some r
    → (has_terminal_status r ≡ true) ⊎ (lookup k items ≡ some r)

abbrev reason : Text
reason = codes "apply interrupted by data-plane restart"

failed_parses : parse_status "failed" ≡ some failed
unfolding parse_status
failed_parses = refl

module _ (clean : Text → Text) (env : String → Env) where
  abbrev fail_one : String → Result → Store → Store
  fail_one id r s = (update clean (env id) id "failed" reason [] r.applied s).0

  IsPending-skip :
      (id : String) (v : Result) (rest : Dict Result) (s : Store)
      → is_terminal v.status ≡ true
      → IsPending ((id, v) ∷ rest) s
      → IsPending rest s
  unfolding lookup
  IsPending-skip id v rest s t p k r h = ground (arith, p k r h)

  IsPending-fail :
      (id : String) (v : Result) (rest : Dict Result) (s : Store)
      → IsPending ((id, v) ∷ rest) s
      → IsPending rest (fail_one id v s)
  unfolding lookup
  IsPending-fail id v rest s p k r h =
      elim (found_after_update clean (env id) id "failed" reason [] v.applied s k r h) [
        | inl (old, other) ↦ elim (Bool-cases (str_eq id k)) [
          | inl e ↦ cc (failed_parses, other ((eq_iff id k).0 e))
          | inr e ↦ ground (arith, p k r old)
        ]
        | inr (e, q) ↦ inl (ground (arith, failed_parses))
      ]

  settled_after :
      (items : Dict Result) (s : Store)
      → IsPending items s
      → IsPending [] (fail_each clean env items s)
  unfolding fail_each
  settled_after [] s p = p
  settled_after ((id, v) ∷ rest) s p = elim (Bool-cases (is_terminal v.status)) [
    | inl t ↦ rw (t, fail_each) (settled_after rest s (IsPending-skip id v rest s t p))
    | inr t ↦
        rw (t, fail_each) (settled_after rest (fail_one id v s) (IsPending-fail id v rest s p))
  ]

  -- After `fail_interrupted` every result of the store is terminal.
  pub fail_interrupted_settles :
      (s : Store) (k : String) (r : Result)
      → lookup k (fail_interrupted clean env s).results ≡ some r
      → has_terminal_status r ≡ true
  unfolding fail_interrupted lookup
  fail_interrupted_settles s k r h =
      ground (arith, settled_after s.results s (λ j x e. inr e) k r h)
