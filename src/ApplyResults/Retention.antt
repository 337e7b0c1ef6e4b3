-- ===== src/ApplyResults/Retention.antt =====
-- The calls of the store: what each leaves in memory, on every branch.
use sbnb.Prelude.{
  ℕ, String, ◌≡◌, refl, Bool, true, false, Option, none, some, [], ◌∷◌, arith, inl, inr, Bool-cases,
  Option-cases, eq_refl, is_some,
}
use sbnb.Prelude.Dict.{Dict, lookup, insert, remove}
use sbnb.ApplyResults.Record.{Text, queued, Result, RawResult, parse_status}
use sbnb.ApplyResults.Sanitize.{sanitize_record}
use sbnb.ApplyResults.Lookup.{IsConsistent, IsConsistent-insert, IsConsistent-remove}
use sbnb.ApplyResults.{Store, Env, write, create, create_record, keep_if_written, new_record}

remove_absent : (k : String) (m : Dict Result) → lookup k m ≡ none → remove k m ≡ m
unfolding lookup remove
remove_absent k [] h = refl
remove_absent k ((j, v) ∷ m) h = ground (arith, remove_absent k m)

remove-insert :
    (k : String) (r : Result) (m : Dict Result) → lookup k m ≡ none → remove k (insert k r m) ≡ m
unfolding lookup remove insert
remove-insert k r [] h = rw (eq_refl k)
remove-insert k r ((j, v) ∷ m) h = ground (arith, remove-insert k r m)

pub results-write : (env : Env) (r : Result) (s : Store) → (write env r s).0.results ≡ s.results
unfolding write
results-write env r s = ground arith

pub terminal_limit-write :
    (env : Env) (r : Result) (s : Store) → (write env r s).0.terminal_limit ≡ s.terminal_limit
unfolding write
terminal_limit-write env r s = ground arith

create_record_refused :
    (env : Env) (request_id : String) (o : Option Result) (s : Store)
    → (create_record env request_id o s).1 ≡ false
    → (create_record env request_id o s).0 ≡ s
unfolding create_record write
create_record_refused env request_id none s h = refl
create_record_refused env request_id (some r) s h =
    ground (arith, remove-insert request_id r s.results)

create_record_accepted :
    (env : Env) (request_id : String) (r : Result) (s : Store)
    → (create_record env request_id (some r) s).1 ≡ true
    → (lookup request_id s.results ≡ none)
      × ((create_record env request_id (some r) s).0.results ≡ insert request_id r s.results)
unfolding create_record write
create_record_accepted env request_id r s h = ground arith

IsConsistent-create_record :
    (env : Env) (request_id : String) (o : Option Result) (s : Store)
    → ((r : Result) → o ≡ some r → r.request_id ≡ request_id)
    → IsConsistent s.results
    → IsConsistent (create_record env request_id o s).0.results
unfolding create_record
IsConsistent-create_record env request_id none s q c = c
IsConsistent-create_record env request_id (some r) s q c =
    let next : Store = record s { results = insert request_id r s.results } in
    let placed = IsConsistent-insert request_id r s.results (q r refl) c in
    elim (Bool-cases (is_some (lookup request_id s.results))) [
      | inl e ↦ rw e c
      | inr e ↦ rw e (kept (write env r next) (rw (results-write env r next) placed))
    ]
  where
    kept :
        (w : Store × Bool)
        → IsConsistent w.0.results
        → IsConsistent (keep_if_written request_id w).0.results
    kept (t, true) h = h
    kept (t, false) h = IsConsistent-remove request_id t.results h

module _ (clean : Text → Text) where
  request_id_of_sanitized :
      (raw : RawResult) (r : Result)
      → sanitize_record clean raw ≡ some r
      → r.request_id ≡ raw.request_id
  unfolding sanitize_record
  request_id_of_sanitized raw r h = ground arith

  -- A `create` that answers no leaves the store as it was, in memory and on disk.
  pub create_refused :
      (env : Env) (request_id kind : String) (s : Store)
      → (create clean env request_id kind s).1 ≡ false
      → (create clean env request_id kind s).0 ≡ s
  unfolding create
  create_refused env request_id kind s h =
      create_record_refused env request_id
        (sanitize_record clean (new_record env.now request_id kind)) s h

  queued_of_new :
      (now : ℕ) (request_id kind : String) (r : Result)
      → sanitize_record clean (new_record now request_id kind) ≡ some r
      → (r.status ≡ queued) × (r.request_id ≡ request_id)
  unfolding sanitize_record parse_status
  queued_of_new now request_id kind r h = ground arith

  -- An accepted `create` was of a new id, and adds one queued result under that id.
  pub create_accepted :
      (env : Env) (request_id kind : String) (s : Store)
      → (create clean env request_id kind s).1 ≡ true
      → (lookup request_id s.results ≡ none)
        × ((r : Result) × (r.status ≡ queued)
            × (r.request_id ≡ request_id)
            × ((create clean env request_id kind s).0.results ≡ insert request_id r s.results))
  unfolding create
  create_accepted env request_id kind s h =
      elim (Option-cases (sanitize_record clean (new_record env.now request_id kind))) [
        | inl e ↦ cc (rw e at h)
        | inr (r, e) ↦
            let (new, results) = create_record_accepted env request_id r s (rw e at h) in
            (
              new,
              (
                r,
                (queued_of_new env.now request_id kind r e).0,
                (queued_of_new env.now request_id kind r e).1,
                rw e results,
              ),
            )
      ]

  pub IsConsistent-create :
      (env : Env) (request_id kind : String) (s : Store)
      → IsConsistent s.results
      → IsConsistent (create clean env request_id kind s).0.results
  unfolding create
  IsConsistent-create env request_id kind s c =
      IsConsistent-create_record env request_id
        (sanitize_record clean (new_record env.now request_id kind)) s
        (λ r e. (queued_of_new env.now request_id kind r e).1) c
