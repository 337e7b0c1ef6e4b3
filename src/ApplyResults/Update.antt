-- ===== src/ApplyResults/Update.antt =====
-- `update`: what it leaves in memory, on every branch, and that history stays bounded.
use sbnb.Prelude.{
  ◌≤◌, eq_refl, length, Option-cases, refl, inr, str_eq, Bool-cases, String, ◌≡◌, Bool, true, false,
  Option, none, some, List, arith, inl, eq_iff, ◌≢◌, ◌⊎◌,
}
use sbnb.Prelude.Dict.{lookup, insert, lookup-insert}
use sbnb.ApplyResults.Record.{Text, Status, Result, RawWarning, is_terminal}
use sbnb.ApplyResults.Lookup.{IsConsistent, IsConsistent-insert, ne_of_str_eq, found_id}
use sbnb.ApplyResults.Prune.{
  prune_bounded, terminal_results, IsConsistent-prune, lookup_of_prune, prune_keeps_live,
}
use sbnb.ApplyResults.Retention.{terminal_limit-write, results-write}
use sbnb.ApplyResults.{
  parse_status, update, Store, Env, write, prune_if, has_terminal_status, update_record, updated,
}

IsConsistent-prune_if :
    (t : Bool) (w : Store × Bool) → IsConsistent w.0.results → IsConsistent (prune_if t w).0.results
unfolding prune_if
IsConsistent-prune_if true w h = IsConsistent-prune w.0 h
IsConsistent-prune_if false w h = h

lookup_of_prune_if :
    (k : String) (r : Result) (t : Bool) (w : Store × Bool)
    → lookup k (prune_if t w).0.results ≡ some r
    → lookup k w.0.results ≡ some r
unfolding prune_if
lookup_of_prune_if k r true w h = lookup_of_prune k r w.0 h
lookup_of_prune_if k r false w h = h

prune_if_keeps_live :
    (k : String) (r : Result) (t : Bool) (w : Store × Bool)
    → IsConsistent w.0.results
    → lookup k w.0.results ≡ some r
    → has_terminal_status r ≡ false
    → lookup k (prune_if t w).0.results ≡ some r
unfolding prune_if
prune_if_keeps_live k r true w c h l = prune_keeps_live k r w.0 c h l
prune_if_keeps_live k r false w c h l = h

module _ (clean : Text → Text) (env : Env) (request_id : String) where
  -- the record that an update of `current` puts in memory
  abbrev put : Result → Store → Store
  put r s = record s { results = insert request_id r s.results }

  module _ (error : Text) (warnings : List RawWarning) (applied : Bool) (s : Store) where
    IsConsistent-update_record :
        (o : Option Result) (p : Option Status)
        → lookup request_id s.results ≡ o
        → IsConsistent s.results
        → IsConsistent (update_record clean env request_id error warnings applied s o p).0.results
    unfolding update_record
    IsConsistent-update_record none p e c = c
    IsConsistent-update_record (some r) none e c = c
    IsConsistent-update_record (some r) (some status) e c =
        let next = updated clean env status error warnings applied r in
        IsConsistent-prune_if (is_terminal status) (write env next (put next s)) (
          rw (results-write env next (put next s))
            (IsConsistent-insert request_id next s.results (found_id request_id r s.results c e) c))

    -- what is found after an update: another record as it was, or the new one
    found_after :
        (k : String) (r : Result) (o : Option Result) (p : Option Status)
        → lookup request_id s.results ≡ o
        → lookup k (update_record clean env request_id error warnings applied s o p).0.results
          ≡ some r
        → ((lookup k s.results ≡ some r) × (request_id ≡ k → p ≡ none))
          ⊎ ((request_id ≡ k) × (p ≡ some r.status))
    unfolding update_record
    found_after k r none p e h = inl (h, λ q. cc (e, h, q))
    found_after k r (some c) none e h = inl (h, λ q. refl)
    found_after k r (some c) (some status) e h =
        let next = updated clean env status error warnings applied c in
        let kept =
          rw (results-write env next (put next s)) at
            (lookup_of_prune_if k r (is_terminal status) (write env next (put next s)) h) in
        elim (Bool-cases (str_eq request_id k)) [
          | inl q ↦ inr (
            (eq_iff request_id k).0 q,
            ground (arith, kept, lookup-insert request_id k next s.results),
          )
          | inr q ↦ inl (
            ground (arith, kept, lookup-insert request_id k next s.results),
            λ a. absurd (ne_of_str_eq request_id k q a),
          )
        ]

    -- A live record under another id is found unchanged.
    other_kept :
        (k : String) (r : Result) (o : Option Result) (p : Option Status)
        → lookup request_id s.results ≡ o
        → IsConsistent s.results
        → request_id ≢ k
        → lookup k s.results ≡ some r
        → has_terminal_status r ≡ false
        → lookup k (update_record clean env request_id error warnings applied s o p).0.results
          ≡ some r
    unfolding update_record
    other_kept k r none p e c d h l = h
    other_kept k r (some x) none e c d h l = h
    other_kept k r (some x) (some status) e c d h l =
        let next = updated clean env status error warnings applied x in
        prune_if_keeps_live k r (is_terminal status) (write env next (put next s))
          (rw (results-write env next (put next s))
            (IsConsistent-insert request_id next s.results (found_id request_id x s.results c e) c))
          (rw (results-write env next (put next s))
            (ground (arith, lookup-insert request_id k next s.results, eq_iff request_id k, d)))
          l

module _ (clean : Text → Text) (env : Env) (request_id status : String) (error : Text)
    (warnings : List RawWarning) (applied : Bool) (s : Store) where
  -- Every update, whatever it answers, keeps each result under its own id and one to an id.
  pub IsConsistent-update :
      IsConsistent s.results
      → IsConsistent (update clean env request_id status error warnings applied s).0.results
  unfolding update
  IsConsistent-update c =
      IsConsistent-update_record clean env request_id error warnings applied s
        (lookup request_id s.results) (parse_status status) refl c

  -- After an update of a known request to a terminal status, at most `terminal_limit` terminal
  -- results are left in a store that held each result once, under its own id.
  pub update_bounded :
      {current : Result} {t : Status}
      → IsConsistent s.results
      → lookup request_id s.results ≡ some current
      → parse_status status ≡ some t
      → is_terminal t ≡ true
      → length
          (terminal_results (update clean env request_id status error warnings applied s).0.results)
        ≤ s.terminal_limit
  unfolding update update_record prune_if
  update_bounded {current} {t} c e p live =
      let next = updated clean env t error warnings applied current in
      rw (e, p, live)
        (rw (terminal_limit-write env next (put clean env request_id next s)) at (
          prune_bounded (write env next (put clean env request_id next s)).0 (
            rw (results-write env next (put clean env request_id next s)) (
              IsConsistent-insert request_id next s.results
                (found_id request_id current s.results c e) c))))

  -- In a store that holds each result once, under its own id, an update leaves every unfinished
  -- result of another request as it was.
  pub update_keeps_live :
      (k : String) (r : Result)
      → IsConsistent s.results
      → request_id ≢ k
      → lookup k s.results ≡ some r
      → has_terminal_status r ≡ false
      → lookup k (update clean env request_id status error warnings applied s).0.results ≡ some r
  unfolding update
  update_keeps_live k r c d h l =
      other_kept clean env request_id error warnings applied s k r (lookup request_id s.results)
        (parse_status status) refl c d h l

  pub found_after_update :
      (k : String) (r : Result)
      → lookup k (update clean env request_id status error warnings applied s).0.results ≡ some r
      → ((lookup k s.results ≡ some r) × (request_id ≡ k → parse_status status ≡ none))
        ⊎ ((request_id ≡ k) × (parse_status status ≡ some r.status))
  unfolding update
  found_after_update k r h =
      found_after clean env request_id error warnings applied s k r (lookup request_id s.results)
        (parse_status status) refl h

  -- An update of a known request to `queued` or `running` puts just the new fields in its record.
  pub update_live :
      {current : Result} {t : Status}
      → lookup request_id s.results ≡ some current
      → parse_status status ≡ some t
      → is_terminal t ≡ false
      → lookup request_id (update clean env request_id status error warnings applied s).0.results
        ≡ some (updated clean env t error warnings applied current)
  unfolding update update_record prune_if
  update_live {current} {t} e p live =
      let next = updated clean env t error warnings applied current in
      rw (e, p, live)
        (rw (results-write env next (put clean env request_id next s))
          (ground (arith, lookup-insert request_id request_id next s.results, eq_refl request_id)))

  -- An update of an unknown request, or to an unknown status, is refused and changes nothing.
  pub update_refused :
      (lookup request_id s.results ≡ none) ⊎ (parse_status status ≡ none)
      → update clean env request_id status error warnings applied s ≡ (s, false)
  unfolding update update_record
  update_refused (inl h) = rw h
  update_refused (inr h) = ground (arith, Option-cases (lookup request_id s.results))
