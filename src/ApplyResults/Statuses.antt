-- ===== src/ApplyResults/Statuses.antt =====
-- The status of each request, as the scheduler reads it, after `create` and `update`.
use sbnb.Prelude.{
  String, ◌≡◌, ◌≢◌, refl, ap, true, false, Option, none, some, arith, inl, inr, str_eq,
  if◌then◌else◌, Bool, List,
}
use sbnb.Prelude.Dict.{lookup, lookup-insert}
use sbnb.ApplyResults.Record.{Text, Status, queued, Result, RawWarning, is_terminal, parse_status}
use sbnb.ApplyResults.Sanitize.{status_name}
use sbnb.ApplyResults.Lookup.{IsConsistent}
use sbnb.ApplyResults.Retention.{create_accepted}
use sbnb.ApplyResults.Update.{update_keeps_live, update_live, found_after_update}
use sbnb.ApplyResults.{Store, Env, create, update, updated}

abbrev pub status_of : Option Result → Option Status
status_of none = none
status_of (some r) = some r.status

abbrev pub status_at : String → Store → Option Status
status_at k s = status_of (lookup k s.results)

pub parse-status_name : (t : Status) → parse_status (status_name t) ≡ some t
unfolding parse_status status_name
parse-status_name Status.queued = refl
parse-status_name Status.running = refl
parse-status_name Status.succeeded = refl
parse-status_name Status.succeeded_with_warnings = refl
parse-status_name Status.failed = refl
parse-status_name Status.superseded = refl

status_of-some :
    (o : Option Result) (t : Status)
    → status_of o ≡ some t
    → (r : Result) × (o ≡ some r) × (r.status ≡ t)
status_of-some none t h = cc
status_of-some (some r) t h = (r, refl, ground arith)

module _ (clean : Text → Text) (env : Env) where
  -- A created request was unknown, and is queued; every other request is as it was.
  pub status_at-create :
      (id kind : String) (s : Store) (k : String)
      → (create clean env id kind s).1 ≡ true
      → (status_at id s ≡ none)
        × (status_at k (create clean env id kind s).0
            ≡ (if str_eq id k then some queued else status_at k s))
  status_at-create id kind s k h =
      let (fresh, new) = create_accepted clean env id kind s h in
      let (r, is_queued, same_id, results) = new in
      (rw fresh, rw results (ground (arith, lookup-insert id k r s.results, is_queued)))

  module _ (id : String) (t : Status) (error : Text) (warnings : List RawWarning) (applied : Bool)
      (s : Store) where
    abbrev after : Store
    after = (update clean env id (status_name t) error warnings applied s).0

    -- An unfinished request keeps its status under an update of another one.
    pub status_at-update_ne :
        (k : String) (u : Status)
        → IsConsistent s.results
        → id ≢ k
        → status_at k s ≡ some u
        → is_terminal u ≡ false
        → status_at k after ≡ some u
    status_at-update_ne k u c d h l =
        let (r, found, same) = status_of-some (lookup k s.results) u h in
        rw
          (update_keeps_live clean env id (status_name t) error warnings applied s k r c d found
            (rw same l))
          (ap {B = Option Status} some same)

    -- A known request that is updated to an unfinished status has that status.
    pub status_at-update_live :
        (u : Status) → status_at id s ≡ some u → is_terminal t ≡ false → status_at id after ≡ some t
    unfolding updated
    status_at-update_live u h l =
        let (r, found, same) = status_of-some (lookup id s.results) u h in
        rw (
          update_live clean env id (status_name t) error warnings applied s found
            (parse-status_name t) l)

    -- After an update to a terminal status the request is gone or has that status.
    pub status_at-update_terminal : (u : Status) → status_at id after ≡ some u → u ≡ t
    status_at-update_terminal u h =
        let (r, found, same) = status_of-some (lookup id after.results) u h in
        elim (found_after_update clean env id (status_name t) error warnings applied s id r found) [
          | inl (old, absent) ↦ cc (absent refl, parse-status_name t)
          | inr (q, p) ↦ ground (arith, same, p, parse-status_name t)
        ]
