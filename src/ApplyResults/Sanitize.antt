-- ===== src/ApplyResults/Sanitize.antt =====
-- apply_results.py: `sanitize_apply_error`, `_sanitize_warnings`, `_sanitize_record`, and the JSON of
-- a record. The redaction and the pattern of a path are the parameter `clean`.
use sbnb.Prelude.{
  ℕ, String, Bool, true, false, ◌&&◌, not, Option, none, some, List, [], ◌∷◌, ◌==◌, if◌then◌else◌,
  take,
}
use sbnb.ApplyResults.Record.{
  Text, Status, queued, running, succeeded, succeeded_with_warnings, failed, superseded,
  parse_status, Kind, apply, reconcile, parse_kind, is_request_id, Warning, RawWarning, not_a_dict,
  fields, Result, Stamp, missing, bad, at, RawResult,
}

unfoldable pub is_empty : Text → Bool
is_empty [] = true
is_empty (c ∷ s) = false

sanitize_warning : RawWarning → List Warning
unfolding is_empty
sanitize_warning not_a_dict = []
sanitize_warning (fields code instance_uuid volume) =
    let c = take 100 code in
    let i = take 100 instance_uuid in
    let v = take 100 volume in
    if not (is_empty c) && not (is_empty i) && not (is_empty v)
    then record { code = c; instance_uuid = i; volume = v } ∷ []
    else []

append_warnings : List Warning → List Warning → List Warning
append_warnings [] ys = ys
append_warnings (x ∷ xs) ys = x ∷ append_warnings xs ys

unfoldable pub sanitize_warnings : List RawWarning → List Warning
unfolding sanitize_warning append_warnings
sanitize_warnings [] = []
sanitize_warnings (w ∷ ws) = append_warnings (sanitize_warning w) (sanitize_warnings ws)

-- `float(value or default)`; zero is false, so it takes the default too.
to_float : Stamp → ℕ → Option ℕ
to_float missing default = some default
to_float bad default = none
to_float (at n) default = some (if n == 0 then default else n)

unfoldable pub status_name : Status → String
status_name queued = "queued"
status_name running = "running"
status_name succeeded = "succeeded"
status_name succeeded_with_warnings = "succeeded_with_warnings"
status_name failed = "failed"
status_name superseded = "superseded"

unfoldable pub kind_name : Kind → String
kind_name apply = "apply"
kind_name reconcile = "reconcile"

unfoldable pub raw_warnings : List Warning → List RawWarning
raw_warnings [] = []
raw_warnings (w ∷ ws) = fields w.code w.instance_uuid w.volume ∷ raw_warnings ws

-- What `json.dump` writes of a record and `json.load` reads back.
unfoldable pub to_json : Result → RawResult
unfolding status_name kind_name raw_warnings
to_json r = record {
  request_id = r.request_id;
  kind = kind_name r.kind;
  status = status_name r.status;
  error = r.error;
  warnings = raw_warnings r.warnings;
  applied = r.applied;
  created_at = at r.created_at;
  updated_at = at r.updated_at;
}

module _ (clean : Text → Text) where
  unfoldable pub sanitize_apply_error : Text → Text
  sanitize_apply_error error = take 500 (clean error)

  with_times : RawResult → Kind → Status → Option ℕ → Option Result
  with_times raw kind status none = none
  with_times raw kind status (some created) = elim (to_float raw.updated_at created) [
    | none ↦ none
    | some updated ↦ some (record {
      request_id = raw.request_id;
      kind = kind;
      status = status;
      error = sanitize_apply_error raw.error;
      warnings = sanitize_warnings raw.warnings;
      applied = raw.applied;
      created_at = created;
      updated_at = updated;
    })
  ]

  pub with_names : RawResult → Option Status → Option Kind → Option Result
  unfolding with_times to_float
  with_names raw (some status) (some kind) = with_times raw kind status (to_float raw.created_at 0)
  with_names raw _ _ = none

  unfoldable pub sanitize_record : RawResult → Option Result
  unfolding with_names
  sanitize_record raw =
      if is_request_id raw.request_id
      then with_names raw (parse_status raw.status) (parse_kind raw.kind)
      else none
