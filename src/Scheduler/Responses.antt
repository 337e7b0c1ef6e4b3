-- ===== src/Scheduler/Responses.antt =====
-- What clients are told of a request, and the bound on the errors that are remembered.
use sbnb.Prelude.{
  if◌then◌else◌, String, ◌≡◌, ◌≤◌, none, some, List, [], ◌∷◌, ◌++◌, arith, length, Option-cases,
}
use sbnb.Prelude.Dict.{Dict, lookup, insert, remove}
use sbnb.ApplyResults.Record.{Text, is_terminal}
use sbnb.ApplyResults.Statuses.{status_at}
use sbnb.ApplyResults.{get}
use sbnb.Scheduler.{Scheduler, trim, remember_runtime_error, wait_apply_result, get_apply_result}

length-trim : (order : List String) (errors : Dict Text) → length (trim order errors).0 ≤ 34
unfolding trim
length-trim [] errors = omega arith
length-trim (x ∷ order) errors = ground (arith, length-trim order (remove x errors))

-- Remembering an error keeps to the bound of 34 requests in the order of the errors that are
-- remembered.
pub remember_bounded :
    (id : String) (error : Text) (s : Scheduler)
    → length s.runtime_error_order ≤ 34
    → length (remember_runtime_error id error s).runtime_error_order ≤ 34
unfolding remember_runtime_error
remember_bounded id error s h = ground (
  arith,
  length-trim (s.runtime_error_order ++ id ∷ []) (insert id error s.runtime_result_errors),
)

-- A wait is answered exactly when the request is unknown or terminal, and then with what
-- `_get_apply_result` says.
pub wait_answers :
    (id : String) (s : Scheduler)
    → wait_apply_result id s ≡ elim (status_at id s.apply_results) [
      | none ↦ some (get_apply_result id s)
      | some u ↦ if is_terminal u then some (get_apply_result id s) else none
    ]
unfolding wait_apply_result get_apply_result get
wait_answers id s = ground (arith, Option-cases (lookup id s.apply_results.results))
