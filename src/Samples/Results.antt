-- ===== src/Samples/Results.antt =====
-- Samples for the store of apply results: one id that is queued, one terminal result, a limit of 0.
use sbnb.Prelude.{filter, String, ◌≡◌, refl, true, false, [], ◌∷◌}
use sbnb.Prelude.Dict.{values, lookup, insert}
use sbnb.ApplyResults.Record.{parse_status, Text, Status, Result, apply, queued, succeeded}
use sbnb.ApplyResults.{
  sort, key_less, Store, Env, update, prune, write, fail_interrupted, has_terminal_status, expired,
}
use sbnb.ApplyResults.Lookup.{IsConsistent}
use sbnb.ApplyResults.Interrupted.{fail_interrupted_settles}

abbrev first_id : String
first_id = "00000000-0000-0000-0000-000000000001"

abbrev second_id : String
second_id = "00000000-0000-0000-0000-000000000002"

abbrev result_of : String → Status → Result
result_of id status = record {
  request_id = id;
  kind = apply;
  status = status;
  error = [];
  warnings = [];
  applied = true;
  created_at = 5;
  updated_at = 7;
}

abbrev live_result : Result
live_result = result_of first_id queued

abbrev done_result : Result
done_result = result_of second_id succeeded

abbrev store : Store
store = record {
  results = (first_id, live_result) ∷ (second_id, done_result) ∷ [];
  files = [];
  terminal_limit = 0;
}

abbrev env : Env
env = record { now = 9; writable = true }

abbrev readonly : Env
readonly = record { now = 9; writable = false }

abbrev clean : Text → Text
clean t = t

consistent : IsConsistent store.results
unfolding lookup
consistent = (refl, refl, (refl, refl, tt))

fail_interrupted_settles_example : has_terminal_status done_result ≡ true
unfolding fail_interrupted lookup update write parse_status prune expired filter values sort
    key_less insert
fail_interrupted_settles_example =
    fail_interrupted_settles clean (λ id. env) (record store { terminal_limit = 5 }) second_id
      done_result refl
