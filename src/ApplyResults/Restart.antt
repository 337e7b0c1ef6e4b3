-- ===== src/ApplyResults/Restart.antt =====
-- What a new process reads back from the files: `_load` after `_write`.
use sbnb.Prelude.{
  Bool, not, ◌&&◌, ℕ, String, ◌≡◌, ◌≤◌, true, false, Option, none, some, arith, length,
}
use sbnb.Prelude.Dict.{HasUniqueKeys, Dict, lookup, HasUniqueKeys}
use sbnb.ApplyResults.Record.{Text, Result, Warning, Content, raising, is_request_id}
use sbnb.ApplyResults.Sanitize.{sanitize_apply_error, is_empty}
use sbnb.ApplyResults.{Store, Env, write, load}

-- what `_sanitize_warnings` leaves: three texts, none empty or longer than 100
pub record IsSanitized (w : Warning) : Type 0 where
  pub code_short : length w.code ≤ 100
  pub code_some : is_empty w.code ≡ false
  pub instance_short : length w.instance_uuid ≤ 100
  pub instance_some : is_empty w.instance_uuid ≡ false
  pub volume_short : length w.volume ≤ 100
  pub volume_some : is_empty w.volume ≡ false

abbrev pub is_raising : Content → Bool
is_raising raising = true
is_raising _ = false

-- reading the entry raises no exception that leaves `_load`
abbrev pub loads_quietly : String × Content → Bool
loads_quietly (id, c) = not (is_request_id id && is_raising c)

module _ (clean : Text → Text) where
  -- a record as it is read back: its error is cleaned once more
  abbrev pub reread : Result → Result
  reread r = record r { error = sanitize_apply_error clean r.error }

  -- what a step of the loop leaves under a key, when it raises nothing
  abbrev Leaves : String → Option Result → Option (Dict Result) → Type 0
  Leaves k v none = true ≡ false
  Leaves k v (some m) = lookup k m ≡ v

  -- The store of a new process has this result under a key.
  abbrev pub HasResult : String → Result → Option Store → Type 0
  HasResult k r none = true ≡ false
  HasResult k r (some s) = lookup k s.results ≡ some r

  -- A write that fails leaves what a new process reads unchanged.
  pub load-write_failed :
      (env : Env) (r : Result) (s : Store) (limit : ℕ)
      → (write env r s).1 ≡ false
      → load clean limit (write env r s).0.files ≡ load clean limit s.files
  unfolding write
  load-write_failed env r s limit h = ground arith
