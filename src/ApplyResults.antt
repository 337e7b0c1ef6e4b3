-- ===== src/ApplyResults.antt =====
-- apply_results.py: the store of desired-state apply results. The store keeps its records in memory
-- and writes each one to a file of its own; only `.json` files of the directory are kept here, by
-- the stem of their names. The lock only serialises the calls, so each call is one function. The
-- redaction and the pattern of a path (`clean`) are a parameter, as are the clock's reading and
-- whether the file system accepts a write (`Env`).
pub mod Record
pub mod Sanitize
pub mod Order
pub mod Lookup
pub mod Prune
pub mod Retention
pub mod Update
pub mod Interrupted
pub mod Statuses
pub mod Restart
use sbnb.Prelude.{
  ℕ, String, Bool, true, false, ◌&&◌, ◌||◌, Option, none, some, List, [], ◌∷◌, ltb, ◌==◌,
  if◌then◌else◌, str_eq, is_some, drop, filter,
}
use sbnb.Prelude.Dict.{Dict, lookup, insert, remove, values}
use sbnb.ApplyResults.Record.{
  Text, Status, is_terminal, parse_status, codes, is_request_id, RawWarning, Result, at, RawResult,
  Content, object, raising,
}
use sbnb.ApplyResults.Sanitize.{to_json, sanitize_warnings, sanitize_apply_error, sanitize_record}

pub record Store : Type 0 where
  pub results : Dict Result
  pub files : Dict Content
  pub terminal_limit : ℕ

-- What the world answers during a call: the clock, and whether `_write` succeeds.
pub record Env : Type 0 where
  pub now : ℕ
  pub writable : Bool

-- the key of `sorted`: (updated_at, request_id), texts in the order of their code points
pub text_less : Text → Text → Bool
text_less [] [] = false
text_less [] (d ∷ t) = true
text_less (c ∷ s) [] = false
text_less (c ∷ s) (d ∷ t) = let rest = text_less s t in if c == d then rest else ltb c d

unfoldable pub key_less : Result → Result → Bool
unfolding text_less
key_less a b =
    ltb a.updated_at b.updated_at
    || (a.updated_at == b.updated_at && text_less (codes a.request_id) (codes b.request_id))

-- `sorted(…, reverse=True)`
insert_sorted : Result → List Result → List Result
insert_sorted r [] = r ∷ []
insert_sorted r (x ∷ xs) = if key_less r x then x ∷ insert_sorted r xs else r ∷ x ∷ xs

unfoldable pub sort : List Result → List Result
unfolding insert_sorted
sort [] = []
sort (x ∷ xs) = insert_sorted x (sort xs)

abbrev pub has_terminal_status : Result → Bool
has_terminal_status r = is_terminal r.status

-- the records that `_prune` drops: all terminal ones past the newest `terminal_limit`
unfoldable pub expired : Store → List Result
expired s = drop s.terminal_limit (sort (filter has_terminal_status (values s.results)))

pub drop_results : List Result → Dict Result → Dict Result
drop_results [] m = m
drop_results (r ∷ rs) m = drop_results rs (remove r.request_id m)

-- the files go too; a failing `unlink` leaves a file, which is not modelled
drop_files : List Result → Dict Content → Dict Content
drop_files [] m = m
drop_files (r ∷ rs) m = drop_files rs (remove r.request_id m)

unfoldable pub prune : Store → Store
unfolding drop_results drop_files
prune s = record s {
  results = drop_results (expired s) s.results;
  files = drop_files (expired s) s.files;
}

-- `_write` replaces the record's file at once, or leaves the directory as it was.
unfoldable pub write : Env → Result → Store → Store × Bool
write env r s =
    if env.writable
    then (record s { files = insert r.request_id (object (to_json r)) s.files }, true)
    else (s, false)

keep_if_written : String → Store × Bool → Store × Bool
keep_if_written request_id (s, true) = (s, true)
keep_if_written request_id (s, false) = (record s { results = remove request_id s.results }, false)

create_record : Env → String → Option Result → Store → Store × Bool
unfolding keep_if_written
create_record env request_id none s = (s, false)
create_record env request_id (some r) s =
    if is_some (lookup request_id s.results)
    then (s, false)
    else keep_if_written request_id
        (write env r (record s { results = insert request_id r s.results }))

prune_if : Bool → Store × Bool → Store × Bool
prune_if terminal (s, written) = (if terminal then prune s else s, written)

load_object : String → Option Result → Dict Result → Dict Result
load_object request_id none results = results
load_object request_id (some r) results =
    if str_eq r.request_id request_id then insert request_id r results else results

-- the loop goes on unless an exception has left it
pub go_on : Option (Dict Result) → (Dict Result → Option (Dict Result)) → Option (Dict Result)
go_on none rest = none
go_on (some results) rest = rest results

pub store_of : ℕ → Dict Content → Option (Dict Result) → Option Store
store_of terminal_limit files none = none
store_of terminal_limit files (some results) =
    some (record { results = results; files = files; terminal_limit = terminal_limit })

-- the object that `create` hands to `_sanitize_record`
abbrev new_record : ℕ → String → String → RawResult
new_record now request_id kind = record {
  request_id = request_id;
  kind = kind;
  status = "queued";
  error = [];
  warnings = [];
  applied = false;
  created_at = at now;
  updated_at = at now;
}

module _ (clean : Text → Text) where
  unfoldable pub create : Env → String → String → Store → Store × Bool
  unfolding create_record
  create env request_id kind s =
      create_record env request_id (sanitize_record clean (new_record env.now request_id kind)) s

  -- `update` with what it has found: the current record and the parsed status
  unfoldable pub updated : Env → Status → Text → List RawWarning → Bool → Result → Result
  updated env status error warnings applied current = record current {
    status = status;
    error = sanitize_apply_error clean error;
    warnings = sanitize_warnings warnings;
    applied = applied;
    updated_at = env.now;
  }

  update_record :
      Env
      → String
      → Text
      → List RawWarning
      → Bool
      → Store
      → Option Result
      → Option Status
      → Store × Bool
  unfolding prune_if updated
  update_record env request_id error warnings applied s (some current) (some status) =
      let r = updated env status error warnings applied current in
      prune_if (is_terminal status)
        (write env r (record s { results = insert request_id r s.results }))
  update_record env request_id error warnings applied s _ _ = (s, false)

  unfoldable pub update :
      Env → String → String → Text → List RawWarning → Bool → Store → Store × Bool
  unfolding update_record
  update env request_id status error warnings applied s =
      update_record env request_id error warnings applied s (lookup request_id s.results)
        (parse_status status)

  -- The loop of `fail_interrupted` over a copy of the items.
  unfoldable pub fail_each : (String → Env) → Dict Result → Store → Store
  fail_each env [] s = s
  fail_each env ((request_id, r) ∷ rest) s = fail_each env rest (
      if is_terminal r.status
      then s
      else (update (env request_id) request_id "failed"
          (codes "apply interrupted by data-plane restart") [] r.applied s).0)

  unfoldable pub fail_interrupted : (String → Env) → Store → Store
  unfolding fail_each
  fail_interrupted env s = fail_each env s.results s

  -- none is an exception that leaves `_load`
  pub load_content : String → Content → Dict Result → Option (Dict Result)
  unfolding load_object
  load_content request_id raising results = none
  load_content request_id (object raw) results =
      some (load_object request_id (sanitize_record clean raw) results)
  load_content request_id _ results = some results

  -- one entry; a name that is no request id is not opened
  pub load_entry : String → Content → Dict Result → Option (Dict Result)
  unfolding load_content
  load_entry request_id content results =
      if is_request_id request_id then load_content request_id content results else some results

  pub load_files : Dict Content → Dict Result → Option (Dict Result)
  unfolding load_entry go_on
  load_files [] results = some results
  load_files ((request_id, content) ∷ rest) results =
      go_on (load_entry request_id content results) (load_files rest)

  -- `__init__` over an existing directory; the loop reads the entries as `os.listdir` gives them.
  unfoldable pub load : ℕ → Dict Content → Option Store
  unfolding load_files store_of
  load terminal_limit files = store_of terminal_limit files (load_files files [])

-- `get` copies the record out.
unfoldable pub get : String → Store → Option Result
get request_id s = lookup request_id s.results
