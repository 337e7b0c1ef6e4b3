-- ===== src/Luks/Stack.antt =====
-- storage.py: `_provision_luks_stack` and `_require_common_mapper_sector_size`. An exception of a
-- command is its failure; what is done is recorded, the latest action first.
use Prim.Native.String.{◌++◌ as str_append}
use sbnb.Prelude.{
  ℕ, String, Bool, true, false, not, Option, none, some, List, [], ◌∷◌, ◌==◌, if◌then◌else◌,
}
use sbnb.Luks.{
  World, Result, ok, err, Error, no_mappers, key_failed, wipe_failed, format_failed, open_failed,
  wrong_sector_size, sizes_differ, unsupported_size, other_size, refuse, ◌>>=◌, ◌>>◌,
  read_blockdev_int, preflight_luks_targets, is_supported,
}

pub data Action : Type 0 where
  write_keyfile : Action
  -- what a wipe does to the mappers that its disk has is a part of it
  wipe : String → Action
  format : String → ℕ → Action
  -- a mapper that was opened, one whose opening was not answered in time, and one that was told to
  -- close, with the answer
  opened : String → Action
  opening : String → Action
  close : String → Bool → Action

abbrev pub mapper_path : String → String
mapper_path name = str_append "/dev/mapper/" name

-- What the loop leaves: the record, the mappers that it opened, the latest first, and its end.
pub record Progress : Type 0 where
  pub actions : List Action
  pub opened_mapper_names : List String
  pub result : Result (List String)

unfoldable pub fail : Error → List Action → List String → Progress
fail e actions names = record { actions = actions; opened_mapper_names = names; result = err e }

unfoldable pub with_path : String → Result (List String) → Result (List String)
with_path path (ok ps) = ok (path ∷ ps)
with_path path (err e) = err e

-- the check of the sector size of a mapper that was opened; `rest` is the rest of the loop
unfoldable pub check_mapper : World → ℕ → String → Progress → List Action → List String → Progress
unfolding fail with_path
check_mapper w n mapper rest actions names = elim (w.getss (mapper_path mapper)) [
  | none ↦ fail Error.unreadable actions names
  | some actual ↦
      if actual == n
      then record rest { result = with_path (mapper_path mapper) rest.result }
      else fail wrong_sector_size actions names
]

-- `luksOpen` ends with an error code, or with an exception; the mapper is not listed as opened
unfoldable pub open_refused : World → String → String → List Action → List String → Progress
unfolding fail
open_refused w target mapper actions names =
    if w.open_times_out target
    then fail Error.open_timed_out (opening mapper ∷ actions) names
    else fail open_failed actions names

-- the `for` loop; `luks_pvs` is the list of paths that the rest of the loop returns
unfoldable pub provision_each :
    World → ℕ → List (String × String) → List Action → List String → Progress
unfolding fail check_mapper open_refused
provision_each w n [] actions names = record {
  actions = actions;
  opened_mapper_names = names;
  result = ok [];
}
provision_each w n ((target, mapper) ∷ targets) actions names =
    let wiped = wipe target ∷ actions in
    let formatted = format target n ∷ wiped in
    let after_open = opened mapper ∷ formatted in
    let rest = provision_each w n targets after_open (mapper ∷ names) in
    if not (w.wiped target)
    then fail wipe_failed wiped names
    else if not (w.formatted target)
    then fail format_failed formatted names
    else if not (w.opened target)
    then open_refused w target mapper formatted names
    else check_mapper w n mapper rest after_open (mapper ∷ names)

-- `for mapper_name in reversed(opened_mapper_names): … luksClose`
-- whose result is not read
unfoldable pub close_each : World → List String → List Action → List Action
close_each w [] actions = actions
close_each w (name ∷ names) actions = close_each w names (close name (w.closes name) ∷ actions)

-- the `except` clause
unfoldable pub settle_on :
    World → Result (List String) → Progress → List Action × Result (List String)
unfolding close_each
settle_on w (ok ps) p = (p.actions, ok ps)
settle_on w (err e) p = (close_each w p.opened_mapper_names p.actions, err e)

unfoldable pub settle : World → Progress → List Action × Result (List String)
unfolding settle_on
settle w p = settle_on w p.result p

-- the part after the preflight has given the sector size
unfoldable pub provision_at :
    World → Bool → List (String × String) → List Action → ℕ → List Action × Result (List String)
unfolding provision_each settle
provision_at w keyfile targets actions n =
    if keyfile
    then (if w.key_written
        then settle w (provision_each w n targets (write_keyfile ∷ actions) [])
        else (write_keyfile ∷ actions, err key_failed))
    else settle w (provision_each w n targets actions [])

unfoldable pub provision_after :
    World
    → Bool
    → List (String × String)
    → List Action
    → Result ℕ
    → List Action × Result (List String)
unfolding provision_at
provision_after w keyfile targets actions (err e) = (actions, err e)
provision_after w keyfile targets actions (ok n) = provision_at w keyfile targets actions n

-- `_provision_luks_stack`
unfoldable pub provision_luks_stack :
    World
    → Bool
    → Option ℕ
    → List (String × String)
    → List Action
    → List Action × Result (List String)
unfolding provision_after preflight_luks_targets
provision_luks_stack w keyfile required targets actions =
    provision_after w keyfile targets actions (preflight_luks_targets w targets required)

unfoldable pub read_sizes : World → List String → Result (List ℕ)
unfolding read_blockdev_int
read_sizes w [] = ok []
read_sizes w (p ∷ ps) = do n ← read_blockdev_int (w.getss p); ns ← read_sizes w ps; ok (n ∷ ns)

unfoldable pub all_equal : ℕ → List ℕ → Bool
all_equal n [] = true
all_equal n (m ∷ ms) = let rest = all_equal n ms in if m == n then rest else false

unfoldable pub check_size : Option ℕ → ℕ → Result ℕ
check_size required n = do
  refuse (not (is_supported n)) unsupported_size
  refuse (elim required [ none ↦ false | some r ↦ not (n == r) ]) other_size
  ok n

unfoldable pub common_size : Option ℕ → List ℕ → Result ℕ
unfolding all_equal check_size
common_size required [] = err no_mappers
common_size required (n ∷ ns) = do refuse (not (all_equal n ns)) sizes_differ; check_size required n

-- `_require_common_mapper_sector_size`
unfoldable pub require_common_mapper_sector_size : World → List String → Option ℕ → Result ℕ
unfolding read_sizes common_size
require_common_mapper_sector_size w paths required = do
  sizes ← read_sizes w paths
  common_size required sizes
