-- ===== src/ApplyResults/Prune.antt =====
-- `_prune` drops only terminal results and leaves at most `terminal_limit` of them.
use sbnb.Prelude.{
  String, suc, ◌+◌, ◌-◌, ◌≤◌, ◌≡◌, true, false, some, List, [], ◌∷◌, arith, inl, inr, Bool-cases,
  eq_iff, All, All-drop, length, length-drop, filter,
}
use sbnb.Prelude.Dict.{Dict, lookup, remove, values, lookup-remove}
use sbnb.ApplyResults.Record.{Result}
use sbnb.ApplyResults.Order.{
  Distinct, DiffersFrom, All-sort, length-sort, Distinct-sort, Distinct-filter, Distinct-drop,
}
use sbnb.ApplyResults.Lookup.{
  IsConsistent, IsFound, IsFound-values, Distinct-values, IsConsistent-drop_results,
}
use sbnb.ApplyResults.{Store, has_terminal_status, sort, expired, drop_results, prune}

abbrev pub terminal_results : Dict Result → List Result
terminal_results m = filter has_terminal_status (values m)

count-remove-le :
    (k : String) (m : Dict Result)
    → length (terminal_results (remove k m)) ≤ length (terminal_results m)
unfolding filter values remove
count-remove-le k [] = omega arith
count-remove-le k ((j, v) ∷ m) = ground (arith, count-remove-le k m)

count-remove-lt :
    (k : String) (m : Dict Result) (r : Result)
    → lookup k m ≡ some r
    → has_terminal_status r ≡ true
    → suc (length (terminal_results (remove k m))) ≤ length (terminal_results m)
unfolding filter values remove lookup
count-remove-lt k [] r e t = cc
count-remove-lt k ((j, v) ∷ m) r e t = ground (arith, count-remove-le k m, count-remove-lt k m r)

-- found under its id, and terminal
abbrev IsSettled : Dict Result → Result → Type 0
IsSettled m r = IsFound m r × (has_terminal_status r ≡ true)

IsSettled-remove :
    (m : Dict Result) (r : Result) (xs : List Result)
    → All (DiffersFrom r) xs
    → All (IsSettled m) xs
    → All (IsSettled (remove r.request_id m)) xs
IsSettled-remove m r [] d h = tt
IsSettled-remove m r (x ∷ xs) d h = (
  (
    ground (
      arith,
      lookup-remove r.request_id x.request_id m,
      eq_iff r.request_id x.request_id,
      h.0,
      λ (q : r.request_id ≡ x.request_id). d.0 q,
    ),
    h.0.1,
  ),
  IsSettled-remove m r xs d.1 h.1,
)

count-drop_results :
    (rs : List Result) (m : Dict Result)
    → Distinct rs
    → All (IsSettled m) rs
    → length (terminal_results (drop_results rs m)) + length rs ≤ length (terminal_results m)
unfolding drop_results
count-drop_results [] m d h = omega arith
count-drop_results (r ∷ rs) m d h = omega (
  arith,
  count-drop_results rs (remove r.request_id m) d.1 (IsSettled-remove m r rs d.0 h.1),
  count-remove-lt r.request_id m r h.0.0 h.0.1,
)

IsSettled-filter :
    (m : Dict Result) (xs : List Result)
    → All (IsFound m) xs
    → All (IsSettled m) (filter has_terminal_status xs)
unfolding filter
IsSettled-filter m [] h = tt
IsSettled-filter m (x ∷ xs) h = elim (Bool-cases (has_terminal_status x)) [
  | inl e ↦ rw e ((h.0, e), IsSettled-filter m xs h.1)
  | inr e ↦ rw e (IsSettled-filter m xs h.1)
]

IsSettled-expired : (s : Store) → IsConsistent s.results → All (IsSettled s.results) (expired s)
unfolding expired
IsSettled-expired s h =
    All-drop (IsSettled s.results) s.terminal_limit (sort (terminal_results s.results)) (
      All-sort (IsSettled s.results) (terminal_results s.results)
        (IsSettled-filter s.results (values s.results) (IsFound-values s.results h)))

Distinct-expired : (s : Store) → IsConsistent s.results → Distinct (expired s)
unfolding expired
Distinct-expired s h = Distinct-drop s.terminal_limit (sort (terminal_results s.results)) (
    Distinct-sort (terminal_results s.results)
      (Distinct-filter has_terminal_status (values s.results) (Distinct-values s.results h)))

length-expired :
    (s : Store) → length (expired s) ≡ length (terminal_results s.results) - s.terminal_limit
unfolding expired
length-expired s = rw length-drop (rw length-sort)

-- After a prune of a store that holds each result once, under its own id, at most `terminal_limit`
-- terminal results are left.
pub prune_bounded :
    (s : Store)
    → IsConsistent s.results
    → length (terminal_results (prune s).results) ≤ s.terminal_limit
unfolding prune
prune_bounded s h = omega (
  arith,
  length-expired s,
  count-drop_results (expired s) s.results (Distinct-expired s h) (IsSettled-expired s h),
)

pub IsConsistent-prune : (s : Store) → IsConsistent s.results → IsConsistent (prune s).results
unfolding prune
IsConsistent-prune s h = IsConsistent-drop_results (expired s) s.results h

lookup-drop_results :
    (k : String) (r : Result) (rs : List Result) (m : Dict Result)
    → lookup k (drop_results rs m) ≡ some r
    → lookup k m ≡ some r
unfolding drop_results
lookup-drop_results k r [] m h = h
lookup-drop_results k r (x ∷ rs) m h =
    ground
      (arith, lookup-drop_results k r rs (remove x.request_id m) h, lookup-remove x.request_id k m)

-- what is found after a prune was there before
pub lookup_of_prune :
    (k : String) (r : Result) (s : Store)
    → lookup k (prune s).results ≡ some r
    → lookup k s.results ≡ some r
unfolding prune
lookup_of_prune k r s h = lookup-drop_results k r (expired s) s.results h

drop_results-lookup :
    (k : String) (r : Result) (m₀ : Dict Result) (rs : List Result) (m : Dict Result)
    → lookup k m₀ ≡ some r
    → has_terminal_status r ≡ false
    → All (IsSettled m₀) rs
    → lookup k m ≡ some r
    → lookup k (drop_results rs m) ≡ some r
unfolding drop_results
drop_results-lookup k r m₀ [] m e t h f = f
drop_results-lookup k r m₀ (x ∷ rs) m e t h f =
    drop_results-lookup k r m₀ rs (remove x.request_id m) e t h.1
      (ground (arith, lookup-remove x.request_id k m, eq_iff x.request_id k, h.0))

-- A result that is not terminal outlives a prune of a store that holds each result once, under its
-- own id.
pub prune_keeps_live :
    (k : String) (r : Result) (s : Store)
    → IsConsistent s.results
    → lookup k s.results ≡ some r
    → has_terminal_status r ≡ false
    → lookup k (prune s).results ≡ some r
unfolding prune
prune_keeps_live k r s c e t =
    drop_results-lookup k r s.results (expired s) s.results e t (IsSettled-expired s c) e
