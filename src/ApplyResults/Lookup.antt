-- ===== src/ApplyResults/Lookup.antt =====
-- The results in memory: each under its own request id, one to an id; `create`, `update`, `prune`
-- and `fail_interrupted` keep that, and what a lookup gives after an update.
use sbnb.Prelude.{
  String, ◌≡◌, ◌≢◌, refl, sym, ◌∙◌, false, none, some, List, [], ◌∷◌, arith, inl, inr, Bool-cases,
  str_eq, eq_iff, All,
}
use sbnb.Prelude.Dict.{Dict, lookup, insert, remove, values, lookup-insert, lookup-remove}
use sbnb.ApplyResults.Record.{Result}
use sbnb.ApplyResults.Order.{Distinct, DiffersFrom}
use sbnb.ApplyResults.{drop_results}

abbrev pub IsConsistent : Dict Result → Type 0
IsConsistent [] = Unit
IsConsistent ((k, r) ∷ m) = (r.request_id ≡ k) × (lookup k m ≡ none) × IsConsistent m

pub ne_of_str_eq : (j k : String) → str_eq j k ≡ false → j ≢ k
ne_of_str_eq j k h e = ground (arith, eq_iff j k)

pub IsConsistent-insert :
    (k : String) (r : Result) (m : Dict Result)
    → r.request_id ≡ k
    → IsConsistent m
    → IsConsistent (insert k r m)
unfolding insert lookup
IsConsistent-insert k r [] e h = (e, refl, tt)
IsConsistent-insert k r ((j, v) ∷ m) e h = elim (Bool-cases (str_eq j k)) [
  | inl q ↦ rw q (e ∙ sym ((eq_iff j k).0 q), h.1, h.2)
  | inr q ↦ rw q (
    h.0,
    ground (arith, lookup-insert k j r m, eq_iff j k, eq_iff k j),
    IsConsistent-insert k r m e h.2,
  )
]

pub IsConsistent-remove :
    (k : String) (m : Dict Result) → IsConsistent m → IsConsistent (remove k m)
unfolding remove
IsConsistent-remove k [] h = h
IsConsistent-remove k ((j, v) ∷ m) h = elim (Bool-cases (str_eq j k)) [
  | inl q ↦ rw q (IsConsistent-remove k m h.2)
  | inr q ↦ rw q (h.0, ground (arith, lookup-remove k j m), IsConsistent-remove k m h.2)
]

pub IsConsistent-drop_results :
    (rs : List Result) (m : Dict Result) → IsConsistent m → IsConsistent (drop_results rs m)
unfolding drop_results
IsConsistent-drop_results [] m h = h
IsConsistent-drop_results (r ∷ rs) m h =
    IsConsistent-drop_results rs (remove r.request_id m) (IsConsistent-remove r.request_id m h)

-- the record is found under its own id
abbrev pub IsFound : Dict Result → Result → Type 0
IsFound m r = lookup r.request_id m ≡ some r

IsFound-cons :
    (k : String) (v : Result) (m : Dict Result) (xs : List Result)
    → lookup k m ≡ none
    → All (IsFound m) xs
    → All (IsFound ((k, v) ∷ m)) xs
unfolding lookup
IsFound-cons k v m [] e h = tt
IsFound-cons k v m (x ∷ xs) e h =
    (ground (arith, h.0, eq_iff k x.request_id), IsFound-cons k v m xs e h.1)

pub IsFound-values : (m : Dict Result) → IsConsistent m → All (IsFound m) (values m)
unfolding values lookup
IsFound-values [] h = tt
IsFound-values ((k, v) ∷ m) h = (
  ground (arith, h.0, eq_iff k v.request_id),
  IsFound-cons k v m (values m) h.1 (IsFound-values m h.2),
)

differs_of_IsFound :
    (m : Dict Result) (v : Result) (xs : List Result)
    → lookup v.request_id m ≡ none
    → All (IsFound m) xs
    → All (DiffersFrom v) xs
differs_of_IsFound m v [] e h = tt
differs_of_IsFound m v (x ∷ xs) e h = (λ q. cc (e, h.0, q), differs_of_IsFound m v xs e h.1)

pub Distinct-values : (m : Dict Result) → IsConsistent m → Distinct (values m)
unfolding values
Distinct-values [] h = tt
Distinct-values ((k, v) ∷ m) h =
    (differs_of_IsFound m v (values m) (rw h.0 h.1) (IsFound-values m h.2), Distinct-values m h.2)

pub found_id :
    (k : String) (r : Result) (m : Dict Result)
    → IsConsistent m
    → lookup k m ≡ some r
    → r.request_id ≡ k
unfolding lookup
found_id k r [] c h = cc
found_id k r ((j, v) ∷ m) c h = ground (arith, found_id k r m c.2, eq_iff j k, c.0)
