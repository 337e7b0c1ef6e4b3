-- ===== src/ApplyResults/Order.antt =====
-- What the sorting of `_prune` keeps: the length, each property of the elements, and that their
-- request ids differ.
use sbnb.Prelude.{
  ℕ, zero, suc, ◌≡◌, ◌≢◌, sym, List, [], ◌∷◌, Bool, Bool-cases, inl, inr, arith, length, All, drop,
  filter,
}
use sbnb.ApplyResults.Record.{Result}
use sbnb.ApplyResults.{insert_sorted, sort, key_less}

abbrev pub DiffersFrom : Result → Result → Type 0
DiffersFrom r x = r.request_id ≢ x.request_id

abbrev pub Distinct : List Result → Type 0
Distinct [] = Unit
Distinct (x ∷ xs) = All (DiffersFrom x) xs × Distinct xs

length-insert_sorted :
    (r : Result) (xs : List Result) → length (insert_sorted r xs) ≡ suc (length xs)
unfolding insert_sorted
length-insert_sorted r [] = omega arith
length-insert_sorted r (x ∷ xs) = ground (arith, length-insert_sorted r xs)

pub length-sort : (xs : List Result) → length (sort xs) ≡ length xs
unfolding sort
length-sort [] = omega arith
length-sort (x ∷ xs) = omega (arith, length-sort xs, length-insert_sorted x (sort xs))

module _ {ℓ} (P : Result → Type ℓ) where
  All-insert_sorted : (r : Result) (xs : List Result) → P r → All P xs → All P (insert_sorted r xs)
  unfolding insert_sorted
  All-insert_sorted r [] h k = (h, k)
  All-insert_sorted r (x ∷ xs) h k = elim (Bool-cases (key_less r x)) [
    | inl e ↦ rw e (k.0, All-insert_sorted r xs h k.1)
    | inr e ↦ rw e (h, k)
  ]

  pub All-sort : (xs : List Result) → All P xs → All P (sort xs)
  unfolding sort
  All-sort [] h = h
  All-sort (x ∷ xs) h = All-insert_sorted x (sort xs) h.0 (All-sort xs h.1)

  pub All-filter : (p : Result → Bool) (xs : List Result) → All P xs → All P (filter p xs)
  unfolding filter
  All-filter p [] h = h
  All-filter p (x ∷ xs) h = elim (Bool-cases (p x)) [
    | inl e ↦ rw e (h.0, All-filter p xs h.1)
    | inr e ↦ rw e (All-filter p xs h.1)
  ]

Distinct-insert_sorted :
    (r : Result) (xs : List Result)
    → All (DiffersFrom r) xs
    → Distinct xs
    → Distinct (insert_sorted r xs)
unfolding insert_sorted
Distinct-insert_sorted r [] h k = (tt, tt)
Distinct-insert_sorted r (x ∷ xs) h k = elim (Bool-cases (key_less r x)) [
  | inl e ↦ rw e (
    All-insert_sorted (DiffersFrom x) r xs (λ q. h.0 (sym q)) k.0,
    Distinct-insert_sorted r xs h.1 k.1,
  )
  | inr e ↦ rw e (h, k)
]

pub Distinct-sort : (xs : List Result) → Distinct xs → Distinct (sort xs)
unfolding sort
Distinct-sort [] h = h
Distinct-sort (x ∷ xs) h =
    Distinct-insert_sorted x (sort xs) (All-sort (DiffersFrom x) xs h.0) (Distinct-sort xs h.1)

pub Distinct-filter : (p : Result → Bool) (xs : List Result) → Distinct xs → Distinct (filter p xs)
unfolding filter
Distinct-filter p [] h = h
Distinct-filter p (x ∷ xs) h = elim (Bool-cases (p x)) [
  | inl e ↦ rw e (All-filter (DiffersFrom x) p xs h.0, Distinct-filter p xs h.1)
  | inr e ↦ rw e (Distinct-filter p xs h.1)
]

pub Distinct-drop : (n : ℕ) (xs : List Result) → Distinct xs → Distinct (drop n xs)
Distinct-drop zero xs h = h
Distinct-drop (suc n) [] h = h
Distinct-drop (suc n) (x ∷ xs) h = Distinct-drop n xs h.1
