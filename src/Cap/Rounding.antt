-- ===== src/Cap/Rounding.antt =====
-- How far rounding to 28 digits (storage.py, the decimals of `_capped_virtual_size`) moves a number.
use native.Mathlib.Nat.{mod-add-div', mod-lt}
use sbnb.Prelude.{
  ℕ, zero, suc, ◌+◌, ◌*◌, ◌/◌, ◌≡◌, ◌≤◌, ◌<◌, ◌⊎◌, refl, arith, Bool-cases, inl, inr, ltb,
  if◌then◌else◌,
}
use sbnb.Cap.{precision, unit_from, half_even, round_digits}

-- One part in 2 * 10 ^ 27, as much as half a unit of the last of 28 digits: nothing where all digits
-- fit.
pub slack : ℕ → ℕ
slack n = if ltb n precision then 0 else n / 2000000000000000000000000000

half_even_near :
    (n unit : ℕ)
    → 0 < unit
    → (2 * half_even n unit ≤ 2 * n + unit) × (2 * n ≤ 2 * half_even n unit + unit)
unfolding half_even
half_even_near n unit p = ground (arith, mod-add-div' n unit, mod-lt n p)

unit_positive : (fuel unit n : ℕ) → 0 < unit → 0 < unit_from fuel unit n
unfolding unit_from
unit_positive zero unit n p = p
unit_positive (suc fuel) unit n p = elim (Bool-cases (ltb n (precision * unit))) [
  | inl e ↦ rw (e, unit_from) p
  | inr e ↦ rw (e, unit_from) (unit_positive fuel (10 * unit) n (omega arith))
]

-- the unit is not larger than it has to be
unit_small :
    (fuel unit n : ℕ)
    → (unit_from fuel unit n ≡ unit) ⊎ (1000000000000000000000000000 * unit_from fuel unit n ≤ n)
unfolding unit_from
unit_small zero unit n = inl refl
unit_small (suc fuel) unit n = elim (Bool-cases (ltb n (precision * unit))) [
  | inl e ↦ rw (e, unit_from) (inl refl)
  | inr e ↦
      rw (e, unit_from)
        (elim (unit_small fuel (10 * unit) n) [
          | inl same ↦ inr (ground (arith, same))
          | inr small ↦ inr small
        ])
]

-- The fuel is enough: a number has at most 28 digits in its unit.
pub unit_fits :
    (fuel unit n : ℕ) → 0 < unit → n < unit + fuel → n < precision * unit_from fuel unit n
unfolding unit_from
unit_fits zero unit n p h = omega arith
unit_fits (suc fuel) unit n p h = elim (Bool-cases (ltb n (precision * unit))) [
  | inl e ↦ rw (e, unit_from) (ground arith)
  | inr e ↦ rw (e, unit_from) (unit_fits fuel (10 * unit) n (omega arith) (omega arith))
]

unit_of_few : (fuel n : ℕ) → n < precision → unit_from fuel 1 n ≡ 1
unfolding unit_from
unit_of_few zero n h = refl
unit_of_few (suc fuel) n h = elim (Bool-cases (ltb n (precision * 1))) [
  | inl e ↦ rw (e, unit_from) refl
  | inr e ↦ absurd (ground arith)
]

pub rounded_near : (n : ℕ) → (round_digits n ≤ n + slack n) × (n ≤ round_digits n + slack n)
unfolding round_digits slack
rounded_near n =
    let (above, below) = half_even_near n (unit_from n 1 n) (unit_positive n 1 n (omega arith)) in
    elim (Bool-cases (ltb n precision)) [
      | inl e ↦ rw e (ground (arith, above, below, unit_of_few n n))
      | inr e ↦ rw e (elim (unit_small n 1 n) [
        | inl one ↦ ground (arith, above, below, one)
        | inr small ↦ ground (arith, above, below, small)
      ])
    ]
