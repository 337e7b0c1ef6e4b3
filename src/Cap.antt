-- ===== src/Cap.antt =====
-- storage.py: the virtual size of a volume, `_capped_virtual_size` and `_desired_volume_size`. A
-- product of decimals is rounded to the 28 digits of Python's default context.
pub mod Bounds
pub mod Rounding
use sbnb.Prelude.{
  ℕ, zero, suc, ◌+◌, ◌-◌, ◌*◌, ◌/◌, ◌%◌, ◌^◌, Bool, true, false, not, ◌||◌, ◌&&◌, Option, none,
  some, ltb, ◌==◌, if◌then◌else◌,
}

-- A cap in percent: a decimal, by its digits and the number of them that stand behind the point, one
-- below zero, or what is no number or not finite.
pub data Percent : Type 0 where
  decimal : ℕ → ℕ → Percent
  negative not_finite : Percent

-- the least number that has more than 28 digits
abbrev pub precision : ℕ
precision = 10000000000000000000000000000

-- the power of ten, from `unit` on, that leaves a number at most 28 digits
pub unit_from : ℕ → ℕ → ℕ → ℕ
unit_from zero unit n = unit
unit_from (suc fuel) unit n = elim (ltb n (precision * unit)) [
  | true ↦ unit
  | false ↦ unit_from fuel (10 * unit) n
]

-- ROUND_HALF_EVEN: the nearest multiple of the unit, of two as near the even one
pub half_even : ℕ → ℕ → ℕ
half_even n unit =
    let down = n / unit * unit in
    if ltb (2 * (n % unit)) unit || 2 * (n % unit) == unit && (n / unit) % 2 == 0
    then down
    else down + unit

-- a product of decimals, in units of the last place of the exact one
unfoldable pub round_digits : ℕ → ℕ
unfolding unit_from half_even
round_digits n = half_even n (unit_from n 1 n)

-- `math.lcm`: the first multiple of `a`, from the one times `k` on, that `b` divides
lcm_from : ℕ → ℕ → ℕ → ℕ → ℕ
lcm_from zero k a b = b * a
lcm_from (suc fuel) k a b =
    let rest = lcm_from fuel (k + 1) a b in if (k * a) % b == 0 then k * a else rest

unfoldable pub lcm : ℕ → ℕ → ℕ
unfolding lcm_from
lcm a b = lcm_from b 1 a b

-- the largest multiple of the alignment, if it is not zero and fits the pool
pub aligned_size : ℕ → ℕ → ℕ → Option ℕ
aligned_size pool raw alignment =
    let aligned = raw - raw % alignment in
    if aligned == 0 || ltb pool aligned then none else some aligned

-- The quotient by 100 has no more digits than the product, and the floor is not rounded.
pub capped_decimal : ℕ → ℕ → ℕ → ℕ → ℕ → Option ℕ
unfolding aligned_size lcm round_digits
capped_decimal pool digits places sector allocation =
    if pool == 0 || sector == 0 || allocation == 0 || digits == 0 || ltb (100 * 10 ^ places) digits
    then none
    else aligned_size pool (round_digits (pool * digits) / (100 * 10 ^ places))
        (lcm sector allocation)

-- `_capped_virtual_size`; none is the ValueError
unfoldable pub capped_virtual_size : ℕ → Percent → ℕ → ℕ → Option ℕ
unfolding capped_decimal
capped_virtual_size pool (decimal digits places) sector allocation =
    capped_decimal pool digits places sector allocation
capped_virtual_size pool negative sector allocation = none
capped_virtual_size pool not_finite sector allocation = none

-- `_desired_volume_size`: the size of the pool, the cap of the path, and the sizes that
-- `_vg_mapper_sector_size` and `_vg_extent_size` give unless they raise
unfoldable pub desired_volume_size : Option ℕ → Option Percent → Option ℕ → Option ℕ → Option ℕ
unfolding capped_virtual_size
desired_volume_size none cap sector extent = none
desired_volume_size (some pool) none sector extent = some pool
desired_volume_size (some pool) (some percent) (some sector) (some extent) =
    capped_virtual_size pool percent sector extent
desired_volume_size (some pool) (some percent) _ _ = none
