-- ===== src/Luks.antt =====
-- storage.py: the choice of a LUKS sector size, the checks before a batch of disks is wiped, and
-- the provisioning of the batch. What the commands answer is a `World`, by the path of the device;
-- what the code does to disks and mappers is recorded, the latest action first.
pub mod SectorSize
pub mod Stack
pub mod Provision
pub mod Alike
pub mod Preflight
use Prim.Native.Nat.{bit_and}
use Prim.Native.String.{◌++◌ as str_append}
use sbnb.Prelude.{
  ℕ, zero, suc, ◌+◌, ◌-◌, ◌%◌, String, Bool, true, false, not, ◌&&◌, ◌||◌, Option, none, some, List,
  [], ◌∷◌, ltb, leb, ◌==◌, str_eq, if◌then◌else◌, elem, all,
}
use sbnb.Prelude.Dict.{Dict}

-- The reasons for a `RuntimeError` that the code raises.
pub data Error : Type 0 where
  no_devices no_mappers duplicate_target duplicate_mapper missing_device unreadable : Error
  invalid_geometry no_common_size : Error
  wipe_failed key_failed format_failed open_failed open_timed_out wrong_sector_size : Error
  sizes_differ unsupported_size other_size : Error

-- What a call gives that may raise: `err` is the exception.
pub data Result {ℓ} (Value : Type ℓ) : Type ℓ where
  err : Error → Result Value
  ok : Value → Result Value

infixl 10 ◌>>=◌ ◌>>◌
-- the statements after a call, which an exception skips
abbrev pub ◌>>=◌ {ℓ} : {A B : Type ℓ} → Result A → (A → Result B) → Result B
err raised >>= rest = err raised
ok value >>= rest = rest value

abbrev pub ◌>>◌ : {B : Type 0} → Result (Unit {0}) → Result B → Result B
err raised >> rest = err raised
ok done >> rest = rest

-- `if bad: raise …`
abbrev pub refuse : Bool → Error → Result (Unit {0})
refuse true e = err e
refuse false e = ok tt

pub record Geometry : Type 0 where
  pub logical : ℕ
  pub physical : ℕ
  pub size : ℕ

-- LUKS_SECTOR_SIZES
abbrev pub luks_sector_sizes : List ℕ
luks_sector_sizes = 4096 ∷ 2048 ∷ 1024 ∷ 512 ∷ []

pub record World : Type 0 where
  pub exists : String → Bool
  -- `blockdev`: none where the command fails or prints no number
  pub getss : String → Option ℕ
  pub getpbsz : String → Option ℕ
  pub getsize64 : String → Option ℕ
  pub key_written : Bool
  pub wiped : String → Bool
  pub formatted : String → Bool
  pub opened : String → Bool
  -- a `luksOpen` that was not answered, and whether a `luksClose` succeeds, which is not read
  pub open_times_out : String → Bool
  pub closes : String → Bool

-- `_is_power_of_two`
unfoldable pub is_power_of_two : ℕ → Bool
is_power_of_two value = ltb 0 value && bit_and value (value - 1) == 0

-- `_read_blockdev_int`
unfoldable pub read_blockdev_int : Option ℕ → Result ℕ
read_blockdev_int none = err unreadable
read_blockdev_int (some n) = ok n

unfoldable pub invalid : Geometry → Bool
unfolding is_power_of_two
invalid g =
    not (is_power_of_two g.logical)
    || not (is_power_of_two g.physical)
    || ltb g.logical 512
    || ltb g.physical g.logical
    || g.size == 0

-- `_read_block_geometry`
unfoldable pub read_block_geometry : World → String → Result Geometry
unfolding read_blockdev_int invalid
read_block_geometry w target = do
  logical ← read_blockdev_int (w.getss target)
  physical ← read_blockdev_int (w.getpbsz target)
  size ← read_blockdev_int (w.getsize64 target)
  let geometry : Geometry = record { logical = logical; physical = physical; size = size }
  refuse (invalid geometry) invalid_geometry
  ok geometry

-- whether a sector of this size suits the disk
unfoldable pub suits : ℕ → Geometry → Bool
suits candidate g =
    leb g.logical candidate
    && leb candidate g.physical
    && candidate % g.logical == 0
    && g.physical % candidate == 0
    && g.size % candidate == 0

abbrev pub is_supported : ℕ → Bool
is_supported n = n == 4096 || n == 2048 || n == 1024 || n == 512

-- the loop of `_choose_luks_sector_size`
unfoldable pub first_suiting : List ℕ → List Geometry → Result ℕ
unfolding suits all
first_suiting [] gs = err no_common_size
first_suiting (c ∷ cs) gs =
    let rest = first_suiting cs gs in if is_supported c && all (suits c) gs then ok c else rest

pub candidates_of : Option ℕ → List ℕ
candidates_of none = luks_sector_sizes
candidates_of (some n) = n ∷ []

is_empty : List Geometry → Bool
is_empty [] = true
is_empty (g ∷ gs) = false

-- `_choose_luks_sector_size`
unfoldable pub choose_luks_sector_size : List Geometry → Option ℕ → Result ℕ
unfolding first_suiting candidates_of is_empty
choose_luks_sector_size gs required = do
  refuse (is_empty gs) no_devices
  first_suiting (candidates_of required) gs

-- `len(set(xs)) != len(xs)`
unfoldable pub has_duplicate : List String → Bool
unfolding elem
has_duplicate [] = false
has_duplicate (x ∷ xs) = elem x xs || has_duplicate xs

abbrev pub paths : List (String × String) → List String
paths [] = []
paths ((target, mapper) ∷ ts) = target ∷ paths ts

abbrev pub mappers : List (String × String) → List String
mappers [] = []
mappers ((target, mapper) ∷ ts) = mapper ∷ mappers ts

unfoldable pub read_geometries : World → List String → Result (List Geometry)
unfolding read_block_geometry
read_geometries w [] = ok []
read_geometries w (t ∷ ts) = do g ← read_block_geometry w t; gs ← read_geometries w ts; ok (g ∷ gs)

pub no_targets : List (String × String) → Bool
no_targets [] = true
no_targets (t ∷ ts) = false

-- `_preflight_luks_targets`
unfoldable pub preflight_luks_targets : World → List (String × String) → Option ℕ → Result ℕ
unfolding no_targets has_duplicate read_geometries choose_luks_sector_size all
preflight_luks_targets w targets required = do
  refuse (no_targets targets) no_devices
  refuse (has_duplicate (paths targets)) duplicate_target
  refuse (has_duplicate (mappers targets)) duplicate_mapper
  refuse (not (all w.exists (paths targets))) missing_device
  gs ← read_geometries w (paths targets)
  choose_luks_sector_size gs required
