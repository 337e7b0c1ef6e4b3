-- ===== src/Json/Access.antt =====
-- Reading and writing the members of JSON values.
use sbnb.Prelude.{
  String, Bool, false, ◌≡◌, refl, Option, none, some, List, [], arith, str_eq, eq_iff,
  if◌then◌else◌, ◌||◌,
}
use sbnb.Json.{Json, null, array, object, Fields, end, field, items, truthy}

-- `fs.get(k)`, where a missing key gives `None`
unfoldable pub find : String → Fields → Json
find k end = null
find k (field j v fs) = if str_eq j k then v else find k fs

-- `k in fs`
unfoldable pub has_key : String → Fields → Bool
has_key k end = false
has_key k (field j v fs) = str_eq j k || has_key k fs

-- `fs[k] = v`
unfoldable pub set_key : String → Json → Fields → Fields
set_key k v end = field k v end
set_key k v (field j w fs) = if str_eq j k then field j v fs else field j w (set_key k v fs)

-- `value.get(k)`; only an object has a `get`
unfoldable pub get? : String → Json → Option Json
get? k (object fs) = some (find k fs)
get? k _ = none

-- `for x in value or []`, where each x must have a `get`: an object or a text that is not empty
-- gives texts, which have none, and a number cannot be iterated.
unfoldable pub each : Json → Option (List Json)
each (array xs) = some (items xs)
each v = if truthy v then none else some []

-- `value or {}` where a `get` follows
unfoldable pub or_object : Json → Json
or_object v = if truthy v then v else object end

pub find-set_key :
    (k j : String) (v : Json) (fs : Fields)
    → find j (set_key k v fs) ≡ (if str_eq k j then v else find j fs)
unfolding find set_key
find-set_key k j v end = refl
find-set_key k j v (field i w fs) =
    ground (arith, eq_iff k j, eq_iff i k, eq_iff i j, find-set_key k j v fs)

-- the Option monad: `none` is an exception that the code does not catch
infixl 10 ◌>>=◌
abbrev pub ◌>>=◌ {ℓ κ} : {A : Type ℓ} {B : Type κ} → Option A → (A → Option B) → Option B
none >>= f = none
some a >>= f = f a
