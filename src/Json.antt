-- ===== src/Json.antt =====
-- Values of unknown shape, as the factories receive them: what `JSON.parse` gives, `undefined`, and
-- `Date` objects, with the tests of utils/src/validation.ts.
use approvio.Base.{ℕ, String, Option, none, some, Bool, ◌==◌, if◌then◌else◌}
use approvio.Base.Int.{ℤ}

-- A JavaScript number: an integer, or one that `Number.isInteger` refuses.
pub data Number : Type 0 where
  integer : ℤ → Number
  fractional : Number

mutual
  pub data Json : Type 0 where
    undefined null : Json
    bool : Bool → Json
    num : Number → Json
    str : String → Json
    date : ℕ → Json
    arr : Items → Json
    obj : Fields → Json

  pub data Items : Type 0 where
    nil : Items
    cons : Json → Items → Items

  pub data Fields : Type 0 where
    end : Fields
    field : String → Json → Fields → Fields

-- `data.key`
unfoldable pub get : String → Fields → Json
get k end = undefined
get k (field j v fs) = if j == k then v else get k fs

-- `isObject`: the properties of the object, if the value is one. A `Date` has none of those read.
abbrev pub object_of : Json → Option Fields
object_of (obj fs) = some fs
object_of (date _) = some end
object_of _ = none

-- `typeof value === "string"`
abbrev pub string_of : Json → Option String
string_of (str s) = some s
string_of _ = none

-- `value instanceof Date`
abbrev pub date_of : Json → Option ℕ
date_of (date t) = some t
date_of _ = none

-- `typeof value === "number" && Number.isInteger(value)`
abbrev pub integer_of : Json → Option ℤ
integer_of (num (integer z)) = some z
integer_of _ = none

-- `Array.isArray(value)`
abbrev pub array_of : Json → Option Items
array_of (arr xs) = some xs
array_of _ = none
