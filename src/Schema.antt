-- ===== src/Schema.antt =====
-- The reconciliation of column types in core/schema.py. A schema is the type of one column in it, or none;
-- types without a rule of their own are `other`, with a number that tells them apart, and `decimal` has
-- one for its precision and scale.
pub mod Supertype
pub mod Keys
pub mod Integers
mod Tests
use bagelquant_data.Prelude.{
  ℕ, Bool, true, false, not, ◌&&◌, ◌||◌, Option, none, some, List, [], ◌∷◌, ◌==◌, leb, ltb,
  if◌then◌else◌,
}

-- What a call returns or raises: ValidationError, and the KeyError of a dict.
pub data Result {ℓ} (A : Type ℓ) : Type ℓ where
  ok : A → Result A
  validation_error key_error : Result A

infixl 5 ◌>>=◌
abbrev pub ◌>>=◌ {ℓ κ} : {A : Type ℓ} {B : Type κ} → Result A → (A → Result B) → Result B
ok a >>= f = f a
validation_error >>= f = validation_error
key_error >>= f = key_error

-- The types that `is_integer` accepts.
pub data Integer : Type 0 where
  int8 int16 int32 int64 int128 uint8 uint16 uint32 uint64 uint128 : Integer

pub data DataType : Type 0 where
  null string float16 float32 float64 : DataType
  integer : Integer → DataType
  decimal other : ℕ → DataType

-- A number for each integer type, and `==` on them.
abbrev pub integer_tag : Integer → ℕ
integer_tag Integer.int8 = 0
integer_tag Integer.int16 = 1
integer_tag Integer.int32 = 2
integer_tag Integer.int64 = 3
integer_tag Integer.int128 = 4
integer_tag Integer.uint8 = 5
integer_tag Integer.uint16 = 6
integer_tag Integer.uint32 = 7
integer_tag Integer.uint64 = 8
integer_tag Integer.uint128 = 9

abbrev pub same_integer : Integer → Integer → Bool
same_integer i j = integer_tag i == integer_tag j

-- `dtype in signed`
abbrev pub is_signed : Integer → Bool
is_signed Integer.int8 = true
is_signed Integer.int16 = true
is_signed Integer.int32 = true
is_signed Integer.int64 = true
is_signed Integer.int128 = true
is_signed _ = false

-- `dtype in unsigned`
abbrev pub is_unsigned : Integer → Bool
is_unsigned Integer.uint8 = true
is_unsigned Integer.uint16 = true
is_unsigned Integer.uint32 = true
is_unsigned Integer.uint64 = true
is_unsigned _ = false

-- The dict has no UInt128.
unfoldable pub integer_width : Integer → Result ℕ
integer_width Integer.int8 = ok 8
integer_width Integer.uint8 = ok 8
integer_width Integer.int16 = ok 16
integer_width Integer.uint16 = ok 16
integer_width Integer.int32 = ok 32
integer_width Integer.uint32 = ok 32
integer_width Integer.int64 = ok 64
integer_width Integer.int128 = ok 128
integer_width Integer.uint64 = ok 64
integer_width Integer.uint128 = key_error

-- `max((left, right), key=_integer_width)`, the first of equals.
abbrev pub wider : Integer → Integer → Result Integer
wider left right =
    integer_width left >>= λ l. integer_width right >>= λ r. ok (if ltb l r then right else left)

-- `dtype in (pl.UInt64, pl.Int128)`
abbrev pub is_widest : Integer → Bool
is_widest Integer.uint64 = true
is_widest Integer.int128 = true
is_widest _ = false

unfoldable pub integer_supertype : Integer → Integer → Result Integer
unfolding integer_width
integer_supertype left right =
    if is_signed left && is_signed right
    then wider left right
    else if is_unsigned left && is_unsigned right
    then wider left right
    else if is_widest left || is_widest right
    then ok Integer.int128
    else ok Integer.int64

-- `_common_dtype` on two integer types.
unfoldable pub common_integer : Integer → Integer → Result Integer
unfolding integer_supertype
common_integer left right =
    if same_integer left right then ok left else integer_supertype left right

abbrev pub same_sign : Bool → Bool → Bool
same_sign true b = b
same_sign false b = not b

abbrev pub is_numeric : DataType → Bool
is_numeric (DataType.integer _) = true
is_numeric (DataType.decimal _) = true
is_numeric DataType.float16 = true
is_numeric DataType.float32 = true
is_numeric DataType.float64 = true
is_numeric _ = false

-- The last tests of `_common_dtype`, on types that differ, of which none is Null and at most one an
-- integer.
abbrev pub numeric_dtype : DataType → DataType → Result DataType
numeric_dtype DataType.string right = if is_numeric right then ok right else validation_error
numeric_dtype left DataType.string = if is_numeric left then ok left else validation_error
numeric_dtype left right =
    if is_numeric left && is_numeric right then ok DataType.float64 else validation_error

unfoldable pub common_dtype : DataType → DataType → Result DataType
unfolding common_integer
common_dtype DataType.null right = ok right
common_dtype left DataType.null = ok left
common_dtype DataType.string DataType.string = ok DataType.string
common_dtype DataType.float16 DataType.float16 = ok DataType.float16
common_dtype DataType.float32 DataType.float32 = ok DataType.float32
common_dtype (DataType.integer i) (DataType.integer j) =
    common_integer i j >>= λ k. ok (DataType.integer k)
common_dtype (DataType.decimal d) (DataType.decimal e) =
    ok (if d == e then DataType.decimal d else DataType.float64)
common_dtype (DataType.other x) (DataType.other y) =
    if x == y then ok (DataType.other x) else validation_error
common_dtype left right = numeric_dtype left right

-- `compatible_schema` for one column: what is resolved so far, and the column's type in the schemas that
-- follow, where they have it.
unfoldable pub resolve : Option DataType → List (Option DataType) → Result (Option DataType)
unfolding common_dtype
resolve current [] = ok current
resolve current (none ∷ schemas) = resolve current schemas
resolve none (some dtype ∷ schemas) = resolve (some dtype) schemas
resolve (some current) (some dtype ∷ schemas) = elim (common_dtype current dtype) [
  | ok d ↦ resolve (some d) schemas
  | validation_error ↦ validation_error
  | key_error ↦ key_error
]

-- The test of `compatible_key_schema` on two integer types.
unfoldable pub is_safe_integer : Integer → Integer → Result Bool
unfolding integer_width
is_safe_integer source target = integer_width source >>= λ source_bits.
    integer_width target >>= λ target_bits. ok (
      same_sign (is_signed source) (is_signed target) && leb source_bits target_bits
      || not (is_signed source) && is_signed target && ltb source_bits target_bits)

-- The test on an integer type and a float type, whose precision is 24 for Float32 and 53 otherwise.
unfoldable pub is_safe_float : Integer → ℕ → Result Bool
unfolding integer_width
is_safe_float source precision = integer_width source >>= λ bits. ok (leb bits precision)

-- `source == target or source == pl.Null`
abbrev pub is_same : DataType → DataType → Bool
is_same DataType.null target = true
is_same DataType.string DataType.string = true
is_same DataType.float16 DataType.float16 = true
is_same DataType.float32 DataType.float32 = true
is_same DataType.float64 DataType.float64 = true
is_same (DataType.decimal d) (DataType.decimal e) = d == e
is_same (DataType.other x) (DataType.other y) = x == y
is_same source target = false

-- `safe`, as the tests leave it.
unfoldable pub is_safe : DataType → DataType → Result Bool
unfolding is_safe_integer is_safe_float
is_safe (DataType.integer s) (DataType.integer t) = is_safe_integer s t
is_safe (DataType.integer s) DataType.float32 = is_safe_float s 24
is_safe (DataType.integer s) DataType.float16 = is_safe_float s 53
is_safe (DataType.integer s) DataType.float64 = is_safe_float s 53
is_safe DataType.float32 DataType.float64 = ok true
is_safe source target = ok (is_same source target)

-- `schema.get(key, pl.Null)`
abbrev pub source_type : Option DataType → DataType
source_type none = DataType.null
source_type (some dtype) = dtype

-- The loop of `compatible_key_schema` over the schemas, for one key.
unfoldable pub check_key : DataType → List (Option DataType) → Result (Unit {0})
unfolding is_safe
check_key target [] = ok tt
check_key target (schema ∷ schemas) = elim (is_safe (source_type schema) target) [
  | ok true ↦ check_key target schemas
  | ok false ↦ validation_error
  | validation_error ↦ validation_error
  | key_error ↦ key_error
]

-- `compatible_key_schema` for a column that is a key.
unfoldable pub compatible_key : List (Option DataType) → Result (Option DataType)
unfolding resolve check_key
compatible_key schemas = resolve none schemas >>= λ resolved. elim resolved [
  | none ↦ ok none
  | some target ↦ check_key target schemas >>= λ _. ok (some target)
]
