-- ===== src/Schema/Tests.antt =====
-- Columns of signed and unsigned integers, text that was read before its numbers, and keys.
use mathlib.Core.List.Perm
use bagelquant_data.Prelude.{◌≡◌, refl, false, Option, none, some, [], ◌∷◌, All, any}
use bagelquant_data.Schema.{
  ok, validation_error, Integer, DataType, integer_width, integer_supertype, common_integer,
  common_dtype, resolve, source_type, compatible_key,
}
use bagelquant_data.Schema.Supertype.{resolve-Perm}
use bagelquant_data.Schema.Keys.{Keeps, compatible_key-Keeps}
use bagelquant_data.Schema.Integers.{
  raises_key_error, raises_validation_error, integer_column, is_uint128,
  compatible_key-integer_column,
}

abbrev small : Option DataType
small = some (DataType.integer Integer.int8)

abbrev large : Option DataType
large = some (DataType.integer Integer.uint64)

resolve-mixed :
    resolve none (small ∷ none ∷ some DataType.string ∷ large ∷ [])
    ≡ ok (some (DataType.integer Integer.int128))
unfolding resolve common_dtype common_integer integer_supertype integer_width
resolve-mixed = refl

resolve-Perm_example :
    resolve none (large ∷ some DataType.string ∷ [])
    ≡ resolve none (some DataType.string ∷ large ∷ [])
resolve-Perm_example =
    resolve-Perm (large ∷ some DataType.string ∷ []) (some DataType.string ∷ large ∷ [])
      (Perm.swap (some DataType.string) large [])

abbrev unsigned : Option DataType
unsigned = some (DataType.integer Integer.uint32)

abbrev fraction : Option DataType
fraction = some DataType.float32

-- Two sizes of integers have a common type; integers and Float32 have Float64, which 64 bits do not fit.
compatible_keys :
    (compatible_key (unsigned ∷ small ∷ []) ≡ ok (some (DataType.integer Integer.int64)))
    × (compatible_key (unsigned ∷ none ∷ fraction ∷ []) ≡ ok (some DataType.float64))
    × (compatible_key (large ∷ fraction ∷ []) ≡ validation_error)
unfolding compatible_key common_dtype common_integer integer_supertype integer_width
compatible_keys = (refl, refl, refl)

compatible_key-Keeps_example :
    All (λ s. Keeps (source_type s) DataType.float64) (unsigned ∷ none ∷ fraction ∷ [])
compatible_key-Keeps_example =
    compatible_key-Keeps (unsigned ∷ none ∷ fraction ∷ []) DataType.float64 (compatible_keys.1)

compatible_key-integer_column_example :
    (raises_key_error
        (compatible_key (integer_column (some Integer.uint128 ∷ some Integer.uint128 ∷ [])))
      ≡ any is_uint128 (some Integer.uint128 ∷ some Integer.uint128 ∷ []))
    × (raises_validation_error
          (compatible_key (integer_column (some Integer.uint128 ∷ some Integer.uint128 ∷ [])))
        ≡ false)
compatible_key-integer_column_example =
    compatible_key-integer_column (some Integer.uint128 ∷ some Integer.uint128 ∷ [])
