-- ===== src/Schema/Integers.antt =====
-- Key columns of integers, and the type that the table of widths lacks.
use bagelquant_data.Prelude.{
  ◌≡◌, refl, sym, ◌∙◌, ap, Bool, true, false, ◌&&◌, inl, inr, Option, none, some, List, [], ◌∷◌,
  any, All, arith, Bool-cases, if◌then◌else◌,
}
use bagelquant_data.Schema.Supertype.{resolve_after, resolve-step}
use bagelquant_data.Schema.Keys.{tested, compatible_key-tested}
use bagelquant_data.Schema.{
  Result, ok, validation_error, key_error, ◌>>=◌, Integer, DataType, integer_width,
  integer_supertype, common_integer, common_dtype, resolve, is_safe_integer, is_safe, check_key,
  compatible_key,
}

abbrev pub raises_key_error {ℓ} : {A : Type ℓ} → Result A → Bool
raises_key_error key_error = true
raises_key_error _ = false

abbrev pub raises_validation_error {ℓ} : {A : Type ℓ} → Result A → Bool
raises_validation_error validation_error = true
raises_validation_error _ = false

-- A column that schemas have with integer types, or lack.
abbrev pub integer_column : List (Option Integer) → List (Option DataType)
integer_column [] = []
integer_column (none ∷ is) = none ∷ integer_column is
integer_column (some i ∷ is) = some (DataType.integer i) ∷ integer_column is

abbrev pub is_uint128 : Option Integer → Bool
is_uint128 (some Integer.uint128) = true
is_uint128 _ = false

-- The type of two integers, which always is one.
joined : Integer → Integer → Integer
unfolding common_integer
joined i j = elim (common_integer i j) [ ok k ↦ k | _ ↦ Integer.int64 ]

common_integer-joined : (i j : Integer) → common_integer i j ≡ ok (joined i j)
unfolding joined common_integer integer_supertype integer_width
common_integer-joined i j = ground arith

common_dtype-joined :
    (i j : Integer)
    → common_dtype (DataType.integer i) (DataType.integer j) ≡ ok (DataType.integer (joined i j))
unfolding common_dtype
common_dtype-joined i j = ap (λ r. r >>= λ k. ok (DataType.integer k)) (common_integer-joined i j)

joined_all : Integer → List (Option Integer) → Integer
joined_all c [] = c
joined_all c (none ∷ is) = joined_all c is
joined_all c (some i ∷ is) = joined_all (joined c i) is

resolve-joined_all :
    (c : Integer) (is : List (Option Integer))
    → resolve (some (DataType.integer c)) (integer_column is)
      ≡ ok (some (DataType.integer (joined_all c is)))
unfolding resolve joined_all
resolve-joined_all c [] = refl
resolve-joined_all c (none ∷ is) = resolve-joined_all c is
resolve-joined_all c (some i ∷ is) =
    resolve-step (DataType.integer c) (DataType.integer i) (integer_column is)
    ∙ (ap (λ r. resolve_after r (integer_column is)) (common_dtype-joined c i)
        ∙ resolve-joined_all (joined c i) is)

-- The key test does not call the cast from the first type to the second unsafe.
abbrev never_refused : Integer → Integer → Bool
never_refused i Integer.uint128 = is_uint128 (some i)
never_refused i j = elim (is_safe_integer i j) [
  | ok safe ↦ safe
  | key_error ↦ true
  | validation_error ↦ false
]

never_refused_self : (i : Integer) → never_refused i i ≡ true
unfolding is_safe_integer integer_width
never_refused_self i = ground arith

never_refused-joined :
    (c i : Integer) → (never_refused c (joined c i) && never_refused i (joined c i)) ≡ true
unfolding joined common_integer integer_supertype is_safe_integer integer_width
never_refused-joined c i = ground arith

never_refused_trans :
    (i c j : Integer) → never_refused i c ≡ true → never_refused i (joined c j) ≡ true
unfolding joined common_integer integer_supertype is_safe_integer integer_width
never_refused_trans i c j h = ground arith

-- What is accepted stays accepted when more types are joined, and each joined type is.
joined_all-keeps :
    (i c : Integer) (is : List (Option Integer))
    → never_refused i c ≡ true
    → never_refused i (joined_all c is) ≡ true
unfolding joined_all
joined_all-keeps i c [] h = h
joined_all-keeps i c (none ∷ is) h = joined_all-keeps i c is h
joined_all-keeps i c (some j ∷ is) h =
    joined_all-keeps i (joined c j) is (never_refused_trans i c j h)

abbrev Accepted : Integer → Option Integer → Type 0
Accepted t none = Unit
Accepted t (some i) = never_refused i t ≡ true

joined_all-Accepted :
    (c : Integer) (is : List (Option Integer)) → All (Accepted (joined_all c is)) is
unfolding joined_all
joined_all-Accepted c [] = tt
joined_all-Accepted c (none ∷ is) = (tt, joined_all-Accepted c is)
joined_all-Accepted c (some i ∷ is) = (
  joined_all-keeps i (joined c i) is (ground (arith, never_refused-joined c i)),
  joined_all-Accepted (joined c i) is,
)

is_safe_integer-cases :
    (i t : Integer)
    → never_refused i t ≡ true
    → is_safe_integer i t ≡ (if is_uint128 (some i) then key_error else ok true)
unfolding is_safe_integer integer_width
is_safe_integer-cases i t h = ground arith

-- Only a KeyError is raised, and only for UInt128.
abbrev RaisesFor {ℓ} : {A : Type ℓ} → List (Option Integer) → Result A → Type 0
RaisesFor is r = (raises_key_error r ≡ any is_uint128 is) × (raises_validation_error r ≡ false)

check_key-RaisesFor :
    (t : Integer) (is : List (Option Integer))
    → All (Accepted t) is
    → RaisesFor is (check_key (DataType.integer t) (integer_column is))
unfolding check_key is_safe
check_key-RaisesFor t [] h = (refl, refl)
check_key-RaisesFor t (none ∷ is) h = check_key-RaisesFor t is h.1
check_key-RaisesFor t (some i ∷ is) h =
    let ih = check_key-RaisesFor t is h.1 in
    let e = is_safe_integer-cases i t h.0 in
    elim (Bool-cases (is_uint128 (some i))) [
      | inl missing ↦ (ground (arith, e, missing), ground (arith, e, missing))
      | inr listed ↦ (ground (arith, e, listed, ih), ground (arith, e, listed, ih))
    ]

joined_first : List (Option Integer) → Option Integer
joined_first [] = none
joined_first (none ∷ is) = joined_first is
joined_first (some i ∷ is) = some (joined_all i is)

abbrev as_dtype : Option Integer → Option DataType
as_dtype none = none
as_dtype (some i) = some (DataType.integer i)

resolve-joined_first :
    (is : List (Option Integer))
    → resolve none (integer_column is) ≡ ok (as_dtype (joined_first is))
unfolding resolve joined_first
resolve-joined_first [] = refl
resolve-joined_first (none ∷ is) = resolve-joined_first is
resolve-joined_first (some i ∷ is) = resolve-joined_all i is

abbrev AllAccepted : Option Integer → List (Option Integer) → Type 0
AllAccepted none is = any is_uint128 is ≡ false
AllAccepted (some t) is = All (Accepted t) is

AllAccepted-absent :
    (o : Option Integer) (is : List (Option Integer)) → AllAccepted o is → AllAccepted o (none ∷ is)
AllAccepted-absent none is h = h
AllAccepted-absent (some t) is h = (tt, h)

joined_first-AllAccepted : (is : List (Option Integer)) → AllAccepted (joined_first is) is
unfolding joined_first
joined_first-AllAccepted [] = refl
joined_first-AllAccepted (none ∷ is) =
    AllAccepted-absent (joined_first is) is (joined_first-AllAccepted is)
joined_first-AllAccepted (some i ∷ is) =
    (joined_all-keeps i i is (never_refused_self i), joined_all-Accepted i is)

then-RaisesFor {ℓ κ} :
    {A : Type ℓ} {B : Type κ} (is : List (Option Integer)) (r : Result A) (b : B)
    → RaisesFor is r
    → RaisesFor is (r >>= λ _. ok b)
then-RaisesFor is (ok a) b h = h
then-RaisesFor is validation_error b h = h
then-RaisesFor is key_error b h = h

tested-RaisesFor :
    (is : List (Option Integer)) (o : Option Integer)
    → AllAccepted o is
    → RaisesFor is (tested (integer_column is) (as_dtype o))
tested-RaisesFor is none h = (sym h, refl)
tested-RaisesFor is (some t) h =
    then-RaisesFor is (check_key (DataType.integer t) (integer_column is))
      (some (DataType.integer t)) (check_key-RaisesFor t is h)

-- For a key column that every schema has with an integer type or lacks, compatible_key_schema raises
-- KeyError exactly when one of these types is UInt128, also where all of them are, and raises
-- ValidationError never: the integer types but UInt128 always resolve to a type to which the key test
-- accepts the cast of each.
pub compatible_key-integer_column :
    (is : List (Option Integer))
    → (raises_key_error (compatible_key (integer_column is)) ≡ any is_uint128 is)
      × (raises_validation_error (compatible_key (integer_column is)) ≡ false)
compatible_key-integer_column is =
    rw (compatible_key-tested (integer_column is), resolve-joined_first is)
      (tested-RaisesFor is (joined_first is) (joined_first-AllAccepted is))
