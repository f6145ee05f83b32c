-- ===== src/Schema/Keys.antt =====
-- Keys are only cast where no value can change.
use bagelquant_data.Prelude.{
  ℕ, ◌≤◌, ◌≡◌, refl, sym, ◌∙◌, ap, Bool, true, false, ◌⊎◌, inl, inr, Option, none, some, List, [],
  ◌∷◌, All, arith, ==→eq,
}
use mathlib.Core.Path.{subst}
use bagelquant_data.Schema.Supertype.{resolve-step}
use bagelquant_data.Schema.{
  Result, ok, validation_error, key_error, ◌>>=◌, Integer, DataType, integer_width, common_dtype,
  resolve, is_safe_integer, is_safe_float, is_safe, source_type, check_key, compatible_key,
}

-- The largest value of each type, and how far its values go below 0.
abbrev pub highest : Integer → ℕ
highest Integer.int8 = 127
highest Integer.int16 = 32767
highest Integer.int32 = 2147483647
highest Integer.int64 = 9223372036854775807
highest Integer.int128 = 170141183460469231731687303715884105727
highest Integer.uint8 = 255
highest Integer.uint16 = 65535
highest Integer.uint32 = 4294967295
highest Integer.uint64 = 18446744073709551615
highest Integer.uint128 = 340282366920938463463374607431768211455

abbrev pub lowest : Integer → ℕ
lowest Integer.int8 = 128
lowest Integer.int16 = 32768
lowest Integer.int32 = 2147483648
lowest Integer.int64 = 9223372036854775808
lowest Integer.int128 = 170141183460469231731687303715884105728
lowest _ = 0

-- The integers that a type has without gaps: up to this one, and down to the other below 0. Those of a
-- float type go up to 2 to the power of its significand's bits, 11, 24 or 53.
abbrev pub top : DataType → ℕ
top (DataType.integer i) = highest i
top DataType.float16 = 2048
top DataType.float32 = 16777216
top DataType.float64 = 9007199254740992
top _ = 0

abbrev pub bottom : DataType → ℕ
bottom (DataType.integer i) = lowest i
bottom DataType.float16 = 2048
bottom DataType.float32 = 16777216
bottom DataType.float64 = 9007199254740992
bottom _ = 0

-- Every value of the first type is a value of the second.
abbrev pub Keeps : DataType → DataType → Type 0
Keeps DataType.null target = Unit
Keeps (DataType.integer i) target = (lowest i ≤ bottom target) × (highest i ≤ top target)
Keeps source target =
    (source ≡ target) ⊎ ((source ≡ DataType.float32) × (target ≡ DataType.float64))

is_safe_integer-Keeps :
    (i j : Integer)
    → is_safe_integer i j ≡ ok true
    → Keeps (DataType.integer i) (DataType.integer j)
unfolding is_safe_integer integer_width
is_safe_integer-Keeps i j h = ground arith

is_safe-float32 :
    (i : Integer)
    → is_safe (DataType.integer i) DataType.float32 ≡ ok true
    → Keeps (DataType.integer i) DataType.float32
unfolding is_safe is_safe_float integer_width
is_safe-float32 i h = ground arith

is_safe-float64 :
    (i : Integer)
    → is_safe (DataType.integer i) DataType.float64 ≡ ok true
    → Keeps (DataType.integer i) DataType.float64
unfolding is_safe is_safe_float integer_width
is_safe-float64 i h = ground arith

-- The types with which a column that resolves to Float16 starts.
abbrev may_be_half : DataType → Bool
may_be_half DataType.null = true
may_be_half DataType.string = true
may_be_half DataType.float16 = true
may_be_half _ = false

is_safe-Keeps :
    (s t : DataType)
    → (t ≡ DataType.float16 → may_be_half s ≡ true)
    → is_safe s t ≡ ok true
    → Keeps s t
unfolding is_safe
is_safe-Keeps DataType.null t half h = tt
is_safe-Keeps (DataType.integer i) (DataType.integer j) half h = is_safe_integer-Keeps i j h
is_safe-Keeps (DataType.integer i) DataType.float16 half h = cc (half refl)
is_safe-Keeps (DataType.integer i) DataType.float32 half h = is_safe-float32 i h
is_safe-Keeps (DataType.integer i) DataType.float64 half h = is_safe-float64 i h
is_safe-Keeps DataType.float32 DataType.float64 half h = inr (refl, refl)
is_safe-Keeps (DataType.decimal d) (DataType.decimal e) half h =
    inl (ap DataType.decimal (==→eq d e (ground (arith, h))))
is_safe-Keeps (DataType.other x) (DataType.other y) half h =
    inl (ap DataType.other (==→eq x y (ground (arith, h))))
is_safe-Keeps DataType.string DataType.string half h = inl refl
is_safe-Keeps DataType.float16 DataType.float16 half h = inl refl
is_safe-Keeps DataType.float32 DataType.float32 half h = inl refl
is_safe-Keeps DataType.float64 DataType.float64 half h = inl refl
is_safe-Keeps s t half h = cc

-- Float16 is only the common type of types that may become it.
common_dtype-half :
    (a b d : DataType)
    → common_dtype a b ≡ ok d
    → may_be_half d ≡ true
    → (may_be_half a ≡ true) × (may_be_half b ≡ true)
unfolding common_dtype
common_dtype-half a b d h half = ground arith

-- A call that returns has made the first call of its chain return.
>>=-eq-ok {ℓ κ} :
    {A : Type ℓ} {B : Type κ} (m : Result A) (f : A → Result B) (b : B)
    → (m >>= f) ≡ ok b
    → (a : A) × (m ≡ ok a) × (f a ≡ ok b)
>>=-eq-ok (ok a) f b h = (a, refl, h)
>>=-eq-ok validation_error f b h = cc
>>=-eq-ok key_error f b h = cc

resolve-half :
    (ss : List (Option DataType)) (c t : DataType)
    → resolve (some c) ss ≡ ok (some t)
    → may_be_half t ≡ true
    → (may_be_half c ≡ true) × All (λ s. may_be_half (source_type s) ≡ true) ss
unfolding resolve
resolve-half [] c t h half = (ground (arith, h, half), tt)
resolve-half (none ∷ ss) c t h half = let ih = resolve-half ss c t h half in (ih.0, (refl, ih.1))
resolve-half (some d ∷ ss) c t h half =
    let (e, common, rest) =
      >>=-eq-ok (common_dtype c d) (λ e. resolve (some e) ss) (some t)
        (sym (resolve-step c d ss) ∙ h) in
    let ih = resolve-half ss e t rest half in
    let both = common_dtype-half c d e common ih.0 in (both.0, (both.1, ih.1))

resolved-half :
    (ss : List (Option DataType)) (t : DataType)
    → resolve none ss ≡ ok (some t)
    → t ≡ DataType.float16
    → All (λ s. may_be_half (source_type s) ≡ true) ss
unfolding resolve
resolved-half [] t h e = tt
resolved-half (none ∷ ss) t h e = (refl, resolved-half ss t h e)
resolved-half (some d ∷ ss) t h e = resolve-half ss d t h (rw e refl)

check_key-cons :
    (t : DataType) (s : Option DataType) (ss : List (Option DataType))
    → check_key t (s ∷ ss) ≡ ok tt
    → (is_safe (source_type s) t ≡ ok true) × (check_key t ss ≡ ok tt)
unfolding check_key
check_key-cons t s ss h = (ground (arith, h), ground (arith, h))

check_key-Keeps :
    (t : DataType) (ss : List (Option DataType))
    → (t ≡ DataType.float16 → All (λ s. may_be_half (source_type s) ≡ true) ss)
    → check_key t ss ≡ ok tt
    → All (λ s. Keeps (source_type s) t) ss
check_key-Keeps t [] half h = tt
check_key-Keeps t (s ∷ ss) half h =
    let (safe, rest) = check_key-cons t s ss h in
    (
      is_safe-Keeps (source_type s) t (λ e. (half e).0) safe,
      check_key-Keeps t ss (λ e. (half e).1) rest,
    )

-- The key test on a column that resolves to `resolved`.
abbrev pub tested : List (Option DataType) → Option DataType → Result (Option DataType)
tested ss none = ok none
tested ss (some t) = check_key t ss >>= λ _. ok (some t)

tested-Keeps :
    (ss : List (Option DataType)) (target : DataType) (resolved : Option DataType)
    → resolve none ss ≡ ok resolved
    → tested ss resolved ≡ ok (some target)
    → All (λ s. Keeps (source_type s) target) ss
tested-Keeps ss target none eq h = cc
tested-Keeps ss target (some t) eq h =
    let (u, checked, same) = >>=-eq-ok (check_key t ss) (λ _. ok (some t)) (some target) h in
    let e : t ≡ target = cc same in
    subst (λ t. All (λ s. Keeps (source_type s) t) ss) e
      (check_key-Keeps t ss (resolved-half ss t eq) checked)

pub compatible_key-tested :
    (ss : List (Option DataType)) → compatible_key ss ≡ (resolve none ss >>= tested ss)
unfolding compatible_key
compatible_key-tested ss = ground arith

-- Where compatible_key_schema accepts a key column, the cast of the column from each of its types to the
-- resolved one keeps every value: the values of an integer type all lie where the resolved type has
-- every integer, and any other type is Null, the resolved type itself, or Float32 cast to Float64.
pub compatible_key-Keeps :
    (schemas : List (Option DataType)) (target : DataType)
    → compatible_key schemas ≡ ok (some target)
    → All (λ s. Keeps (source_type s) target) schemas
compatible_key-Keeps ss target h =
    let (resolved, eq, checked) =
      >>=-eq-ok (resolve none ss) (tested ss) (some target) (sym (compatible_key-tested ss) ∙ h) in
    tested-Keeps ss target resolved eq checked
