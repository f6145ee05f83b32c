-- ===== src/Schema/Supertype.antt =====
-- The common type of columns does not depend on the order of their schemas.
use mathlib.Core.List.{Perm, Permᴰ}
use mathlib.Core.Logic.{∥∥₁_elim}
use native.Mathlib.Decide.{ℕ_discrete}
use bagelquant_data.Prelude.{◌≡◌, refl, sym, ◌∙◌, ap, Option, none, some, List, ◌∷◌, arith}
use bagelquant_data.Schema.{
  Result, ok, validation_error, key_error, ◌>>=◌, Integer, DataType, integer_width,
  integer_supertype, common_integer, common_dtype, resolve,
}

pub common_integer_sym : (i j : Integer) → common_integer i j ≡ common_integer j i
unfolding common_integer integer_supertype integer_width
common_integer_sym i j = ground arith

abbrev then_integer : Result Integer → Integer → Result Integer
then_integer r k = r >>= λ j. common_integer j k

common_integer_comm :
    (i j k : Integer) → then_integer (common_integer i j) k ≡ then_integer (common_integer i k) j
unfolding common_integer integer_supertype integer_width
common_integer_comm i j k = ground arith

abbrev then_common : Result DataType → DataType → Result DataType
then_common r b = r >>= λ a. common_dtype a b

abbrev as_dtype : Result Integer → Result DataType
as_dtype r = r >>= λ k. ok (DataType.integer k)

then_common-as_dtype :
    (r : Result Integer) (k : Integer)
    → then_common (as_dtype r) (DataType.integer k) ≡ as_dtype (then_integer r k)
unfolding common_dtype
then_common-as_dtype (ok j) k = refl
then_common-as_dtype validation_error k = refl
then_common-as_dtype key_error k = refl

common_dtype-integer :
    (i : Integer) (b : DataType)
    → common_dtype (DataType.integer i) b ≡ common_dtype b (DataType.integer i)
unfolding common_dtype
common_dtype-integer i (DataType.integer j) = ap as_dtype (common_integer_sym i j)
common_dtype-integer i b = ground arith

common_dtype_sym : (a b : DataType) → common_dtype a b ≡ common_dtype b a
unfolding common_dtype
common_dtype_sym (DataType.integer i) b = common_dtype-integer i b
common_dtype_sym a (DataType.integer i) = sym (common_dtype-integer i a)
common_dtype_sym a b = ground arith

common_integers :
    (i : Integer) (b c : DataType)
    → then_common (common_dtype (DataType.integer i) b) c
      ≡ then_common (common_dtype (DataType.integer i) c) b
unfolding common_dtype
common_integers i (DataType.integer j) (DataType.integer k) =
    then_common-as_dtype (common_integer i j) k
    ∙ (ap as_dtype (common_integer_comm i j k) ∙ sym (then_common-as_dtype (common_integer i k) j))
common_integers i b c = ground arith

common_dtype_comm :
    (a b c : DataType) → then_common (common_dtype a b) c ≡ then_common (common_dtype a c) b
unfolding common_dtype
common_dtype_comm DataType.null b c = common_dtype_sym b c
common_dtype_comm (DataType.integer i) b c = common_integers i b c
common_dtype_comm DataType.string (DataType.integer j) (DataType.integer k) =
    common_dtype_sym (DataType.integer j) (DataType.integer k)
common_dtype_comm DataType.string b c = ground arith
common_dtype_comm DataType.float16 b c = ground arith
common_dtype_comm DataType.float32 b c = ground arith
common_dtype_comm DataType.float64 b c = ground arith
common_dtype_comm (DataType.decimal d) b c = ground arith
common_dtype_comm (DataType.other d) b c = ground arith

abbrev pub resolve_after : Result DataType → List (Option DataType) → Result (Option DataType)
resolve_after r schemas = r >>= λ d. resolve (some d) schemas

pub resolve-step :
    (c d : DataType) (ss : List (Option DataType))
    → resolve (some c) (some d ∷ ss) ≡ resolve_after (common_dtype c d) ss
unfolding resolve
resolve-step c d ss = ground arith

resolve-steps :
    (r : Result DataType) (d : DataType) (ss : List (Option DataType))
    → (r >>= λ c. resolve (some c) (some d ∷ ss)) ≡ resolve_after (then_common r d) ss
resolve-steps (ok c) d ss = resolve-step c d ss
resolve-steps validation_error d ss = refl
resolve-steps key_error d ss = refl

after-cong :
    (r : Result DataType) (ss ts : List (Option DataType))
    → ((b : Option DataType) → resolve b ss ≡ resolve b ts)
    → resolve_after r ss ≡ resolve_after r ts
after-cong (ok c) ss ts h = h (some c)
after-cong validation_error ss ts h = refl
after-cong key_error ss ts h = refl

resolve-cons :
    (c d : Option DataType) (ss ts : List (Option DataType))
    → ((b : Option DataType) → resolve b ss ≡ resolve b ts)
    → resolve c (d ∷ ss) ≡ resolve c (d ∷ ts)
unfolding resolve
resolve-cons c none ss ts h = h c
resolve-cons none (some d) ss ts h = h (some d)
resolve-cons (some c) (some d) ss ts h =
    resolve-step c d ss ∙ (after-cong (common_dtype c d) ss ts h ∙ sym (resolve-step c d ts))

resolve-swap :
    (c d e : Option DataType) (ss : List (Option DataType))
    → resolve c (d ∷ e ∷ ss) ≡ resolve c (e ∷ d ∷ ss)
unfolding resolve
resolve-swap c none none ss = refl
resolve-swap none none (some e) ss = refl
resolve-swap none (some d) none ss = refl
resolve-swap (some c) none (some e) ss = resolve-cons (some c) (some e) ss (none ∷ ss) (λ b. refl)
resolve-swap (some c) (some d) none ss = resolve-cons (some c) (some d) (none ∷ ss) ss (λ b. refl)
resolve-swap none (some d) (some e) ss =
    resolve-step d e ss
    ∙ (ap (λ o. resolve_after o ss) (common_dtype_sym d e) ∙ sym (resolve-step e d ss))
resolve-swap (some c) (some d) (some e) ss =
    resolve-step c d (some e ∷ ss)
    ∙ (resolve-steps (common_dtype c d) e ss
        ∙ (ap (λ o. resolve_after o ss) (common_dtype_comm c d e)
            ∙ (sym (resolve-steps (common_dtype c e) d ss) ∙ sym (resolve-step c e (some d ∷ ss)))))

resolve_reordered :
    {ss ts : List (Option DataType)}
    → Permᴰ ss ts
    → (c : Option DataType) → resolve c ss ≡ resolve c ts
resolve_reordered Permᴰ.nil c = refl
resolve_reordered (Permᴰ.cons {a = a} {l₁ = ss} {l₂ = ts} e p) c =
    resolve-cons c a ss ts (resolve_reordered p) ∙ ap (λ x. resolve c (x ∷ ts)) e
resolve_reordered (Permᴰ.swap {a = a} {b = b} {a' = a'} {b' = b'} {l = ss} e f) c =
    resolve-swap c a b ss
    ∙ (ap (λ x. resolve c (x ∷ a ∷ ss)) f ∙ ap (λ x. resolve c (a' ∷ x ∷ ss)) e)
resolve_reordered (Permᴰ.trans p q) c = resolve_reordered p c ∙ resolve_reordered q c

answers-IsSet : IsSet (Result (Option DataType))
answers-IsSet = hlevel ℕ_discrete

-- The type that a column resolves to, and whether it resolves at all, is the same in whatever order the
-- schemas come.
pub resolve-Perm : (ss ts : List (Option DataType)) → Perm ss ts → resolve none ss ≡ resolve none ts
resolve-Perm ss ts p =
    ∥∥₁_elim p (answers-IsSet (resolve none ss) (resolve none ts)) (λ d. resolve_reordered d none)
