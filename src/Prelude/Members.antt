-- ===== src/Prelude/Members.antt =====
-- Lists of numbers as sets: membership as a test, and how many numbers of one list another lacks.
use Prim.Native.Nat.{ℕ, ◌+◌, ◌≤◌}
use mathlib.Core.Path.{◌≡◌, sym}
use mathlib.Core.Logic.{inl, inr}
use mathlib.Core.Bool.{Bool, true, false}
use mathlib.Core.List.{List, [], ◌∷◌}
use native.Mathlib.Omega.{arith}
use bagelquant_data.Prelude.Tests.{if◌then◌else◌, ◌==◌, ==-refl, Bool-cases}
use bagelquant_data.Prelude.Lists.{any, In}

abbrev pub contains : ℕ → List ℕ → Bool
contains c xs = any (λ x. x == c) xs

abbrev pub IsDistinct : List ℕ → Type 0
IsDistinct [] = Unit
IsDistinct (x ∷ xs) = (contains x xs ≡ false) × IsDistinct xs

-- Every number of the first list is in the second.
abbrev pub Grows : List ℕ → List ℕ → Type 0
Grows v v' = (c : ℕ) → contains c v ≡ true → contains c v' ≡ true

-- How many numbers of the first list are not in the second.
abbrev pub unseen : List ℕ → List ℕ → ℕ
unseen [] v = 0
unseen (c ∷ cs) v = (if contains c v then 0 else 1) + unseen cs v

pub unseen-Grows : (cs v w : List ℕ) → Grows v w → unseen cs w ≤ unseen cs v
unseen-Grows [] v w g = omega arith
unseen-Grows (c ∷ cs) v w g = elim (Bool-cases (contains c v)) [
  | inl seen ↦ rw (seen, g c seen) (omega (arith, unseen-Grows cs v w g))
  | inr new ↦ rw new (ground (arith, unseen-Grows cs v w g))
]

pub unseen-suc :
    (cs v : List ℕ) (c : ℕ) → In c cs → contains c v ≡ false → unseen cs (c ∷ v) + 1 ≤ unseen cs v
unseen-suc [] v c i new = absurd i
unseen-suc (d ∷ cs) v c (inl e) new =
    let g = unseen-Grows cs v (c ∷ v) (λ x seen. ground (arith, seen)) in
    rw (sym e, new, ==-refl c) (omega (arith, g))
unseen-suc (d ∷ cs) v c (inr i) new = ground (arith, unseen-suc cs v c i new)

pub unseen-none : (cs v : List ℕ) (c : ℕ) → unseen cs v ≤ 0 → In c cs → contains c v ≡ true
unseen-none [] v c h i = absurd i
unseen-none (d ∷ cs) v c h (inl e) = rw e (ground (arith, h))
unseen-none (d ∷ cs) v c h (inr i) = unseen-none cs v c (omega (arith, h)) i
