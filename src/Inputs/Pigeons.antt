-- ===== src/Inputs/Pigeons.antt =====
-- Different numbers in a list are no more than the list is long.
use bagelquant_data.Prelude.{
  ℕ, suc, ◌+◌, ◌≤◌, ◌≡◌, refl, ap, true, false, inl, inr, List, [], ◌∷◌, ◌==◌, if◌then◌else◌, arith,
  Bool-cases, ==→eq, ==-refl, length, map, contains, IsDistinct, unseen,
}

abbrev without : ℕ → List ℕ → List ℕ
without x [] = []
without x (y ∷ ys) = if y == x then without x ys else y ∷ without x ys

length-without_le : (x : ℕ) (ys : List ℕ) → length (without x ys) ≤ length ys
length-without_le x [] = omega arith
length-without_le x (y ∷ ys) = ground (arith, length-without_le x ys)

length-without :
    (x : ℕ) (ys : List ℕ) → contains x ys ≡ true → length (without x ys) + 1 ≤ length ys
length-without x [] h = absurd (cc h)
length-without x (y ∷ ys) h = ground (arith, length-without_le x ys, length-without x ys)

contains-without :
    (c x : ℕ) (ys : List ℕ)
    → contains c ys ≡ true
    → (c == x) ≡ false
    → contains c (without x ys) ≡ true
contains-without c x [] h other = h
contains-without c x (y ∷ ys) h other = ground (arith, contains-without c x ys)

pub length-IsDistinct :
    (xs ys : List ℕ)
    → IsDistinct xs
    → ((c : ℕ) → contains c xs ≡ true → contains c ys ≡ true)
    → length xs ≤ length ys
length-IsDistinct [] ys d sub = omega arith
length-IsDistinct (x ∷ xs) ys (new, d) sub = omega (
  arith,
  length-without x ys (sub x (rw (==-refl x) refl)),
  length-IsDistinct xs (without x ys) d rest,
)
  where
    rest : (c : ℕ) → contains c xs ≡ true → contains c (without x ys) ≡ true
    rest c h = elim (Bool-cases (c == x)) [
      | inl same ↦ absurd (cc (ap (λ y. contains y xs) (==→eq c x same), h, new))
      | inr other ↦ contains-without c x ys (sub c (ground (arith, h))) other
    ]

pub length-map : (g : ℕ → ℕ) (xs : List ℕ) → length (map g xs) ≡ length xs
length-map g [] = refl
length-map g (x ∷ xs) = ap suc (length-map g xs)

pub contains-map :
    (g : ℕ → ℕ) (y : ℕ) (xs : List ℕ)
    → contains y (map g xs) ≡ true
    → (x : ℕ) × (contains x xs ≡ true) × (g x ≡ y)
contains-map g y [] h = absurd (cc h)
contains-map g y (x ∷ xs) h = elim (Bool-cases (g x == y)) [
  | inl same ↦ (x, rw (==-refl x) refl, ==→eq (g x) y same)
  | inr other ↦
      let (z, inside, at_z) = contains-map g y xs (ground (arith, h, other)) in
      (z, ground (arith, inside), at_z)
]

pub IsDistinct-map :
    (g : ℕ → ℕ) (xs : List ℕ)
    → ((x y : ℕ) → contains x xs ≡ true → contains y xs ≡ true → g x ≡ g y → x ≡ y)
    → IsDistinct xs
    → IsDistinct (map g xs)
IsDistinct-map g [] inj d = tt
IsDistinct-map g (x ∷ xs) inj (new, d) =
    (fresh, IsDistinct-map g xs (λ y z h k. inj y z (ground (arith, h)) (ground (arith, k))) d)
  where
    fresh : contains (g x) (map g xs) ≡ false
    fresh = elim (Bool-cases (contains (g x) (map g xs))) [
      | inl seen ↦
          let (y, inside, at_y) = contains-map g (g x) xs seen in
          let same = inj y x (ground (arith, inside)) (rw (==-refl x) refl) at_y in
          absurd (cc (ap (λ z. contains z xs) same, inside, new))
      | inr unseen ↦ unseen
    ]
