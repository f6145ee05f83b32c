-- ===== src/Window/Join.antt =====
-- The joining of sorted windows as a total function, and what it does to the days covered.
use bagelquant_data.Prelude.{
  ℕ, ◌+◌, ◌≤◌, ◌<◌, ◌≡◌, refl, true, false, inl, inr, List, [], ◌∷◌, arith, leb, All, max,
  Bool-cases,
}
use bagelquant_data.Window.{Window, covered}

-- `p` is the window that the next one may extend.
unfoldable pub join_from : Window → List Window → List Window
join_from p [] = p ∷ []
join_from p (w ∷ ws) = elim (leb w.first (p.last + 1)) [
  | true ↦ join_from (record { first = p.first; last = max w.last p.last }) ws
  | false ↦ p ∷ join_from w ws
]

-- Every window of the list starts at or after `n`.
abbrev pub StartsFrom : ℕ → List Window → Type 0
StartsFrom n ws = All (λ w. n ≤ w.first) ws

abbrev pub IsSorted : List Window → Type 0
IsSorted [] = Unit
IsSorted (w ∷ ws) = StartsFrom w.first ws × IsSorted ws

-- Between two windows of the list at least one day is free.
abbrev pub IsSeparated : List Window → Type 0
IsSeparated [] = Unit
IsSeparated (w ∷ ws) = All (λ v. w.last + 1 < v.first) ws × IsSeparated ws

pub StartsFrom-trans : (m n : ℕ) (ws : List Window) → m ≤ n → StartsFrom n ws → StartsFrom m ws
StartsFrom-trans m n [] le h = tt
StartsFrom-trans m n (w ∷ ws) le h = (omega arith, StartsFrom-trans m n ws le h.1)

pub covered-join_from :
    (d : ℕ) (p : Window) (ws : List Window)
    → StartsFrom p.first ws
    → IsSorted ws
    → covered d (join_from p ws) ≡ covered d (p ∷ ws)
unfolding join_from
covered-join_from d p [] f s = refl
covered-join_from d p (w ∷ ws) f s = ground (
  arith,
  covered-join_from d (record { first = p.first; last = max w.last p.last }) ws f.1 s.1,
  covered-join_from d w ws s.0 s.1,
)

-- No window of the result starts before the first.
pub StartsFrom-join_from :
    (n : ℕ) (p : Window) (ws : List Window)
    → n ≤ p.first
    → StartsFrom n ws
    → StartsFrom n (join_from p ws)
unfolding join_from
StartsFrom-join_from n p [] h f = (h, tt)
StartsFrom-join_from n p (w ∷ ws) h f = elim (Bool-cases (leb w.first (p.last + 1))) [
  | inl joined ↦
      rw (joined, join_from)
        (StartsFrom-join_from n (record { first = p.first; last = max w.last p.last }) ws h f.1)
  | inr apart ↦ rw (apart, join_from) (h, StartsFrom-join_from n w ws f.0 f.1)
]

pub IsSeparated-join_from :
    (p : Window) (ws : List Window) → IsSorted ws → IsSeparated (join_from p ws)
unfolding join_from
IsSeparated-join_from p [] s = (tt, tt)
IsSeparated-join_from p (w ∷ ws) s = elim (Bool-cases (leb w.first (p.last + 1))) [
  | inl joined ↦
      rw (joined, join_from)
        (IsSeparated-join_from (record { first = p.first; last = max w.last p.last }) ws s.1)
  | inr apart ↦
      rw (apart, join_from)
        (
          after_gap (join_from w ws) (
              StartsFrom-join_from (p.last + 2) w ws (ground arith)
                (StartsFrom-trans (p.last + 2) w.first ws (ground arith) s.0)),
          IsSeparated-join_from w ws s.1,
        )
]
  where
    after_gap : (vs : List Window) → StartsFrom (p.last + 2) vs → All (λ v. p.last + 1 < v.first) vs
    after_gap [] h = tt
    after_gap (v ∷ vs) h = (omega arith, after_gap vs h.1)
