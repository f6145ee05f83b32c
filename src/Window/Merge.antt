-- ===== src/Window/Merge.antt =====
-- `_merge` of items/incremental.py: it succeeds below `date.max`, keeps the days, and its result is
-- the one list of separated windows that covers them.
use bagelquant_data.Prelude.{
  ℕ, ◌+◌, ◌≤◌, ◌<◌, ◌≡◌, refl, ◌∙◌, inl, inr, some, List, [], ◌∷◌, arith, leb, All, max, Bool-cases,
}
use bagelquant_data.Window.{
  Window, date_max, covered, before, insert, sorted, merge_from, merge_sorted, merge,
}
use bagelquant_data.Window.Join.{
  join_from, IsSorted, IsSeparated, StartsFrom-trans, covered-join_from, IsSeparated-join_from,
}

-- Adding a day to the end of each window does not overflow.
abbrev pub EndsInCalendar : List Window → Type 0
EndsInCalendar ws = All (λ w. w.last < date_max) ws

-- No window is empty.
abbrev pub AllNonempty : List Window → Type 0
AllNonempty ws = All (λ w. w.first ≤ w.last) ws

module _ (P : Window → Type 0) where
  All-insert : (w : Window) (ws : List Window) → P w → All P ws → All P (insert w ws)
  All-insert w [] pw h = (pw, tt)
  All-insert w (v ∷ ws) pw h = elim (Bool-cases (before w v)) [
    | inl first ↦ rw (first, insert) (pw, (h.0, h.1))
    | inr later ↦ rw (later, insert) (h.0, All-insert w ws pw h.1)
  ]

  pub All-sorted : (ws : List Window) → All P ws → All P (sorted ws)
  All-sorted [] h = tt
  All-sorted (w ∷ ws) h = All-insert w (sorted ws) h.0 (All-sorted ws h.1)

IsSorted-insert : (w : Window) (ws : List Window) → IsSorted ws → IsSorted (insert w ws)
IsSorted-insert w [] s = (tt, tt)
IsSorted-insert w (v ∷ ws) s = elim (Bool-cases (before w v)) [
  | inl first ↦
      rw (first, insert)
        ((ground arith, StartsFrom-trans w.first v.first ws (ground arith) s.0), (s.0, s.1))
  | inr later ↦
      rw (later, insert)
        (All-insert (λ u. v.first ≤ u.first) w ws (ground arith) s.0, IsSorted-insert w ws s.1)
]

pub IsSorted-sorted : (ws : List Window) → IsSorted (sorted ws)
IsSorted-sorted [] = tt
IsSorted-sorted (w ∷ ws) = IsSorted-insert w (sorted ws) (IsSorted-sorted ws)

covered-insert :
    (d : ℕ) (w : Window) (ws : List Window) → covered d (insert w ws) ≡ covered d (w ∷ ws)
covered-insert d w [] = refl
covered-insert d w (v ∷ ws) = ground (arith, covered-insert d w ws)

pub covered-sorted : (d : ℕ) (ws : List Window) → covered d (sorted ws) ≡ covered d ws
covered-sorted d [] = refl
covered-sorted d (w ∷ ws) = ground (arith, covered-insert d w (sorted ws), covered-sorted d ws)

-- Without overflow the loop is the joining.
merge_from-eq-join_from :
    (p : Window) (ws : List Window)
    → p.last < date_max
    → EndsInCalendar ws
    → merge_from p ws ≡ some (join_from p ws)
unfolding merge_from join_from
merge_from-eq-join_from p [] h e = refl
merge_from-eq-join_from p (w ∷ ws) h e = ground (
  arith,
  merge_from-eq-join_from (record { first = p.first; last = max w.last p.last }) ws (omega arith)
      e.1,
  merge_from-eq-join_from w ws e.0 e.1,
)

pub joined : List Window → List Window
joined [] = []
joined (w ∷ ws) = join_from w ws

pub merge-eq-joined : (ws : List Window) → EndsInCalendar ws → merge ws ≡ some (joined (sorted ws))
unfolding merge merge_sorted joined
merge-eq-joined ws e = go (sorted ws) (All-sorted (λ w. w.last < date_max) ws e)
  where
    go : (vs : List Window) → EndsInCalendar vs → merge_sorted vs ≡ some (joined vs)
    go [] h = refl
    go (v ∷ vs) h = merge_from-eq-join_from v vs h.0 h.1

pub covered-joined : (d : ℕ) (ws : List Window) → IsSorted ws → covered d (joined ws) ≡ covered d ws
unfolding joined
covered-joined d [] s = refl
covered-joined d (w ∷ ws) s = covered-join_from d w ws s.0 s.1

pub IsSeparated-joined : (ws : List Window) → IsSorted ws → IsSeparated (joined ws)
unfolding joined
IsSeparated-joined [] s = tt
IsSeparated-joined (w ∷ ws) s = IsSeparated-join_from w ws s.1

pub AllNonempty-join_from :
    (p : Window) (ws : List Window)
    → p.first ≤ p.last
    → AllNonempty ws
    → AllNonempty (join_from p ws)
unfolding join_from
AllNonempty-join_from p [] h e = (h, tt)
AllNonempty-join_from p (w ∷ ws) h e = elim (Bool-cases (leb w.first (p.last + 1))) [
  | inl joins ↦
      rw (joins, join_from)
        (AllNonempty-join_from (record { first = p.first; last = max w.last p.last }) ws
          (omega arith) e.1)
  | inr apart ↦ rw (apart, join_from) (h, AllNonempty-join_from w ws e.0 e.1)
]

pub AllNonempty-joined : (ws : List Window) → AllNonempty ws → AllNonempty (joined ws)
unfolding joined
AllNonempty-joined [] e = tt
AllNonempty-joined (w ∷ ws) e = AllNonempty-join_from w ws e.0 e.1

-- When every window ends before `date.max`, `_merge` returns; the windows it returns cover exactly
-- the days of the given ones, and leave at least one free day between any two.
pub merge_exact :
    (ws : List Window)
    → EndsInCalendar ws
    → (r : List Window) × (merge ws ≡ some r)
      × ((d : ℕ) → covered d r ≡ covered d ws)
      × IsSeparated r
merge_exact ws e = (
  joined (sorted ws),
  merge-eq-joined ws e,
  λ d. covered-joined d (sorted ws) (IsSorted-sorted ws) ∙ covered-sorted d ws,
  IsSeparated-joined (sorted ws) (IsSorted-sorted ws),
)
