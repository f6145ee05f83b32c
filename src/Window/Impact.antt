-- ===== src/Window/Impact.antt =====
-- The changed dates of General intervals, `_ranges` of general_intervals.py, against the days on which
-- a changed row is valid, and against the check that `_body` makes of the stored ranges.
use bagelquant_data.Prelude.{
  ℕ, ◌+◌, ◌≤◌, ◌<◌, ◌≡◌, refl, ap, ap₂, ◌∙◌, Bool, true, false, ◌&&◌, ◌||◌, inl, inr, Option, none,
  some, List, [], ◌∷◌, arith, ltb, leb, if◌then◌else◌, any, All, max, Bool-cases,
}
use bagelquant_data.Window.{
  Window, Interval, date_max, covered, is_empty, window_of, ranges_from, ranges, ranges_accepted,
}
use bagelquant_data.Window.Join.{
  join_from, StartsFrom, IsSorted, IsSeparated, covered-join_from, IsSeparated-join_from,
}
use bagelquant_data.Window.Merge.{AllNonempty, AllNonempty-join_from}

-- The row is valid on day `d`; without an end it is valid to the end of the calendar.
abbrev pub valid_on : ℕ → Interval → Bool
valid_on d i = leb i.first d && elim i.exclusive_end [ none ↦ leb d date_max | some e ↦ ltb d e ]

-- Both dates of the interval are dates of the calendar.
abbrev pub EndDated : Option ℕ → Type 0
EndDated none = Unit
EndDated (some e) = e ≤ date_max

abbrev pub IsDated : Interval → Type 0
IsDated i = (i.first ≤ date_max) × EndDated i.exclusive_end

-- The order of the loop's rows, by their first day.
abbrev pub FirstsAscend : List Interval → Type 0
FirstsAscend [] = Unit
FirstsAscend (i ∷ is) = All (λ j. i.first ≤ j.first) is × FirstsAscend is

-- The windows of the intervals that the loop does not skip.
windows : List Interval → List Window
windows [] = []
windows (i ∷ is) = if is_empty i then windows is else window_of i ∷ windows is

window_of_in_calendar : (i : Interval) → IsDated i → (window_of i).last ≤ date_max
window_of_in_calendar i h = split i.exclusive_end h.1
  where
    split :
        (e : Option ℕ)
        → EndDated e
        → (window_of (record { first = i.first; exclusive_end = e })).last ≤ date_max
    split none c = omega arith
    split (some e) c = omega arith

ranges_from-eq-join_from :
    (p : Window) (is : List Interval)
    → p.last ≤ date_max
    → All IsDated is
    → ranges_from p is ≡ join_from p (windows is)
unfolding ranges_from windows join_from
ranges_from-eq-join_from p [] h c = refl
ranges_from-eq-join_from p (i ∷ is) h c = ground (
  arith,
  window_of_in_calendar i c.0,
  ranges_from-eq-join_from p is h c.1,
  ranges_from-eq-join_from (window_of i) is (window_of_in_calendar i c.0) c.1,
  ranges_from-eq-join_from (record { first = p.first; last = max p.last (window_of i).last }) is
      (omega (arith, window_of_in_calendar i c.0)) c.1,
)

All-windows : (n : ℕ) (is : List Interval) → All (λ i. n ≤ i.first) is → StartsFrom n (windows is)
unfolding windows
All-windows n [] h = tt
All-windows n (i ∷ is) h = elim (Bool-cases (is_empty i)) [
  | inl skip ↦ rw (skip, windows) (All-windows n is h.1)
  | inr kept ↦ rw (kept, windows) (h.0, All-windows n is h.1)
]

IsSorted-windows : (is : List Interval) → FirstsAscend is → IsSorted (windows is)
unfolding windows
IsSorted-windows [] s = tt
IsSorted-windows (i ∷ is) s = elim (Bool-cases (is_empty i)) [
  | inl skip ↦ rw (skip, windows) (IsSorted-windows is s.1)
  | inr kept ↦ rw (kept, windows) (All-windows i.first is s.0, IsSorted-windows is s.1)
]

-- A window that is kept is not empty, and holds the days on which the row is valid.
window_of-valid :
    (i : Interval) (d : ℕ)
    → IsDated i
    → is_empty i ≡ false
    → ((window_of i).first ≤ (window_of i).last)
      × ((leb (window_of i).first d && leb d (window_of i).last) ≡ valid_on d i)
window_of-valid i d h kept = split i.exclusive_end kept h.0
  where
    split :
        (e : Option ℕ)
        → is_empty (record { first = i.first; exclusive_end = e }) ≡ false
        → i.first ≤ date_max
        → let j : Interval = record { first = i.first; exclusive_end = e } in
          ((window_of j).first ≤ (window_of j).last)
          × ((leb (window_of j).first d && leb d (window_of j).last) ≡ valid_on d j)
    split none k c = (omega arith, refl)
    split (some e) k c = (ground arith, ground arith)

empty-valid : (i : Interval) (d : ℕ) → is_empty i ≡ true → valid_on d i ≡ false
empty-valid i d h = split i.exclusive_end h
  where
    split :
        (e : Option ℕ)
        → is_empty (record { first = i.first; exclusive_end = e }) ≡ true
        → valid_on d (record { first = i.first; exclusive_end = e }) ≡ false
    split none k = cc
    split (some e) k = ground arith

covered-windows :
    (d : ℕ) (is : List Interval) → All IsDated is → covered d (windows is) ≡ any (valid_on d) is
unfolding windows
covered-windows d [] c = refl
covered-windows d (i ∷ is) c = elim (Bool-cases (is_empty i)) [
  | inl skip ↦ rw (skip, windows) (cc (empty-valid i d skip, covered-windows d is c.1))
  | inr kept ↦
      rw (kept, windows) (ap₂ ◌||◌ (window_of-valid i d c.0 kept).1 (covered-windows d is c.1))
]

AllNonempty-windows : (is : List Interval) → All IsDated is → AllNonempty (windows is)
unfolding windows
AllNonempty-windows [] c = tt
AllNonempty-windows (i ∷ is) c = elim (Bool-cases (is_empty i)) [
  | inl skip ↦ rw (skip, windows) (AllNonempty-windows is c.1)
  | inr kept ↦ rw (kept, windows) ((window_of-valid i 0 c.0 kept).0, AllNonempty-windows is c.1)
]

join_windows : List Window → List Window
join_windows [] = []
join_windows (w ∷ ws) = join_from w ws

ranges-eq-join_windows :
    (is : List Interval) → All IsDated is → ranges is ≡ join_windows (windows is)
unfolding ranges windows join_windows
ranges-eq-join_windows [] c = refl
ranges-eq-join_windows (i ∷ is) c = elim (Bool-cases (is_empty i)) [
  | inl skip ↦ rw (skip, windows) (ranges-eq-join_windows is c.1)
  | inr kept ↦
      rw (kept, windows)
        (ranges_from-eq-join_from (window_of i) is (window_of_in_calendar i c.0) c.1)
]

-- For rows of dated intervals in the order of their first days, the ranges cover exactly the days on
-- which some changed row is valid.
pub covered-ranges :
    (is : List Interval)
    → All IsDated is
    → FirstsAscend is
    → (d : ℕ) → covered d (ranges is) ≡ any (valid_on d) is
unfolding join_windows
covered-ranges is c s d =
    ap (covered d) (ranges-eq-join_windows is c)
    ∙ go (windows is) (IsSorted-windows is s)
    ∙ covered-windows d is c
  where
    go : (ws : List Window) → IsSorted ws → covered d (join_windows ws) ≡ covered d ws
    go [] h = refl
    go (w ∷ ws) h = covered-join_from d w ws h.0 h.1

-- Every window starts after the day that the check remembers.
abbrev After : Option ℕ → List Window → Type 0
After none ws = Unit
After (some l) ws = All (λ w. l < w.first) ws

After-tail : (n : ℕ) (ws : List Window) → All (λ v. n + 1 < v.first) ws → After (some n) ws
After-tail n [] h = tt
After-tail n (w ∷ ws) h = (omega arith, After-tail n ws h.1)

-- Windows that are separated and not empty pass the check on stored ranges.
ranges_accepted-separated :
    (previous : Option ℕ) (ws : List Window)
    → AllNonempty ws
    → IsSeparated ws
    → After previous ws
    → ranges_accepted previous ws ≡ true
unfolding ranges_accepted
ranges_accepted-separated previous [] e s a = refl
ranges_accepted-separated none (w ∷ ws) e s a =
    ground (arith, ranges_accepted-separated (some w.last) ws e.1 s.1 (After-tail w.last ws s.0))
ranges_accepted-separated (some l) (w ∷ ws) e s a =
    ground (arith, ranges_accepted-separated (some w.last) ws e.1 s.1 (After-tail w.last ws s.0))

-- What the preparation stores for such rows, the later check of the descriptor accepts.
pub ranges_accepted-ranges :
    (is : List Interval)
    → All IsDated is
    → FirstsAscend is
    → ranges_accepted none (ranges is) ≡ true
unfolding join_windows
ranges_accepted-ranges is c s =
    ap (ranges_accepted none) (ranges-eq-join_windows is c)
    ∙ go (windows is) (AllNonempty-windows is c) (IsSorted-windows is s)
  where
    go :
        (ws : List Window)
        → AllNonempty ws
        → IsSorted ws
        → ranges_accepted none (join_windows ws) ≡ true
    go [] e h = ranges_accepted-separated none [] tt tt tt
    go (w ∷ ws) e h =
        ranges_accepted-separated none (join_from w ws) (AllNonempty-join_from w ws e.0 e.1)
          (IsSeparated-join_from w ws h.1) tt
