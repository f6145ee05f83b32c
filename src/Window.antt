-- ===== src/Window.antt =====
-- Inclusive date windows: `_merge` of items/incremental.py, and the loop of `_ranges` and the range
-- check of `_body` in general_intervals.py. A date is its ordinal (`date.toordinal`).
pub mod Join
pub mod Merge
pub mod Canonical
pub mod Impact
mod Tests
use bagelquant_data.Prelude.{
  ℕ, ◌+◌, ◌-◌, Bool, true, false, ◌&&◌, ◌||◌, Option, none, some, List, [], ◌∷◌, ltb, leb, ◌==◌,
  if◌then◌else◌, any, max,
}

pub record Window : Type 0 where
  pub first : ℕ
  pub last : ℕ

-- The ordinal of `date.max`; adding a day to it raises OverflowError.
abbrev pub date_max : ℕ
date_max = 3_652_059

-- The order of Python's tuples, by which `sorted` orders windows.
abbrev pub before : Window → Window → Bool
before v w = ltb v.first w.first || (v.first == w.first && leb v.last w.last)

abbrev pub insert : Window → List Window → List Window
insert w [] = w ∷ []
insert w (v ∷ vs) = if before w v then w ∷ v ∷ vs else v ∷ insert w vs

abbrev pub sorted : List Window → List Window
sorted [] = []
sorted (w ∷ ws) = insert w (sorted ws)

abbrev pub cons_result : Window → Option (List Window) → Option (List Window)
cons_result w none = none
cons_result w (some ws) = some (w ∷ ws)

-- The loop of `_merge`, whose `result[-1]` is `p`: the windows before it are never touched again.
-- `none` is the OverflowError of `result[-1][1] + timedelta(days=1)`.
unfoldable pub merge_from : Window → List Window → Option (List Window)
merge_from p [] = some (p ∷ [])
merge_from p (w ∷ ws) = elim (ltb p.last date_max) [
  | false ↦ none
  | true ↦ elim (leb w.first (p.last + 1)) [
    | true ↦ merge_from (record { first = p.first; last = max w.last p.last }) ws
    | false ↦ cons_result p (merge_from w ws)
  ]
]

merge_sorted : List Window → Option (List Window)
merge_sorted [] = some []
merge_sorted (w ∷ ws) = merge_from w ws

unfoldable pub merge : List Window → Option (List Window)
unfolding merge_sorted merge_from
merge ws = merge_sorted (sorted ws)

-- A changed General row's dates: it is valid from `first` up to, and without, `exclusive_end`.
pub record Interval : Type 0 where
  pub first : ℕ
  pub exclusive_end : Option ℕ

-- `exclusive_end is not None and exclusive_end <= first`: the `continue` of the loop.
abbrev pub is_empty : Interval → Bool
is_empty i = elim i.exclusive_end [ none ↦ false | some e ↦ leb e i.first ]

abbrev pub window_of : Interval → Window
window_of i = record {
  first = i.first;
  last = elim i.exclusive_end [ none ↦ date_max | some e ↦ e - 1 ];
}

-- The branch of `_ranges` with a previous window `p`; the test on `date.max` avoids the overflow.
unfoldable pub ranges_from : Window → List Interval → List Window
ranges_from p [] = p ∷ []
ranges_from p (i ∷ is) = elim (is_empty i) [
  | true ↦ ranges_from p is
  | false ↦ elim (p.last == date_max || leb i.first (p.last + 1)) [
    | true ↦ ranges_from (record { first = p.first; last = max p.last (window_of i).last }) is
    | false ↦ p ∷ ranges_from (window_of i) is
  ]
]

-- The loop of `_ranges`, over the distinct intervals in the order that the sort gives.
unfoldable pub ranges : List Interval → List Window
unfolding ranges_from
ranges [] = []
ranges (i ∷ is) = if is_empty i then ranges is else ranges_from (window_of i) is

-- The check on stored ranges in `_body`, with `previous`: false is the RuntimeError.
unfoldable pub ranges_accepted : Option ℕ → List Window → Bool
ranges_accepted previous [] = true
ranges_accepted previous (w ∷ ws) =
    leb w.first w.last
    && elim previous [ none ↦ true | some l ↦ ltb l w.first ]
    && ranges_accepted (some w.last) ws

-- A day lies in one of the windows.
abbrev pub covered : ℕ → List Window → Bool
covered d ws = any (λ w. leb w.first d && leb d w.last) ws
