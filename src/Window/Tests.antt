-- ===== src/Window/Tests.antt =====
-- Runs of the window loops, and the properties at concrete windows.
use bagelquant_data.Prelude.{ℕ, ◌≡◌, refl, true, none, some, List, [], ◌∷◌, arith, any}
use bagelquant_data.Window.{Window, Interval, covered, merge, ranges, ranges_accepted}
use bagelquant_data.Window.Join.{IsSeparated}
use bagelquant_data.Window.Merge.{merge_exact}
use bagelquant_data.Window.Canonical.{merge-canonical}
use bagelquant_data.Window.Impact.{valid_on, covered-ranges, ranges_accepted-ranges}

abbrev window : ℕ → ℕ → Window
window a b = record { first = a; last = b }

abbrev scattered : List Window
scattered = window 20 22 ∷ window 3 5 ∷ window 6 9 ∷ window 4 7 ∷ []

merge-scattered : merge scattered ≡ some (window 3 9 ∷ window 20 22 ∷ [])
unfolding merge
merge-scattered = refl

-- A window that ends on `date.max` overflows as soon as another follows it.
merge-overflow : merge (window 5 3_652_059 ∷ window 7 8 ∷ []) ≡ none
unfolding merge
merge-overflow = refl

abbrev changed_rows : List Interval
changed_rows =
    record { first = 3; exclusive_end = some 5 }
    ∷ record { first = 4; exclusive_end = some 4 }
    ∷ record { first = 5; exclusive_end = some 7 }
    ∷ record { first = 12; exclusive_end = none }
    ∷ record { first = 30; exclusive_end = none }
    ∷ []

ranges-changed_rows : ranges changed_rows ≡ window 3 6 ∷ window 12 3_652_059 ∷ []
unfolding ranges
ranges-changed_rows = refl

merge_exact_example :
    (r : List Window) × (merge scattered ≡ some r)
    × ((d : ℕ) → covered d r ≡ covered d scattered)
    × IsSeparated r
merge_exact_example = merge_exact scattered (omega arith)

merge-canonical_example : merge (window 3 9 ∷ []) ≡ merge (window 6 9 ∷ window 3 5 ∷ [])
merge-canonical_example =
    merge-canonical (window 3 9 ∷ []) (window 6 9 ∷ window 3 5 ∷ []) (omega arith) (omega arith)
      (omega arith) (omega arith) (λ d. ground arith)

covered-ranges_example : covered 13 (ranges changed_rows) ≡ any (valid_on 13) changed_rows
covered-ranges_example = covered-ranges changed_rows (omega arith) (omega arith) 13

ranges_accepted-ranges_example : ranges_accepted none (ranges changed_rows) ≡ true
ranges_accepted-ranges_example = ranges_accepted-ranges changed_rows (omega arith) (omega arith)
