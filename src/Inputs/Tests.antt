-- ===== src/Inputs/Tests.antt =====
-- A broad capture that covers both declared inputs, and a narrow one that covers the first only.
use bagelquant_data.Prelude.{
  ℕ, zero, suc, ◌<◌, ◌≡◌, refl, Bool, true, false, none, some, List, [], ◌∷◌, length, arith,
}
use bagelquant_data.Inputs.{
  View, Bounds, Selection, DataInput, covers, covers_selection, covers_bounds, covers_fields,
}
use bagelquant_data.Inputs.Matching.{
  covers_at, match_all, match_index, try_candidates, accepts_input_selections,
}
use bagelquant_data.Inputs.Exact.{
  IsAssignment, accepts_input_selections_sound, accepts_input_selections_complete,
}

abbrev unbounded : Bounds
unbounded = record { lower = none; upper = none }

abbrev through : ℕ → ℕ → Selection
through first last = record {
  view = View.history;
  strict = false;
  bounds = record { lower = some first; upper = some last };
}

abbrev bars : Bool → Selection → DataInput
bars baseline s = DataInput.raw_input 1 2 [] unbounded baseline s

abbrev declared : List DataInput
declared = bars false (through 10 20) ∷ bars true (through 10 20) ∷ []

abbrev captured : List DataInput
captured = bars true (through 5 30) ∷ bars false (through 10 20) ∷ []

-- The first input gives the broad capture back to the second.
accepted-captured : accepts_input_selections false declared (some captured) ≡ true
unfolding accepts_input_selections match_all match_index try_candidates covers_at covers
    covers_selection covers_bounds covers_fields
accepted-captured = refl

refused-narrow :
    accepts_input_selections false declared
      (some (bars false (through 10 20) ∷ bars false (through 10 20) ∷ []))
    ≡ false
unfolding accepts_input_selections match_all match_index try_candidates covers_at covers
    covers_selection covers_bounds covers_fields
refused-narrow = refl

abbrev swapped : ℕ → ℕ
swapped zero = 1
swapped (suc x) = 0

swapped-IsAssignment : IsAssignment (covers_at false declared captured) 2 swapped
unfolding covers_at covers covers_selection covers_bounds covers_fields
swapped-IsAssignment = record { fitting = fitting; injective = injective }
  where
    fitting : (x : ℕ) → x < 2 → covers_at false declared captured x (swapped x) ≡ true
    fitting zero lt = refl
    fitting (suc zero) lt = refl
    fitting (suc (suc x)) lt = absurd (omega (arith, lt))

    injective : (x y : ℕ) → x < 2 → y < 2 → swapped x ≡ swapped y → x ≡ y
    injective x y lt lt' e = ground (arith, lt, lt', e)

accepts_input_selections_sound_example :
    (length captured ≡ length declared)
    × (a : ℕ → ℕ) × IsAssignment (covers_at false declared captured) (length declared) a
accepts_input_selections_sound_example =
    accepts_input_selections_sound false declared captured accepted-captured

accepts_input_selections_complete_example :
    accepts_input_selections false declared (some captured) ≡ true
accepts_input_selections_complete_example =
    accepts_input_selections_complete false declared captured swapped refl swapped-IsAssignment
