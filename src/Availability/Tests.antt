-- ===== src/Availability/Tests.antt =====
-- A week with a closed weekend, given out of order and with a repetition.
use bagelquant_data.Prelude.{ℕ, ◌≡◌, refl, none, some, List, [], ◌∷◌}
use bagelquant_data.Availability.{
  normalized, bisect_left, bisect_right, session_at, advance_available_date_in_sessions,
  advance_available_date,
}
use bagelquant_data.Availability.Exact.{Lands, advance_available_date_exact}

abbrev week : List ℕ
week = 8 ∷ 5 ∷ 2 ∷ 1 ∷ 4 ∷ 3 ∷ 5 ∷ []

advance-saturday : advance_available_date 6 week 0 ≡ some 8
unfolding advance_available_date advance_available_date_in_sessions normalized bisect_left
    session_at
advance-saturday = refl

advance-buffered : advance_available_date 3 week 3 ≡ some 8
unfolding advance_available_date advance_available_date_in_sessions normalized bisect_right
    session_at
advance-buffered = refl

advance-beyond : advance_available_date 5 week 2 ≡ none
unfolding advance_available_date advance_available_date_in_sessions normalized bisect_right
    session_at
advance-beyond = refl

advance_available_date_exact_example : Lands week 4 2 (advance_available_date 3 week 3)
advance_available_date_exact_example = advance_available_date_exact 3 week 3
