-- ===== src/Availability.antt =====
-- The session buffer of items/availability.py: the day from which an observation may be used. A date is
-- its ordinal; Python's bisect is given by what it counts in a sorted list, and `sorted(set(…))` is an
-- insertion that drops equal dates. The buffer is a number: what is no non-negative integer is refused
-- before it gets here.
mod Sessions
pub mod Exact
mod Tests
use bagelquant_data.Prelude.{
  ℕ, zero, suc, ◌+◌, ◌-◌, Bool, true, false, Option, none, some, List, [], ◌∷◌, ◌==◌, ltb, leb,
  if◌then◌else◌,
}

-- `sorted(set(…))`, one date at a time.
abbrev pub insert_session : ℕ → List ℕ → List ℕ
insert_session d [] = d ∷ []
insert_session d (s ∷ ss) =
    if ltb d s then d ∷ s ∷ ss else if d == s then s ∷ ss else s ∷ insert_session d ss

unfoldable pub normalized : List ℕ → List ℕ
normalized [] = []
normalized (d ∷ ds) = insert_session d (normalized ds)

-- The number of elements of a sorted list that are smaller than `d`.
unfoldable pub bisect_left : List ℕ → ℕ → ℕ
bisect_left [] d = 0
bisect_left (s ∷ ss) d = if ltb s d then suc (bisect_left ss d) else 0

-- The number of elements of a sorted list that are not larger than `d`.
unfoldable pub bisect_right : List ℕ → ℕ → ℕ
bisect_right [] d = 0
bisect_right (s ∷ ss) d = if leb s d then suc (bisect_right ss d) else 0

-- `sessions[position] if position < len(sessions) else None`
unfoldable pub session_at : List ℕ → ℕ → Option ℕ
session_at [] position = none
session_at (s ∷ ss) zero = some s
session_at (s ∷ ss) (suc position) = session_at ss position

unfoldable pub advance_available_date_in_sessions : ℕ → List ℕ → ℕ → Option ℕ
advance_available_date_in_sessions base sessions zero =
    session_at sessions (bisect_left sessions base)
advance_available_date_in_sessions base sessions (suc buffer) =
    session_at sessions (bisect_right sessions base + buffer)

unfoldable pub advance_available_date : ℕ → List ℕ → ℕ → Option ℕ
unfolding advance_available_date_in_sessions normalized
advance_available_date base open_sessions buffer =
    advance_available_date_in_sessions base (normalized open_sessions) buffer
