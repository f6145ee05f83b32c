-- ===== src/Availability/Sessions.antt =====
-- Counting the open sessions of a sorted calendar.
use bagelquant_data.Prelude.{
  ℕ, zero, suc, ◌+◌, ◌≤◌, ◌≡◌, refl, ◌∙◌, ap, Bool, ◌||◌, inl, inr, List, [], ◌∷◌, ◌==◌, ltb, leb,
  if◌then◌else◌, arith, Bool-cases, any, All,
}
use bagelquant_data.Availability.{insert_session, normalized}

-- The market is open on day `d`.
abbrev pub is_open : List ℕ → ℕ → Bool
is_open ss d = any (λ s. s == d) ss

-- The number of open days among the `n` days from `first`.
abbrev pub open_days : List ℕ → ℕ → ℕ → ℕ
open_days ss first zero = 0
open_days ss first (suc n) = (if is_open ss first then 1 else 0) + open_days ss (suc first) n

-- The dates of a list from `d` on.
abbrev pub count_from : ℕ → List ℕ → ℕ
count_from d [] = 0
count_from d (s ∷ ss) = (if leb d s then 1 else 0) + count_from d ss

abbrev pub From : ℕ → List ℕ → Type 0
From d ss = All (λ s. d ≤ s) ss

abbrev pub IsCalendar : List ℕ → Type 0
IsCalendar [] = Unit
IsCalendar (s ∷ ss) = From (suc s) ss × IsCalendar ss

From-trans : (c d : ℕ) (ss : List ℕ) → c ≤ d → From d ss → From c ss
From-trans c d [] le h = tt
From-trans c d (s ∷ ss) le h = (omega (arith, h.0), From-trans c d ss le h.1)

From-insert_session : (c d : ℕ) (ss : List ℕ) → c ≤ d → From c ss → From c (insert_session d ss)
From-insert_session c d [] le h = (le, tt)
From-insert_session c d (s ∷ ss) le h = elim (Bool-cases (ltb d s)) [
  | inl before ↦ rw before (le, h)
  | inr after ↦ elim (Bool-cases (d == s)) [
    | inl same ↦ rw (after, same) h
    | inr other ↦ rw (after, other) (h.0, From-insert_session c d ss le h.1)
  ]
]

IsCalendar-insert_session : (d : ℕ) (ss : List ℕ) → IsCalendar ss → IsCalendar (insert_session d ss)
IsCalendar-insert_session d [] h = (tt, tt)
IsCalendar-insert_session d (s ∷ ss) h = elim (Bool-cases (ltb d s)) [
  | inl before ↦ rw before ((ground arith, From-trans (suc d) (suc s) ss (ground arith) h.0), h)
  | inr after ↦ elim (Bool-cases (d == s)) [
    | inl same ↦ rw (after, same) h
    | inr other ↦
        rw (after, other)
          (From-insert_session (suc s) d ss (ground arith) h.0, IsCalendar-insert_session d ss h.1)
  ]
]

pub normalized-IsCalendar : (ss : List ℕ) → IsCalendar (normalized ss)
unfolding normalized
normalized-IsCalendar [] = tt
normalized-IsCalendar (s ∷ ss) =
    IsCalendar-insert_session s (normalized ss) (normalized-IsCalendar ss)

is_open-insert_session :
    (d x : ℕ) (ss : List ℕ) → is_open (insert_session d ss) x ≡ ((d == x) || is_open ss x)
is_open-insert_session d x [] = refl
is_open-insert_session d x (s ∷ ss) = ground (arith, is_open-insert_session d x ss)

-- Sorting leaves the days on which the market is open as they are.
pub is_open-normalized : (ss : List ℕ) (x : ℕ) → is_open (normalized ss) x ≡ is_open ss x
unfolding normalized
is_open-normalized [] x = refl
is_open-normalized (s ∷ ss) x =
    is_open-insert_session s x (normalized ss) ∙ ap (λ b. (s == x) || b) (is_open-normalized ss x)

pub open_days-normalized :
    (ss : List ℕ) (first n : ℕ) → open_days (normalized ss) first n ≡ open_days ss first n
open_days-normalized ss first zero = refl
open_days-normalized ss first (suc n) =
    rw (is_open-normalized ss first, open_days-normalized ss (suc first) n) refl

pub open_days-split :
    (ss : List ℕ) (first m n : ℕ)
    → open_days ss first (m + n) ≡ open_days ss first m + open_days ss (first + m) n
open_days-split ss first zero n = ground arith
open_days-split ss first (suc m) n =
    let e : suc m + n ≡ suc (m + n) = omega arith in
    let f : first + suc m ≡ suc first + m = omega arith in
    rw (e, f) (omega (arith, open_days-split ss (suc first) m n))
