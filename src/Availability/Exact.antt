-- ===== src/Availability/Exact.antt =====
-- The buffered session is the one that a walk over the days finds.
use bagelquant_data.Prelude.{
  ℕ, zero, suc, ◌+◌, ◌-◌, ◌≤◌, ◌<◌, ◌≡◌, refl, sym, ◌∙◌, ap, ap₂, true, false, inl, inr, Option,
  none, some, List, [], ◌∷◌, ltb, leb, arith, Bool-cases, ==-refl,
}
use mathlib.Core.Path.{subst}
use bagelquant_data.Availability.{
  bisect_left, bisect_right, session_at, normalized, advance_available_date,
  advance_available_date_in_sessions,
}
use bagelquant_data.Availability.Sessions.{
  is_open, open_days, From, IsCalendar, normalized-IsCalendar, is_open-normalized,
  open_days-normalized, open_days-split,
}

bisect_left-From : (d : ℕ) (ss : List ℕ) → From d ss → bisect_left ss d ≡ 0
unfolding bisect_left
bisect_left-From d [] h = refl
bisect_left-From d (s ∷ ss) h = ground (arith, h.0)

bisect_right_lem : (ss : List ℕ) (d : ℕ) → bisect_right ss d ≡ bisect_left ss (suc d)
unfolding bisect_left bisect_right
bisect_right_lem [] d = refl
bisect_right_lem (s ∷ ss) d = ground (arith, bisect_right_lem ss d)

is_open-From : (ss : List ℕ) (d : ℕ) → From (suc d) ss → is_open ss d ≡ false
is_open-From [] d h = refl
is_open-From (s ∷ ss) d h = ground (arith, h.0, is_open-From ss d h.1)

From-suc : (d : ℕ) (ss : List ℕ) → From (suc d) ss → From d ss
From-suc d [] h = tt
From-suc d (s ∷ ss) h = (omega (arith, h.0), From-suc d ss h.1)

-- No day before the first session is open.
open_days-before :
    (ss : List ℕ) (first n d : ℕ) → first + n ≤ d → From d ss → open_days ss first n ≡ 0
open_days-before ss first zero d le h = refl
open_days-before ss first (suc n) d le h =
    ground (arith, lower ss h, open_days-before ss (suc first) n d (omega (arith, le)) h)
  where
    lower : (ss : List ℕ) → From d ss → is_open ss first ≡ false
    lower [] h = refl
    lower (s ∷ ss) h = ground (arith, le, h.0, lower ss h.1)

-- A session that is over is not among the days that follow.
open_days-after :
    (s : ℕ) (ss : List ℕ) (first n : ℕ)
    → s < first
    → open_days (s ∷ ss) first n ≡ open_days ss first n
open_days-after s ss first zero lt = refl
open_days-after s ss first (suc n) lt =
    ground (arith, lt, open_days-after s ss (suc first) n (omega (arith, lt)))

-- The answer is the session with `before` open days between it and `first`, or none when there are no more.
abbrev pub Lands : List ℕ → ℕ → ℕ → Option ℕ → Type 0
Lands ss first before none = (n : ℕ) → open_days ss first n ≤ before
Lands ss first before (some d) =
    (first ≤ d) × (is_open ss d ≡ true) × (open_days ss first (d - first) ≡ before)

-- A session that is over.
Lands-after :
    (s : ℕ) (ss : List ℕ) (first before : ℕ) (r : Option ℕ)
    → s < first
    → Lands ss first before r
    → Lands (s ∷ ss) first before r
Lands-after s ss first before none lt h = λ n. omega (arith, open_days-after s ss first n lt, h n)
Lands-after s ss first before (some d) lt h =
    (h.0, ground (arith, h.1), open_days-after s ss first (d - first) lt ∙ h.2)

open_days-counted :
    (s : ℕ) (ss : List ℕ) (first m : ℕ)
    → first ≤ s
    → From (suc s) ss
    → open_days (s ∷ ss) first ((s - first) + suc m) ≡ suc (open_days ss (suc s) m)
open_days-counted s ss first m le f =
    let e : first + (s - first) ≡ s = omega (arith, le) in
    let t : open_days (s ∷ ss) s (suc m) ≡ suc (open_days ss (suc s) m) =
      rw (==-refl s) (omega (arith, open_days-after s ss (suc s) m (omega arith))) in
    open_days-split (s ∷ ss) first (s - first) (suc m)
    ∙ (ap₂ ◌+◌
          (open_days-before (s ∷ ss) first (s - first) s (omega (arith, le))
            (omega arith, From-suc s ss f))
          (ap (λ x. open_days (s ∷ ss) x (suc m)) e ∙ t)
        ∙ omega arith)

-- A session that counts.
Lands-counted :
    (s : ℕ) (ss : List ℕ) (first before : ℕ) (r : Option ℕ)
    → first ≤ s
    → From (suc s) ss
    → Lands ss (suc s) before r
    → Lands (s ∷ ss) first (suc before) r
Lands-counted s ss first before none le f h = λ n. elim (Bool-cases (leb n (s - first))) [
  | inl early ↦
      let z =
        open_days-before (s ∷ ss) first n s (ground (arith, le, early))
          (omega arith, From-suc s ss f) in
      omega (arith, z)
  | inr late ↦
      let m = n - (s - first) - 1 in
      let e : n ≡ (s - first) + suc m = ground (arith, late) in
      omega (arith, ap (open_days (s ∷ ss) first) e, open_days-counted s ss first m le f, h m)
]
Lands-counted s ss first before (some d) le f h =
    let e : d - first ≡ (s - first) + suc (d - suc s) = omega (arith, h.0, le) in
    (
      omega (arith, h.0, le),
      ground (arith, h.1),
      rw e (open_days-counted s ss first (d - suc s) le f ∙ ap suc h.2),
    )

session_at-over :
    (s : ℕ) (ss : List ℕ) (first before : ℕ)
    → ltb s first ≡ true
    → session_at (s ∷ ss) (bisect_left (s ∷ ss) first + before)
      ≡ session_at ss (bisect_left ss first + before)
unfolding session_at bisect_left
session_at-over s ss first before over =
    let e : suc (bisect_left ss first) + before ≡ suc (bisect_left ss first + before) =
      omega arith in
    rw (over, bisect_left) (rw (e, session_at) refl)

session_at-ahead :
    (s : ℕ) (ss : List ℕ) (first before : ℕ)
    → first ≤ s
    → session_at (s ∷ ss) (bisect_left (s ∷ ss) first + before) ≡ session_at (s ∷ ss) before
unfolding bisect_left
session_at-ahead s ss first before le =
    let e : bisect_left (s ∷ ss) first + before ≡ before = ground (arith, le) in
    ap (session_at (s ∷ ss)) e

open_days_nil : (first n : ℕ) → open_days [] first n ≡ 0
open_days_nil first zero = refl
open_days_nil first (suc n) = omega (arith, open_days_nil (suc first) n)

Lands-session_at :
    (ss : List ℕ) (first before : ℕ)
    → IsCalendar ss
    → Lands ss first before (session_at ss (bisect_left ss first + before))
unfolding session_at bisect_left
Lands-session_at [] first before c = λ n. omega (arith, open_days_nil first n)
Lands-session_at (s ∷ ss) first before c = elim (Bool-cases (ltb s first)) [
  | inl over ↦ subst (Lands (s ∷ ss) first before) (sym (session_at-over s ss first before over)) (
      Lands-after s ss first before _ (ground (arith, over)) (Lands-session_at ss first before c.1))
  | inr ahead ↦
      subst (Lands (s ∷ ss) first before)
        (sym (session_at-ahead s ss first before (ground (arith, ahead))))
        (here before (ground (arith, ahead)) (λ n. Lands-session_at ss (suc s) n c.1))
]
  where
    here :
        (before : ℕ)
        → first ≤ s
        → ((n : ℕ) → Lands ss (suc s) n (session_at ss (bisect_left ss (suc s) + n)))
        → Lands (s ∷ ss) first before (session_at (s ∷ ss) before)
    here zero le ih = (
      le,
      ground (arith, ==-refl s),
      open_days-before (s ∷ ss) first (s - first) s (omega (arith, le))
          (omega arith, From-suc s ss c.0),
    )
    here (suc n) le ih = Lands-counted s ss first n (session_at ss n) le c.0 (
        subst (λ k. Lands ss (suc s) n (session_at ss k))
          (omega (arith, bisect_left-From (suc s) ss c.0)) (ih n))

Lands-normalized :
    (ss : List ℕ) (first before : ℕ) (r : Option ℕ)
    → Lands (normalized ss) first before r
    → Lands ss first before r
Lands-normalized ss first before none h = λ n. omega (arith, h n, open_days-normalized ss first n)
Lands-normalized ss first before (some d) h = (
  h.0,
  sym (is_open-normalized ss d) ∙ h.1,
  sym (open_days-normalized ss first (d - first)) ∙ h.2,
)

-- The first day that may count, and how many open days to leave out, for a buffer.
abbrev pub start : ℕ → ℕ → ℕ
start base zero = base
start base (suc buffer) = suc base

abbrev pub skipped : ℕ → ℕ
skipped zero = 0
skipped (suc buffer) = buffer

-- For every list of sessions, in any order and with repetitions: with no buffer the available date is the
-- first open day from the base date on; with a buffer of n > 0 it is the n-th open day after the base
-- date; and there is none only when the sessions have fewer such days.
pub advance_available_date_exact :
    (base : ℕ) (sessions : List ℕ) (buffer : ℕ)
    → Lands sessions
        (start base buffer)
        (skipped buffer)
        (advance_available_date base sessions buffer)
unfolding advance_available_date advance_available_date_in_sessions
advance_available_date_exact base sessions zero = Lands-normalized sessions base 0 _ (
    subst (λ k. Lands (normalized sessions) base 0 (session_at (normalized sessions) k))
      (omega arith)
      (Lands-session_at (normalized sessions) base 0 (normalized-IsCalendar sessions)))
advance_available_date_exact base sessions (suc buffer) =
    Lands-normalized sessions (suc base) buffer _ (
      subst
        (λ k.
          Lands (normalized sessions) (suc base) buffer
            (session_at (normalized sessions) (k + buffer)))
        (sym (bisect_right_lem (normalized sessions) base))
        (Lands-session_at (normalized sessions) (suc base) buffer (normalized-IsCalendar sessions)))
